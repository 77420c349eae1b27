-- ===== src/Messenger/Invariant/Defs.antt =====
-- The well-formedness of the messenger's state.
use rockx_dkg_cli.Prelude.{
  bytes_key, ℕ, ◌<◌, ◌≡◌, refl, true, some, lookup, has, Distinct, Bytes, All, arith, bytes_eq_iff,
}
use rockx_dkg_cli.Messenger.State.{
  Messenger, Message, Subscriber, topic_at, subscriber_at, init, default_topic,
}

abbrev pub Follows : Subscriber → Message → Type 0
Follows s msg = has msg.topic s.subscribes_to ≡ true

-- A topic is found under its own name only, its subscribers under theirs, every subscriber of a topic
-- follows it, and so does every queued message's topic; no key is bound twice.
pub record IsConsistent (m : Messenger) : Type 0 where
  pub topic_named :
      (k : Bytes) (t : ℕ)
      → lookup k m.topics ≡ some t
      → ((topic_at m t).name ≡ k) × (t < m.topic_heap.next)
  pub subscriber_named :
      (k n : Bytes) (t s : ℕ)
      → lookup k m.topics ≡ some t
      → lookup n (topic_at m t).subscribers ≡ some s
      → ((subscriber_at m s).name ≡ n)
        × (s < m.subscriber_heap.next)
        × (has k (subscriber_at m s).subscribes_to ≡ true)
  pub queued : (s : ℕ) → All (Follows (subscriber_at m s)) (subscriber_at m s).outgoing
  pub topics_distinct : Distinct m.topics
  pub subscribers_distinct :
      (k : Bytes) (t : ℕ) → lookup k m.topics ≡ some t → Distinct (topic_at m t).subscribers

pub init-IsConsistent : IsConsistent init
unfolding init lookup
init-IsConsistent = record {
  topic_named = λ k t e. ground (arith, bytes_eq_iff default_topic k);
  subscriber_named = λ k n t s e f. ground arith;
  queued = λ s. tt;
  topics_distinct = (refl, tt);
  subscribers_distinct = λ k t e. tt;
}
