-- ===== src/Messenger/System/Grows.antt =====
-- What every handler leaves of the subscribers: their queues, and the topics that they follow.
use rockx_dkg_cli.Prelude.{
  ℕ, ◌≤◌, ◌<◌, ◌≡◌, refl, ap, inl, inr, true, ◌||◌, Option, none, some, List, [], ◌∷◌, arith,
  Bool-cases, Option-cases, length, Bytes, GoMap, lookup, has, bytes_key,
}
use rockx_dkg_cli.Workers.{Runner}
use rockx_dkg_cli.Dkg.{SignedOutput, BlameOutput}
use rockx_dkg_cli.Messenger.State.{Messenger, Topic, Worker, subscriber_at, topic_at}
use rockx_dkg_cli.Messenger.Publish.{
  publish, handle_publish, handle_stream_dkg_output, handle_stream_dkg_blame,
}
use rockx_dkg_cli.Messenger.Topics.{
  TopicJson, enlist_all, created, install, Enlisted, default_of, handle_create_topic, delete_topic,
}
use rockx_dkg_cli.Messenger.Register.{
  SubscriberJson, register, register_new, register_existing, register_body, is_empty,
  handle_node_registration,
}
use rockx_dkg_cli.Messenger.Invariant.Topics.{Enlists, enlist-Enlists, start-Enlists}

pub record Grows (m m' : Messenger) : Type 0 where
  pub next_le : m.subscriber_heap.next ≤ m'.subscriber_heap.next
  pub incoming_same : m'.incoming ≡ m.incoming
  pub follows :
      (k : Bytes) (s : ℕ)
      → s < m.subscriber_heap.next
      → has k (subscriber_at m s).subscribes_to ≡ true
      → has k (subscriber_at m' s).subscribes_to ≡ true
  pub queue_same :
      (s : ℕ)
      → s < m.subscriber_heap.next
      → (subscriber_at m' s).outgoing ≡ (subscriber_at m s).outgoing
  pub queue_le :
      (s : ℕ) → length (subscriber_at m' s).outgoing ≤ length (subscriber_at m s).outgoing

pub Grows-refl : (m : Messenger) → Grows m m
Grows-refl m = record {
  next_le = omega arith;
  incoming_same = refl;
  follows = λ k s h f. f;
  queue_same = λ s h. refl;
  queue_le = λ s. omega arith;
}

existing-Grows :
    (n addr : Bytes) (t s : ℕ) (m : Messenger) (r : Runner Worker)
    → Grows m (register_existing t n addr s (m, r)).0
unfolding register_existing
existing-Grows n addr t s m r = record {
  next_le = omega arith;
  incoming_same = refl;
  follows = λ k w h f. ground arith;
  queue_same = λ w h. ground arith;
  queue_le = λ w. ground arith;
}

new-Grows :
    (k n addr : Bytes) (t : ℕ) (m : Messenger) (r : Runner Worker)
    → Grows m (register_new k t n addr (m, r)).0
unfolding register_new
new-Grows k n addr t m r = record {
  next_le = omega arith;
  incoming_same = refl;
  follows = λ j w h f. ground arith;
  queue_same = λ w h. ground arith;
  queue_le = λ w. ground arith;
}

register-Grows :
    (k n addr : Bytes) (t : ℕ) (m : Messenger) (r : Runner Worker)
    → Grows m (register k t n addr (m, r)).0
unfolding register
register-Grows k n addr t m r = elim (Option-cases (lookup n (topic_at m t).subscribers)) [
  | inl f ↦ rw (f, register) (new-Grows k n addr t m r)
  | inr (s, f) ↦ rw (f, register) (existing-Grows n addr t s m r)
]

body-Grows :
    (k : Bytes) (t : ℕ) (body : Option SubscriberJson) (m : Messenger) (r : Runner Worker)
    → Grows m (register_body k t body (m, r)).0.0
unfolding register_body
body-Grows k t none m r = Grows-refl m
body-Grows k t (some json) m r = elim (Bool-cases (is_empty json.name || is_empty json.srv_addr)) [
  | inl q ↦ rw q (Grows-refl m)
  | inr q ↦ rw q (register-Grows k json.name json.srv_addr t m r)
]

pub registration-Grows :
    (k : Bytes) (body : Option SubscriberJson) (m : Messenger) (r : Runner Worker)
    → Grows m (handle_node_registration k body (m, r)).0.0
unfolding handle_node_registration
registration-Grows k body m r = elim (Option-cases (lookup k m.topics)) [
  | inl f ↦ rw (f, handle_node_registration) (Grows-refl m)
  | inr (t, f) ↦ rw (f, handle_node_registration) (body-Grows k t body m r)
]

install-Grows :
    (d : Topic) (k : Bytes) (m : Messenger) (e : Enlisted)
    → Enlists d k m.subscriber_heap e
    → Grows m (install k m e).0
unfolding install
install-Grows d k m (h, subs) e = record {
  next_le = omega (arith, e.next);
  incoming_same = refl;
  follows = λ j s q f. (e.kept s).more j f;
  queue_same = λ s q. (e.kept s).outgoing;
  queue_le = λ s. omega (arith, ap length (e.kept s).outgoing);
}

created-Grows :
    (k : Bytes) (m : Messenger) (o : Option Topic) (subs : List Bytes)
    → Grows m (created k m (enlist_all o k m.topic_heap.next subs (m.subscriber_heap, []))).0
unfolding created enlist_all
created-Grows k m none [] =
    install-Grows (record { name = []; subscribers = [] }) k m _ (start-Enlists _ k _)
created-Grows k m none (sub ∷ subs) = Grows-refl m
created-Grows k m (some d) subs =
    install-Grows d k m _ (enlist-Enlists d k m.topic_heap.next _ subs _ (start-Enlists d k _))

pub create-Grows :
    (body : Option TopicJson) (m : Messenger) → Grows m (handle_create_topic body m).0
unfolding handle_create_topic
create-Grows none m = Grows-refl m
create-Grows (some json) m = created-Grows json.topic_name m (default_of m) json.subscribers

same-Grows :
    (m m' : Messenger)
    → m'.subscriber_heap ≡ m.subscriber_heap
    → m'.incoming ≡ m.incoming
    → Grows m m'
same-Grows m m' p q =
    rw (p, q)
      (record {
        next_le = omega arith;
        incoming_same = refl;
        follows = λ k s h f. f;
        queue_same = λ s h. refl;
        queue_le = λ s. omega arith;
      })

pub delete-Grows : (k : Bytes) (m : Messenger) → Grows m (delete_topic k m).0
unfolding delete_topic
delete-Grows k m = same-Grows m _ (ground arith) (ground arith)

pub stream_output-Grows :
    (k : Bytes) (body : Option (GoMap ℕ (Option SignedOutput))) (m : Messenger)
    → Grows m (handle_stream_dkg_output k body m).0
unfolding handle_stream_dkg_output
stream_output-Grows k body m = same-Grows m _ (ground arith) (ground arith)

pub stream_blame-Grows :
    (k : Bytes) (body : Option (Option BlameOutput)) (m : Messenger)
    → Grows m (handle_stream_dkg_blame k body m).0
unfolding handle_stream_dkg_blame
stream_blame-Grows k body m = same-Grows m _ (ground arith) (ground arith)

-- Publishing touches the incoming channel alone.
pub publish_subscribers :
    (k : Bytes) (body : Option Bytes) (m : Messenger)
    → (handle_publish k body m).0.subscriber_heap ≡ m.subscriber_heap
unfolding handle_publish publish
publish_subscribers k body m = ground arith
