-- ===== src/Messenger/Invariant/Topics.antt =====
-- Creating a topic: the loop over the listed names, and the state after it.
use rockx_dkg_cli.Prelude.{
  insert, has-insert, Option-cases, List, [], ◌∷◌, ◌<◌, true, bytes_key, ℕ, ◌≡◌, refl, inl, inr,
  some, lookup, insert-Distinct, has, Distinct, Bytes, ◌==◌, Heap, Bool-cases, arith, All,
  bytes_eq_iff, GoMap, lookup-insert, Option, none, subst, ==_iff,
}
use rockx_dkg_cli.Messenger.State.{
  Messenger, subscriber_at, Topic, Subscriber, Message, default_topic,
}
use rockx_dkg_cli.Messenger.Topics.{
  created, subscribe, enlist_one, enlist, install, Enlisted, enlist_found, default_of, TopicJson,
  handle_create_topic, enlist_all,
}
use rockx_dkg_cli.Messenger.Invariant.Defs.{IsConsistent, Follows}

-- What the loop leaves alone in a subscriber, and what it adds.
pub record Follower (a b : Subscriber) : Type 0 where
  pub name : b.name ≡ a.name
  pub srv_addr : b.srv_addr ≡ a.srv_addr
  pub outgoing : b.outgoing ≡ a.outgoing
  pub retry_data : b.retry_data ≡ a.retry_data
  pub more : (k : Bytes) → has k a.subscribes_to ≡ true → has k b.subscribes_to ≡ true

-- The state of the loop against the heap that it started from.
pub record Enlists (d : Topic) (topic : Bytes) (h₀ : Heap Subscriber) (e : Enlisted) : Type 0 where
  pub next : e.0.next ≡ h₀.next
  pub kept : (s : ℕ) → Follower (h₀.cell s) (e.0.cell s)
  pub listed :
      (n : Bytes) (s : ℕ)
      → lookup n e.1 ≡ some s
      → (lookup n d.subscribers ≡ some s) × (has topic (e.0.cell s).subscribes_to ≡ true)
  pub distinct : Distinct e.1

Follower-refl : (a : Subscriber) → Follower a a
Follower-refl a = record {
  name = refl;
  srv_addr = refl;
  outgoing = refl;
  retry_data = refl;
  more = λ k h. h;
}

subscribed_has : (topic : Bytes) (t : ℕ) (m : GoMap Bytes ℕ) → has topic (insert topic t m) ≡ true
subscribed_has topic t m = ground (arith, has-insert topic topic t m, bytes_eq_iff topic topic)

subscribe-Follower :
    (topic : Bytes) (t : ℕ) (a b : Subscriber) → Follower a b → Follower a (subscribe topic t b)
subscribe-Follower topic t a b f = record {
  name = f.name;
  srv_addr = f.srv_addr;
  outgoing = f.outgoing;
  retry_data = f.retry_data;
  more = λ k h. ground (arith, has-insert topic k t b.subscribes_to, f.more k);
}

module _ (d : Topic) (topic : Bytes) (t : ℕ) (h₀ : Heap Subscriber) where
  found-Enlists :
      (sub : Bytes) (s : ℕ) (e : Enlisted)
      → lookup sub d.subscribers ≡ some s
      → Enlists d topic h₀ e
      → Enlists d topic h₀ (enlist_found topic t sub s e)
  unfolding enlist_found
  found-Enlists sub s (h, subs) f v = record {
    next = v.next;
    kept = λ w. elim (Bool-cases (s == w)) [
      | inl q ↦ rw q (
          subst (λ z. Follower (h₀.cell z) (subscribe topic t (h.cell s))) ((==_iff s w).0 q)
            (subscribe-Follower topic t (h₀.cell s) (h.cell s) (v.kept s)))
      | inr q ↦ rw q (v.kept w)
    ];
    listed = λ n w g. ground (
      arith,
      v.listed n w,
      lookup-insert sub n s subs,
      bytes_eq_iff sub n,
      subscribed_has topic t (h.cell s).subscribes_to,
    );
    distinct = insert-Distinct sub s subs v.distinct;
  }

  one-Enlists :
      (sub : Bytes) (e : Enlisted)
      → Enlists d topic h₀ e
      → Enlists d topic h₀ (enlist_one d topic t sub e)
  one-Enlists sub e v = elim (Option-cases (lookup sub d.subscribers)) [
    | inl f ↦ unfold enlist_one in rw (f, enlist_one) v
    | inr (s, f) ↦ unfold enlist_one in rw (f, enlist_one) (found-Enlists sub s e f v)
  ]

  pub enlist-Enlists :
      (subs : List Bytes) (e : Enlisted)
      → Enlists d topic h₀ e
      → Enlists d topic h₀ (enlist d topic t subs e)
  unfolding enlist
  enlist-Enlists [] e v = v
  enlist-Enlists (sub ∷ subs) e v = enlist-Enlists subs _ (one-Enlists sub e v)

pub start-Enlists : (d : Topic) (topic : Bytes) (h : Heap Subscriber) → Enlists d topic h (h, [])
unfolding lookup
start-Enlists d topic h = record {
  next = refl;
  kept = λ s. Follower-refl (h.cell s);
  listed = λ n s g. cc;
  distinct = tt;
}

All-Follows :
    (a b : Subscriber) (msgs : List Message)
    → ((k : Bytes) → has k a.subscribes_to ≡ true → has k b.subscribes_to ≡ true)
    → All (Follows a) msgs
    → All (Follows b) msgs
All-Follows a b [] h f = tt
All-Follows a b (m ∷ ms) h f = (h m.topic f.0, All-Follows a b ms h f.1)

Follower-queued :
    (a b : Subscriber) → Follower a b → All (Follows a) a.outgoing → All (Follows b) b.outgoing
Follower-queued a b f h = rw (f.outgoing) (All-Follows a b a.outgoing f.more h)

-- The names that a loop may list are those of a topic of the state.
install-IsConsistent :
    (d : Topic) (k : Bytes) (m : Messenger) (e : Enlisted)
    → ((n : Bytes) (s : ℕ)
        → lookup n d.subscribers ≡ some s
        → ((subscriber_at m s).name ≡ n) × (s < m.subscriber_heap.next))
    → Enlists d k m.subscriber_heap e
    → IsConsistent m
    → IsConsistent (install k m e).0
unfolding install
install-IsConsistent d k m (h, subs) known e v = record {
  topic_named = λ j u g.
      ground
        (arith, v.topic_named j u, lookup-insert k j m.topic_heap.next m.topics, bytes_eq_iff k j);
  subscriber_named = λ j n u s g f. ground (
    arith,
    lookup-insert k j m.topic_heap.next m.topics,
    bytes_eq_iff k j,
    e.listed n s,
    known n s,
    (e.kept s).name,
    (e.kept s).more j,
    e.next,
    v.topic_named j u,
    v.subscriber_named j n u s,
  );
  queued = λ s. Follower-queued (m.subscriber_heap.cell s) (h.cell s) (e.kept s) (v.queued s);
  topics_distinct = insert-Distinct k m.topic_heap.next m.topics v.topics_distinct;
  subscribers_distinct = λ j u g. ground (
    arith,
    v.topic_named j u,
    v.subscribers_distinct j u,
    lookup-insert k j m.topic_heap.next m.topics,
    e.distinct,
  );
}

default_known :
    (m : Messenger) (d : Topic)
    → IsConsistent m
    → default_of m ≡ some d
    → (n : Bytes) (s : ℕ) → lookup n d.subscribers ≡ some s
    → ((subscriber_at m s).name ≡ n) × (s < m.subscriber_heap.next)
default_known m d v e n s f = elim (Option-cases (lookup default_topic m.topics)) [
  | inl g ↦ unfold default_of in ground arith
  | inr (t, g) ↦ unfold default_of in ground (arith, v.subscriber_named default_topic n t s)
]

abbrev nameless : Topic
nameless = record { name = []; subscribers = [] }

created-IsConsistent :
    (k : Bytes) (m : Messenger) (o : Option Topic) (subs : List Bytes)
    → default_of m ≡ o
    → IsConsistent m
    → IsConsistent (created k m (enlist_all o k m.topic_heap.next subs (m.subscriber_heap, []))).0
unfolding created enlist_all
created-IsConsistent k m none [] e v =
    install-IsConsistent nameless k m (m.subscriber_heap, []) (unfold lookup in λ n s f. cc)
      (start-Enlists nameless k m.subscriber_heap) v
created-IsConsistent k m none (sub ∷ subs) e v = v
created-IsConsistent k m (some d) subs e v =
    install-IsConsistent d k m _ (default_known m d v e)
      (enlist-Enlists d k m.topic_heap.next m.subscriber_heap subs _
        (start-Enlists d k m.subscriber_heap))
      v

-- Whatever the body of the request, the state stays well-formed.
pub create-IsConsistent :
    (body : Option TopicJson) (m : Messenger)
    → IsConsistent m
    → IsConsistent (handle_create_topic body m).0
unfolding handle_create_topic
create-IsConsistent none m v = v
create-IsConsistent (some json) m v =
    created-IsConsistent json.topic_name m (default_of m) json.subscribers refl v
