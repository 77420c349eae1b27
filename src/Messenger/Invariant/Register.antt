-- ===== src/Messenger/Invariant/Register.antt =====
-- Registering a node keeps the state well-formed.
use rockx_dkg_cli.Prelude.{
  bytes_key, [], ◌∷◌, Bool-cases, inl, inr, ◌==◌, Option, none, ◌||◌, Option-cases, has, true,
  lookup-insert, insert-Distinct, bytes_eq_iff, ℕ, ◌≡◌, some, lookup, Bytes, arith,
}
use rockx_dkg_cli.Workers.{Runner}
use rockx_dkg_cli.Messenger.State.{Messenger, topic_at, Worker}
use rockx_dkg_cli.Messenger.Register.{
  register_body, register, register_new, handle_node_registration, SubscriberJson, is_empty,
  register_existing,
}
use rockx_dkg_cli.Messenger.Invariant.Defs.{IsConsistent}

existing-IsConsistent :
    (k n addr : Bytes) (t s : ℕ) (m : Messenger) (r : Runner Worker)
    → lookup k m.topics ≡ some t
    → lookup n (topic_at m t).subscribers ≡ some s
    → IsConsistent m
    → IsConsistent (register_existing t n addr s (m, r)).0
unfolding register_existing
existing-IsConsistent k n addr t s m r e f v = record {
  topic_named = λ j u g. ground (arith, v.topic_named j u g);
  subscriber_named = λ j i u w g h. ground (
    arith,
    v.subscriber_named j i u w g,
    lookup-insert n i s (topic_at m t).subscribers,
    bytes_eq_iff n i,
  );
  queued =
      λ w. elim (Bool-cases (s == w)) [ inl q ↦ rw q (v.queued s) | inr q ↦ rw q (v.queued w) ];
  topics_distinct = v.topics_distinct;
  subscribers_distinct = λ j u g. ground (
    arith,
    v.subscribers_distinct j u g,
    insert-Distinct n s (topic_at m t).subscribers (v.subscribers_distinct k t e),
  );
}

single_has : (k j : Bytes) (t : ℕ) → k ≡ j → has j ((k, t) ∷ []) ≡ true
unfolding lookup
single_has k j t p = ground (arith, bytes_eq_iff k j)

new-IsConsistent :
    (k n addr : Bytes) (t : ℕ) (m : Messenger) (r : Runner Worker)
    → lookup k m.topics ≡ some t
    → IsConsistent m
    → IsConsistent (register_new k t n addr (m, r)).0
unfolding register_new
new-IsConsistent k n addr t m r e v = record {
  topic_named = λ j u g. ground (arith, v.topic_named j u g);
  subscriber_named = λ j i u w g h. ground (
    arith,
    v.subscriber_named j i u w g,
    v.topic_named j u g,
    v.topic_named k t e,
    single_has k j t,
    lookup-insert n i m.subscriber_heap.next (topic_at m t).subscribers,
    bytes_eq_iff n i,
  );
  queued = λ w. elim (Bool-cases (m.subscriber_heap.next == w)) [
    | inl q ↦ rw q tt
    | inr q ↦ rw q (v.queued w)
  ];
  topics_distinct = v.topics_distinct;
  subscribers_distinct = λ j u g. ground (
    arith,
    v.subscribers_distinct j u g,
    insert-Distinct n m.subscriber_heap.next (topic_at m t).subscribers
        (v.subscribers_distinct k t e),
  );
}

pub register-IsConsistent :
    (k n addr : Bytes) (t : ℕ) (m : Messenger) (r : Runner Worker)
    → lookup k m.topics ≡ some t
    → IsConsistent m
    → IsConsistent (register k t n addr (m, r)).0
register-IsConsistent k n addr t m r e v =
    elim (Option-cases (lookup n (topic_at m t).subscribers)) [
      | inl f ↦ unfold register in rw (f, register) (new-IsConsistent k n addr t m r e v)
      | inr (s, f) ↦
          unfold register in rw (f, register) (existing-IsConsistent k n addr t s m r e f v)
    ]

body-IsConsistent :
    (k : Bytes) (t : ℕ) (body : Option SubscriberJson) (m : Messenger) (r : Runner Worker)
    → lookup k m.topics ≡ some t
    → IsConsistent m
    → IsConsistent (register_body k t body (m, r)).0.0
unfolding register_body
body-IsConsistent k t none m r e v = v
body-IsConsistent k t (some json) m r e v =
    elim (Bool-cases (is_empty json.name || is_empty json.srv_addr)) [
      | inl q ↦ rw q v
      | inr q ↦ rw q (register-IsConsistent k json.name json.srv_addr t m r e v)
    ]

pub registration-IsConsistent :
    (k : Bytes) (body : Option SubscriberJson) (m : Messenger) (r : Runner Worker)
    → IsConsistent m
    → IsConsistent (handle_node_registration k body (m, r)).0.0
registration-IsConsistent k body m r v = elim (Option-cases (lookup k m.topics)) [
  | inl f ↦ unfold handle_node_registration in rw (f, handle_node_registration) v
  | inr (t, f) ↦
      unfold handle_node_registration in
      rw (f, handle_node_registration) (body-IsConsistent k t body m r f v)
]
