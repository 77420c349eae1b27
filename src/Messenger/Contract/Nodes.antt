-- ===== src/Messenger/Contract/Nodes.antt =====
-- The registration of a node.
use rockx_dkg_cli.Prelude.{
  ℕ, ◌≡◌, refl, ◌||◌, Option, none, some, [], ◌∷◌, ◌++◌, arith, if◌then◌else◌, Bytes, codes, lookup,
  bytes_key, bytes_eq_iff, lookup-insert, ◌==◌, nat_key,
}
use rockx_dkg_cli.Workers.{Runner, add_job}
use rockx_dkg_cli.Messenger.State.{
  Messenger, Reply, respond, Worker, process_outgoing, topic_at, subscriber_at,
}
use rockx_dkg_cli.Messenger.Register.{
  SubscriberJson, is_empty, register, register_new, register_existing, register_body,
  handle_node_registration,
}

-- The status of a registration, from the request and the state alone.
abbrev pub expected_status : Option ℕ → Option SubscriberJson → ℕ
expected_status none body = 404
expected_status (some t) none = 400
expected_status (some t) (some json) =
    if is_empty json.name || is_empty json.srv_addr then 400 else 200

abbrev pub status_of : Reply → ℕ
status_of (respond code body) = code
status_of Reply.panics = 0

-- Every branch: an unknown topic is 404, a bad body or an empty field is 400, and a request that is
-- answered with anything but 200 changes neither the messenger nor the runner.
pub registration_status :
    (k : Bytes) (body : Option SubscriberJson) (m : Messenger) (r : Runner Worker)
    → let res = handle_node_registration k body (m, r) in
      (status_of res.1 ≡ expected_status (lookup k m.topics) body)
      × (res.0 ≡ (if status_of res.1 == 200 then res.0 else (m, r)))
unfolding handle_node_registration register_body
registration_status k none m r = ground arith
registration_status k (some json) m r = ground arith

-- A node that registers again on a topic keeps its one subscriber: the address changes for every topic
-- that holds that subscriber, its queue and retry counts stay, no other subscriber changes, and no
-- second worker is started. The topics keep their names and their subscribers, no object is new, and
-- the rest of the messenger, with the names of its topics, its incoming channel and its results, is as
-- it was.
pub register_again :
    (k n addr : Bytes) (t s : ℕ) (m : Messenger) (r : Runner Worker)
    → lookup n (topic_at m t).subscribers ≡ some s
    → let res = register k t n addr (m, r) in
      (res.1 ≡ r)
      × ((j : ℕ)
          → subscriber_at res.0 j ≡ (
              if s == j then record (subscriber_at m s) { srv_addr = addr } else subscriber_at m j))
      × ((u : ℕ) (i : Bytes)
          → lookup i (topic_at res.0 u).subscribers ≡ lookup i (topic_at m u).subscribers)
      × ((u : ℕ) → (topic_at res.0 u).name ≡ (topic_at m u).name)
      × (res.0.subscriber_heap.next ≡ m.subscriber_heap.next)
      × (res.0.topic_heap.next ≡ m.topic_heap.next)
      × (record res.0 { subscriber_heap = m.subscriber_heap; topic_heap = m.topic_heap } ≡ m)
unfolding register register_existing
register_again k n addr t s m r e =
    rw (e, register)
      (
        refl,
        λ j. ground arith,
        λ u i. ground (arith, lookup-insert n i s (topic_at m t).subscribers, bytes_eq_iff n i),
        λ u. ground arith,
        refl,
        refl,
        refl,
      )

-- A node that is new to a topic gets a subscriber of its own, under its name, with an empty queue and
-- no retries, that follows the topic, and one job that runs its worker.
pub register_first :
    (k n addr : Bytes) (t : ℕ) (m : Messenger) (r : Runner Worker)
    → lookup n (topic_at m t).subscribers ≡ none
    → let res = register k t n addr (m, r) in
      let s = m.subscriber_heap.next in
      (lookup n (topic_at res.0 t).subscribers ≡ some s)
      × ((j : ℕ)
          → subscriber_at res.0 j ≡ (
              if s == j
              then record {
                name = n;
                srv_addr = addr;
                subscribes_to = (k, t) ∷ [];
                outgoing = [];
                retry_data = [];
              }
              else subscriber_at m j))
      × (res.1.incoming_jobs
          ≡ r.incoming_jobs
            ++ record { id = codes "SUBSCRIBER__" ++ n; fn = process_outgoing s } ∷ [])
unfolding register register_new add_job
register_first k n addr t m r e =
    rw (e, register)
      (
        ground (
          arith,
          lookup-insert n n m.subscriber_heap.next (topic_at m t).subscribers,
          bytes_eq_iff n n,
        ),
        λ j. ground arith,
        refl,
      )
