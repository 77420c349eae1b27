-- ===== src/Messenger/Register.antt =====
-- HandleNodeRegistration: register_node.go.
use rockx_dkg_cli.Prelude.{
  bytes_key, ℕ, [], ◌∷◌, ◌++◌, ◌||◌, Bool, true, false, Option, none, some, lookup, insert, Bytes,
  codes, Heap, put, alloc, if◌then◌else◌,
}
use rockx_dkg_cli.Workers.{Runner, add_job}
use rockx_dkg_cli.Messenger.State.{
  Messenger, Topic, topic_not_found, unparsable_body, empty_name_or_addr, Reply, respond, empty,
  failure, topic_at, Worker, process_outgoing,
}

-- The JSON of a subscriber: its other fields are not read from a body.
pub record SubscriberJson : Type 0 where
  pub name : Bytes
  pub srv_addr : Bytes

abbrev pub Registered : Type 0
Registered = Messenger × Runner Worker

unfoldable pub is_empty : Bytes → Bool
is_empty [] = true
is_empty (c ∷ s) = false

-- m.Topics[subscribesTo].Subscribers[name] = s, where the topic is the object `t`
abbrev set_subscriber : ℕ → Bytes → ℕ → Heap Topic → Heap Topic
set_subscriber t name s h =
    put h t (record (h.cell t) { subscribers = insert name s (h.cell t).subscribers })

-- The name is known: the address of its subscriber is replaced.
unfoldable pub register_existing : ℕ → Bytes → Bytes → ℕ → Registered → Registered
register_existing t name addr s (m, r) = (
  record m {
    topic_heap = set_subscriber t name s m.topic_heap;
    subscriber_heap =
        put m.subscriber_heap s (record (m.subscriber_heap.cell s) { srv_addr = addr });
  },
  r,
)

-- A new subscriber, with its worker.
unfoldable pub register_new : Bytes → ℕ → Bytes → Bytes → Registered → Registered
register_new topic t name addr (m, r) =
    let s : ℕ = m.subscriber_heap.next in
    (
      record m {
        topic_heap = set_subscriber t name s m.topic_heap;
        subscriber_heap = alloc m.subscriber_heap (record {
          name = name;
          srv_addr = addr;
          subscribes_to = (topic, t) ∷ [];
          outgoing = [];
          retry_data = [];
        });
      },
      add_job (record { id = codes "SUBSCRIBER__" ++ name; fn = process_outgoing s }) r,
    )

unfoldable pub register : Bytes → ℕ → Bytes → Bytes → Registered → Registered
register topic t name addr (m, r) = elim (lookup name (topic_at m t).subscribers) [
  | none ↦ register_new topic t name addr (m, r)
  | some s ↦ register_existing t name addr s (m, r)
]

-- The body is what gin makes of it, `none` on its error.
unfoldable pub register_body : Bytes → ℕ → Option SubscriberJson → Registered → Registered × Reply
register_body topic t none mr = (mr, respond 400 (failure unparsable_body))
register_body topic t (some json) mr =
    if is_empty json.name || is_empty json.srv_addr
    then (mr, respond 400 (failure empty_name_or_addr))
    else (register topic t json.name json.srv_addr mr, respond 200 empty)

unfoldable pub handle_node_registration :
    Bytes → Option SubscriberJson → Registered → Registered × Reply
unfolding register_body
handle_node_registration subscribes_to body (m, r) = elim (lookup subscribes_to m.topics) [
  | none ↦ ((m, r), respond 404 (failure (topic_not_found subscribes_to)))
  | some t ↦ register_body subscribes_to t body (m, r)
]
