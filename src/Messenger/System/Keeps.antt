-- ===== src/Messenger/System/Keeps.antt =====
-- What stays stored while the messenger goes on: no step but a stream for the same request touches the
-- results of a request.
use rockx_dkg_cli.Workers.{Runner}
use rockx_dkg_cli.Messenger.State.{Messenger, Worker, process_incoming, process_outgoing}
use rockx_dkg_cli.Dkg.{SignedOutput, BlameOutput}
use rockx_dkg_cli.Messenger.Topics.{
  delete_topic, handle_create_topic, TopicJson, Enlisted, created, enlist_all, default_of,
}
use rockx_dkg_cli.Messenger.Incoming.{Decoders}
use rockx_dkg_cli.Messenger.Publish.{
  handle_stream_dkg_blame, handle_publish, handle_stream_dkg_output, publish,
}
use rockx_dkg_cli.Messenger.Register.{
  handle_node_registration, register_body, register, register_new, register_existing,
  SubscriberJson,
}
use rockx_dkg_cli.Prelude.{
  ℕ, ◌≡◌, refl, ap, ◌∙◌, ◌≢◌, Option, none, some, [], arith, Bytes, bytes_eq_iff, GoMap, lookup,
  lookup-insert, bytes_key, nat_key,
}
use rockx_dkg_cli.Messenger.System.{
  System, Step, launch, answer, handle_create_topic, Decoders, handle_publish, delete_topic,
  handle_stream_dkg_output, handle_stream_dkg_blame, handle_node_registration, SignedOutput,
  BlameOutput, publishes, TopicJson, streams_output, streams_blame, Messenger, creates, deletes,
  registers, starts, Runner, receives, forwards, finishes, posts, requeues,
}

created-store :
    (n : Bytes) (m : Messenger) (e : Option Enlisted) → (created n m e).0.store ≡ m.store
unfolding created rockx_dkg_cli.Messenger.Topics.install
created-store n m none = refl
created-store n m (some e) = refl

create-store :
    (body : Option TopicJson) (m : Messenger) → (handle_create_topic body m).0.store ≡ m.store
unfolding handle_create_topic
create-store none m = refl
create-store (some json) m = created-store json.topic_name m (
    enlist_all (default_of m) json.topic_name m.topic_heap.next json.subscribers
      (m.subscriber_heap, []))

launch-store : (f : Worker) (w : System) → (launch f w).messenger.store ≡ w.messenger.store
unfolding launch
launch-store process_incoming w = refl
launch-store (process_outgoing s) w = refl

publish-store :
    (k : Bytes) (body : Option Bytes) (m : Messenger) → (handle_publish k body m).0.store ≡ m.store
unfolding handle_publish publish
publish-store k none m = refl
publish-store k (some b) m = ground arith

delete-store : (k : Bytes) (m : Messenger) → (delete_topic k m).0.store ≡ m.store
unfolding delete_topic
delete-store k m = ground arith

registration-store :
    (k : Bytes) (body : Option SubscriberJson) (m : Messenger) (r : Runner Worker)
    → (handle_node_registration k body (m, r)).0.0.store ≡ m.store
unfolding handle_node_registration register_body register register_new register_existing
registration-store k none m r = ground arith
registration-store k (some json) m r = ground arith

output-store :
    (id rid : Bytes) (body : Option (GoMap ℕ (Option SignedOutput))) (m : Messenger)
    → rid ≢ id
    → lookup id (handle_stream_dkg_output rid body m).0.store ≡ lookup id m.store
unfolding handle_stream_dkg_output
output-store id rid none m other = refl
output-store id rid (some o) m other =
    lookup-insert rid id _ m.store ∙ ground (arith, bytes_eq_iff rid id, other)

blame-store :
    (id rid : Bytes) (body : Option (Option BlameOutput)) (m : Messenger)
    → rid ≢ id
    → lookup id (handle_stream_dkg_blame rid body m).0.store ≡ lookup id m.store
unfolding handle_stream_dkg_blame
blame-store id rid none m other = refl
blame-store id rid (some b) m other =
    lookup-insert rid id _ m.store ∙ ground (arith, bytes_eq_iff rid id, other)

module _ (d : Decoders) (retry_key : Bytes → Bytes) (id : Bytes) where
  -- No stream for the request.
  abbrev pub Spares : {w w' : System} → Step d retry_key w w' → Type 0
  Spares (streams_output w rid body) = rid ≢ id
  Spares (streams_blame w rid body) = rid ≢ id
  Spares _ = Unit

  -- Steps in any order, none of which is a stream for the request.
  pub data Meanwhile (w : System) : System → Type 0 where
    at_once : Meanwhile w w
    and_then :
        {u v : System} → Meanwhile w u → (s : Step d retry_key u v) → Spares s → Meanwhile w v

  Step-store :
      {w w' : System} (s : Step d retry_key w w')
      → Spares s
      → lookup id w'.messenger.store ≡ lookup id w.messenger.store
  unfolding launch answer
  Step-store (publishes w k body room) h = ap (lookup id) (publish-store k body w.messenger)
  Step-store (creates w body) h = ap (lookup id) (create-store body w.messenger)
  Step-store (deletes w k) h = ap (lookup id) (delete-store k w.messenger)
  Step-store (streams_output w rid body) h = output-store id rid body w.messenger h
  Step-store (streams_blame w rid body) h = blame-store id rid body w.messenger h
  Step-store (registers w k body room) h =
      ap (lookup id) (registration-store k body w.messenger w.runner)
  Step-store (starts w j rest r p q) h =
      ap (lookup id) (launch-store j.fn (record w { runner = r }))
  Step-store (receives w msg rest p q g) h = refl
  Step-store (forwards w msg s ss p q) h = refl
  Step-store (finishes w msg p) h = refl
  Step-store (posts w s msg rest result p q) h = refl
  Step-store (requeues w s msg p q) h = refl

  pub Meanwhile-store :
      {w w' : System} → Meanwhile w w' → lookup id w'.messenger.store ≡ lookup id w.messenger.store
  Meanwhile-store at_once = refl
  Meanwhile-store (and_then m s h) = Step-store s h ∙ Meanwhile-store m
