-- ===== src/Messenger/Contract/Store.antt =====
-- The streamed results of a request, and publishing.
use rockx_dkg_cli.Prelude.{
  ℕ, ◌≡◌, inl, inr, Option, none, some, [], ◌∷◌, ◌++◌, arith, if◌then◌else◌, Option-cases, Bytes,
  bytes_eq, GoMap, lookup, lookup-insert, bytes_key,
}
use rockx_dkg_cli.Dkg.{SignedOutput, BlameOutput}
use rockx_dkg_cli.Messenger.State.{
  Messenger, respond, store_body, failure, published, topic_not_found, Reply,
}
use rockx_dkg_cli.Messenger.Publish.{
  publish, handle_publish, handle_get_data, handle_stream_dkg_output, handle_stream_dkg_blame,
}
use rockx_dkg_cli.Messenger.Invariant.Defs.{IsConsistent}

-- A result that was streamed is what GET /data gives for its request, in place of all that was kept
-- there, a blame output included; every other request's data stay.
pub get_data-stream_output :
    (id j : Bytes) (outputs : GoMap ℕ (Option SignedOutput)) (m : Messenger)
    → handle_get_data j (handle_stream_dkg_output id (some outputs) m).0 ≡ (
        if bytes_eq id j
        then respond 200 (store_body (record { dkg_outputs = outputs; blame_output = none }))
        else handle_get_data j m)
unfolding handle_get_data handle_stream_dkg_output
get_data-stream_output id j outputs m =
    ground
      (arith, lookup-insert id j (record { dkg_outputs = outputs; blame_output = none }) m.store)

-- A blame output that was streamed is what GET /data gives for its request, in place of all that was kept
-- there, earlier results included; every other request's data stay.
pub get_data-stream_blame :
    (id j : Bytes) (blame : Option BlameOutput) (m : Messenger)
    → handle_get_data j (handle_stream_dkg_blame id (some blame) m).0 ≡ (
        if bytes_eq id j
        then respond 200 (store_body (record { dkg_outputs = []; blame_output = blame }))
        else handle_get_data j m)
unfolding handle_get_data handle_stream_dkg_blame
get_data-stream_blame id j blame m =
    ground (arith, lookup-insert id j (record { dkg_outputs = []; blame_output = blame }) m.store)

abbrev pub publish_answer : Bytes → Bytes → Messenger → Option ℕ → Messenger × Reply
publish_answer k payload m none = (m, respond 500 (failure (topic_not_found k)))
publish_answer k payload m (some t) = (
  record m { incoming = m.incoming ++ record { topic = k; payload = payload } ∷ [] },
  respond 200 (published k),
)

-- In a well-formed state, publishing to a known topic puts one message, with the topic that was asked
-- for, behind those that wait; to an unknown topic it answers 500 and changes nothing.
pub handle_publish_lem :
    (k payload : Bytes) (m : Messenger)
    → IsConsistent m
    → handle_publish k (some payload) m ≡ publish_answer k payload m (lookup k m.topics)
unfolding handle_publish publish
handle_publish_lem k payload m v = elim (Option-cases (lookup k m.topics)) [
  | inl e ↦ rw (e, handle_publish, publish)
  | inr (t, e) ↦ rw (e, handle_publish, publish, (v.topic_named k t e).0)
]
