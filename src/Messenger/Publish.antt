-- ===== src/Messenger/Publish.antt =====
-- Publish, and the handlers of dkg_network_handlers.go.
use rockx_dkg_cli.Prelude.{
  bytes_key, ℕ, [], ◌∷◌, ◌++◌, Option, none, some, GoMap, lookup, insert, Bytes,
}
use rockx_dkg_cli.Dkg.{SignedOutput, BlameOutput}
use rockx_dkg_cli.Messenger.State.{
  Messenger, Error, topic_not_found, unreadable_body, unparsable_body, Reply, respond, empty,
  failure, published, store_body, topic_at,
}

-- The send of `Publish` goes through when the channel has room: a guard of the caller.
unfoldable pub publish : Bytes → Bytes → Messenger → Messenger × Option Error
publish topic_name payload m = elim (lookup topic_name m.topics) [
  | none ↦ (m, some (topic_not_found topic_name))
  | some t ↦ (
    record m {
      incoming = m.incoming ++ record { topic = (topic_at m t).name; payload = payload } ∷ [];
    },
    none,
  )
]

published_reply : Bytes → Option Error → Reply
published_reply topic_name none = respond 200 (published topic_name)
published_reply topic_name (some e) = respond 500 (failure e)

-- The body is `none` when reading it fails.
unfoldable pub handle_publish : Bytes → Option Bytes → Messenger → Messenger × Reply
unfolding published_reply
handle_publish topic_name none m = (m, respond 400 (failure unreadable_body))
handle_publish topic_name (some payload) m =
    let (m', e) = publish topic_name payload m in (m', published_reply topic_name e)

unfoldable pub handle_get_data : Bytes → Messenger → Reply
handle_get_data request_id m = elim (lookup request_id m.store) [
  | none ↦ respond 404 empty
  | some d ↦ respond 200 (store_body d)
]

-- The bodies are what json.Unmarshal makes of them, `none` on its error.
unfoldable pub handle_stream_dkg_output :
    Bytes → Option (GoMap ℕ (Option SignedOutput)) → Messenger → Messenger × Reply
handle_stream_dkg_output request_id none m = (m, respond 400 (failure unparsable_body))
handle_stream_dkg_output request_id (some outputs) m = (
  record m {
    store = insert request_id (record { dkg_outputs = outputs; blame_output = none }) m.store;
  },
  respond 200 empty,
)

-- The body `null` leaves a nil blame output.
unfoldable pub handle_stream_dkg_blame :
    Bytes → Option (Option BlameOutput) → Messenger → Messenger × Reply
handle_stream_dkg_blame request_id none m = (m, respond 400 (failure unparsable_body))
handle_stream_dkg_blame request_id (some blame) m = (
  record m {
    store = insert request_id (record { dkg_outputs = []; blame_output = blame }) m.store;
  },
  respond 200 empty,
)
