-- ===== src/Messenger/Incoming.antt =====
-- ProcessIncomingMessageWorker: whom a message goes to.
use rockx_dkg_cli.Prelude.{
  bytes_key, ℕ, List, [], ◌∷◌, Option, none, some, GoMap, lookup, Bytes, bytes_eq, Heap,
  if◌then◌else◌, Bool, true, false, nat_key,
}
use rockx_dkg_cli.Go.Strconv.{itoa, to_int}
use rockx_dkg_cli.Messenger.State.{Message, Messenger, Topic, Subscriber, topic_at}

-- The loop over the subscribers of the topic, less the one that is named like the signer.
unfoldable pub recipients : Heap Subscriber → Bytes → GoMap Bytes ℕ → List ℕ
recipients h operator_id [] = []
recipients h operator_id ((n, s) ∷ subs) =
    let rest = recipients h operator_id subs in
    if bytes_eq operator_id (h.cell s).name then rest else s ∷ rest

-- The decoders of ssv-spec: SSVMessage, then SignedMessage (its signer and the data of its message,
-- none where the message is a nil pointer), then ProtocolMsg.
pub record Decoders : Type 0 where
  pub ssv_message : Bytes → Option Bytes
  pub signed_message : Bytes → Option (ℕ × Option Bytes)
  pub protocol_msg : Bytes → Option ℕ

-- What the worker makes of a payload. `nil_message` is a dereference of nil, which nothing recovers.
pub data Reading : Type 0 where
  unreadable nil_message : Reading
  signed_by : ℕ → Reading

abbrev pub signer : Reading → Option ℕ
signer unreadable = none
signer nil_message = none
signer (signed_by i) = some i

abbrev pub is_nil : Reading → Bool
is_nil unreadable = false
is_nil nil_message = true
is_nil (signed_by i) = false

module _ (d : Decoders) where
  unfoldable pub read_signed : Option (ℕ × Option Bytes) → Reading
  read_signed none = unreadable
  read_signed (some (i, none)) = nil_message
  read_signed (some (i, some content)) = elim (d.protocol_msg content) [
    | none ↦ unreadable
    | some round ↦ signed_by i
  ]

  -- The three decoders, one after the other.
  unfoldable pub reading : Bytes → Reading
  reading payload = elim (d.ssv_message payload) [
    | none ↦ unreadable
    | some content ↦ read_signed (d.signed_message content)
  ]

  -- The signer of a payload that decodes at every level.
  unfoldable pub signer_of : Bytes → Option ℕ
  signer_of payload = signer (reading payload)

  -- The worker, and with it the service, ends in a panic where the topic of the message exists and the
  -- message that was signed is nil.
  unfoldable pub panics_on : Messenger → Message → Bool
  panics_on m msg = elim (lookup msg.topic m.topics) [
    | none ↦ false
    | some t ↦ is_nil (reading msg.payload)
  ]

  unfoldable pub signed_targets : Messenger → Topic → Option ℕ → List ℕ
  signed_targets m t none = []
  signed_targets m t (some signer) =
      recipients m.subscriber_heap (itoa (to_int signer)) t.subscribers

  -- Whom one message of the channel is sent to, in order; nobody where the loop continues early.
  unfoldable pub targets : Messenger → Message → List ℕ
  targets m msg = elim (lookup msg.topic m.topics) [
    | none ↦ []
    | some t ↦ signed_targets m (topic_at m t) (signer_of msg.payload)
  ]
