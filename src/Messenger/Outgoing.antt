-- ===== src/Messenger/Outgoing.antt =====
-- ProcessOutgoingMessageWorker: one round of a subscriber's worker.
pub mod Retries
use rockx_dkg_cli.Prelude.{
  bytes_key, ℕ, ◌+◌, Bool, true, false, Option, none, some, lookup, insert, Bytes, leb, ◌==◌,
  if◌then◌else◌,
}
use rockx_dkg_cli.Messenger.State.{Message, Subscriber}

abbrev pub max_retries_allowed : ℕ
max_retries_allowed = 10

-- What http.Post comes back with: an error, or a status.
pub data PostResult : Type 0 where
  post_failed : PostResult
  answered : ℕ → PostResult

-- How the accounting of a message goes: `none` where it is dropped.
unfoldable pub account : Option ℕ → Option ℕ
account none = some 0
account (some n) = if leb max_retries_allowed n then none else some (n + 1)

-- What a round has done: the subscriber after it, whether it made the request, and whether it puts
-- the message back on the channel.
pub record Round : Type 0 where
  pub subscriber : Subscriber
  pub posted : Bool
  pub again : Bool

abbrev pub dropped : Subscriber → Round
dropped s = record { subscriber = s; posted = false; again = false }

unfoldable pub after_post : Subscriber → PostResult → Round
after_post s post_failed = record { subscriber = s; posted = true; again = false }
after_post s (answered code) = record {
  subscriber = s;
  posted = true;
  again = if code == 200 then false else true;
}

unfoldable pub deliver : Subscriber → Message → PostResult → Round
deliver s msg result = elim (lookup msg.topic s.subscribes_to) [
  | none ↦ dropped s
  | some t ↦ after_post s result
]

-- `retry_key` is the base64 text of the SHA-256 of a message; `result` answers the one request of
-- the round. The message is off the channel already. The pause before a retry is not modelled.
unfoldable pub round : (retry_key : Bytes → Bytes) → Subscriber → Message → PostResult → Round
round retry_key s msg result =
    let k : Bytes = retry_key msg.payload in
    elim (account (lookup k s.retry_data)) [
      | none ↦ dropped s
      | some n ↦ deliver (record s { retry_data = insert k n s.retry_data }) msg result
    ]
