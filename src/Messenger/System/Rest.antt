-- ===== src/Messenger/System/Rest.antt =====
-- The work that is left to the messenger when no request comes in.
pub mod Weights
pub mod Moves
pub mod Fan
pub mod Falls
pub mod Ends
pub mod Done
use rockx_dkg_cli.Messenger.Outgoing.Retries.{budget}
use rockx_dkg_cli.Messenger.Incoming.{Decoders}
use rockx_dkg_cli.Messenger.System.{
  System, Sender, Router, fanning, Step, requeueing, publishes, creates, deletes, streams_output,
  streams_blame, registers, starts, receives, forwards, finishes, posts, requeues,
}
use rockx_dkg_cli.Messenger.State.{Messenger, Message, Subscriber, subscriber_at, topic_at}
use rockx_dkg_cli.Prelude.{
  ℕ, zero, suc, ◌+◌, ◌*◌, ◌≡◌, Bool, true, false, List, [], ◌∷◌, length, Bytes, GoMap, lookup,
  sum_below, bytes_key, nat_key,
}

abbrev pub spare : (retry_key : Bytes → Bytes) → GoMap Bytes ℕ → Message → ℕ
spare retry_key counts msg = budget (lookup (retry_key msg.payload) counts)

module _ (retry_key : Bytes → Bytes) where
  -- A message on a channel counts for its receipt, and twice for each request that it may still make.
  unfoldable pub queue_work : GoMap Bytes ℕ → List Message → ℕ
  queue_work counts [] = 0
  queue_work counts (msg ∷ msgs) = 2 * spare retry_key counts msg + 3 + queue_work counts msgs

  -- A message that waits to be put back counts for that too.
  unfoldable pub sender_work : GoMap Bytes ℕ → Sender → ℕ
  sender_work counts Sender.off = 0
  sender_work counts Sender.waiting = 0
  sender_work counts (requeueing msg) = 2 * spare retry_key counts msg + 4

  abbrev pub subscriber_work : Subscriber → Sender → ℕ
  subscriber_work sub c = queue_work sub.retry_data sub.outgoing + sender_work sub.retry_data c

  abbrev pub work_at : System → ℕ → ℕ
  work_at w s = subscriber_work (subscriber_at w.messenger s) (w.sender s)

-- A message costs a subscriber 25 steps at most; sending it on is one more.
unfoldable pub router_work : Router → ℕ
router_work Router.off = 0
router_work Router.waiting = 0
router_work (fanning msg ss) = 26 * length ss + 1

-- The subscribers of all topics, counted once for each topic.
unfoldable pub width : (ℕ → ℕ) → GoMap Bytes ℕ → ℕ
width size [] = 0
width size ((k, t) ∷ topics) = size t + width size topics

abbrev pub topic_sizes : Messenger → ℕ → ℕ
topic_sizes m t = length (topic_at m t).subscribers

abbrev pub incoming_work : Messenger → ℕ
incoming_work m = (26 * width (topic_sizes m) m.topics + 2) * length m.incoming

-- Every step of a worker or of the runner takes at least one from this.
unfoldable pub work_left : (retry_key : Bytes → Bytes) → System → ℕ
work_left retry_key w =
    sum_below w.messenger.subscriber_heap.next (work_at retry_key w)
    + router_work w.router
    + incoming_work w.messenger
    + length w.runner.incoming_jobs

module _ (d : Decoders) (retry_key : Bytes → Bytes) where
  -- The steps that the messenger makes by itself: those of its workers and of the runner.
  abbrev pub by_itself : {w u : System} → Step d retry_key w u → Bool
  by_itself (publishes w topic body room) = false
  by_itself (creates w body) = false
  by_itself (deletes w topic) = false
  by_itself (streams_output w id body) = false
  by_itself (streams_blame w id body) = false
  by_itself (registers w topic body room) = false
  by_itself (starts w j rest r e f) = true
  by_itself (receives w msg rest e f g) = true
  by_itself (forwards w msg s ss e room) = true
  by_itself (finishes w msg e) = true
  by_itself (posts w s msg rest result e f) = true
  by_itself (requeues w s msg e room) = true

  -- A number of such steps, one after the other.
  pub data Alone (w : System) : ℕ → System → Type 0 where
    still : Alone w zero w
    goes_on :
        {n : ℕ} {u v : System}
        → Alone w n u
        → (st : Step d retry_key u v) → by_itself st ≡ true
        → Alone w (suc n) v
