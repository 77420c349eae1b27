-- ===== src/Messenger/System/Rest/Done.antt =====
-- What is left where the messenger rests.
use rockx_dkg_cli.Messenger.System.Started.Steps.{Reach-IsOrderly}
use rockx_dkg_cli.Messenger.System.Started.{IsOrderly, RouterIn, HasJob}
use rockx_dkg_cli.Messenger.Outgoing.{post_failed}
use rockx_dkg_cli.Messenger.System.Rest.{by_itself}
use rockx_dkg_cli.Messenger.State.{Message, Worker}
use rockx_dkg_cli.Workers.{Runner, Job, run_once}
use rockx_dkg_cli.Messenger.Incoming.{Decoders, panics_on}
use rockx_dkg_cli.Prelude.{
  ℕ, ◌<◌, ◌≡◌, refl, ◌≢◌, false, some, List, [], ◌∷◌, arith, length, Bytes, inl, inr, Option-cases,
  subst, true, Bool-cases,
}
use rockx_dkg_cli.Messenger.System.{
  starts, receives, forwards, finishes, posts, requeues, System, queue_of, Step, Sender,
  channel_room, Router, requeueing, fanning, Reach, boot,
}

-- Where no job is left, each worker has been started.
pub router_on : (w : System) → IsOrderly w → w.runner.incoming_jobs ≡ [] → w.router ≢ Router.off
router_on w o none_left = elim (subst (RouterIn w.router) none_left o.router_in) [
  | inl (off, line) ↦ absurd line
  | inr (on, others) ↦ on
]

pub sender_on :
    (w : System)
    → IsOrderly w
    → w.runner.incoming_jobs ≡ []
    → (s : ℕ) → s < w.messenger.subscriber_heap.next
    → w.sender s ≢ Sender.off
sender_on w o none_left s exists = elim (o.senders_in s exists) [
  | inl on ↦ on
  | inr job ↦ absurd (subst (HasJob s) none_left job)
]

module _ (d : Decoders) (retry_key : Bytes → Bytes) where
  -- The worker of the incoming channel is about to panic: its next message has a nil one in it.
  abbrev pub IsPanicking : System → Type 0
  IsPanicking w =
      (w.router ≡ Router.waiting)
      × ((msg : Message) × (rest : List Message) × (w.messenger.incoming ≡ msg ∷ rest)
          × (panics_on d w.messenger msg ≡ true))

  -- No worker can move, not into a panic either, and the runner cannot start a job.
  abbrev pub AtRest : System → Type 0
  AtRest w =
      ((u : System) (st : Step d retry_key w u) → by_itself d retry_key st ≡ false)
      × ¬ IsPanicking w

  run_once-some :
      (r : Runner Worker) (j : Job Worker) (rest : List (Job Worker))
      → r.incoming_jobs ≡ j ∷ rest
      → (r' : Runner Worker) × (run_once r ≡ some r')
  unfolding run_once
  run_once-some r j rest e = elim (Option-cases (run_once r)) [
    | inr found ↦ found
    | inl f ↦ let started = rw (run_once, e) at f in ground (arith, started)
  ]

  pub no_jobs_left :
      (w : System)
      → AtRest w
      → (jobs : List (Job Worker)) → w.runner.incoming_jobs ≡ jobs
      → jobs ≡ []
  no_jobs_left w rests [] e = refl
  no_jobs_left w rests (j ∷ rest) e =
      let (r, f) = run_once-some w.runner j rest e in
      ground (arith, rests.0 _ (starts w j rest r e f))

  no_message_left :
      (w : System)
      → AtRest w
      → (msgs : List Message) → w.router ≡ Router.waiting
      → w.messenger.incoming ≡ msgs
      → msgs ≡ []
  no_message_left w rests [] e f = refl
  no_message_left w rests (msg ∷ rest) e f = elim (Bool-cases (panics_on d w.messenger msg)) [
    | inl bad ↦ absurd (rests.1 (e, (msg, rest, f, bad)))
    | inr good ↦ ground (arith, rests.0 _ (receives w msg rest e f good))
  ]

  pub router_rests :
      (w : System)
      → AtRest w
      → ((s : ℕ) → length (queue_of w s) < channel_room)
      → (r : Router) → w.router ≡ r
      → r ≢ Router.off
      → (r ≡ Router.waiting) × (w.messenger.incoming ≡ [])
  router_rests w rests room Router.off e on = absurd (on refl)
  router_rests w rests room Router.waiting e on =
      (refl, no_message_left w rests w.messenger.incoming e refl)
  router_rests w rests room (fanning msg []) e on = ground (arith, rests.0 _ (finishes w msg e))
  router_rests w rests room (fanning msg (s ∷ ss)) e on =
      ground (arith, rests.0 _ (forwards w msg s ss e (room s)))

  no_post_left :
      (w : System)
      → AtRest w
      → (s : ℕ) (msgs : List Message) → w.sender s ≡ Sender.waiting
      → queue_of w s ≡ msgs
      → msgs ≡ []
  no_post_left w rests s [] e f = refl
  no_post_left w rests s (msg ∷ rest) e f =
      ground (arith, rests.0 _ (posts w s msg rest post_failed e f))

  pub sender_rests :
      (w : System)
      → AtRest w
      → ((s : ℕ) → length (queue_of w s) < channel_room)
      → (s : ℕ) (c : Sender) → w.sender s ≡ c
      → c ≢ Sender.off
      → (c ≡ Sender.waiting) × (queue_of w s ≡ [])
  sender_rests w rests room s Sender.off e on = absurd (on refl)
  sender_rests w rests room s Sender.waiting e on =
      (refl, no_post_left w rests s (queue_of w s) e refl)
  sender_rests w rests room s (requeueing msg) e on =
      ground (arith, rests.0 _ (requeues w s msg e (room s)))

  -- Where the messenger rests in a state that it has reached from its start, and no subscriber's channel
  -- is full, all its work is done: no job is left, the worker of the incoming channel and those of all
  -- subscribers have been started, and each waits at its receive with nothing on its channel. So a full
  -- channel is the only thing that can stop a worker with a message in hand. A worker that is about to
  -- panic does not rest.
  pub rest_is_done :
      (w : System)
      → Reach d retry_key boot w
      → AtRest w
      → ((j : ℕ) → length (queue_of w j) < channel_room)
      → (w.runner.incoming_jobs ≡ [])
        × ((w.router ≡ Router.waiting) × (w.messenger.incoming ≡ []))
        × ((s : ℕ)
            → s < w.messenger.subscriber_heap.next
            → (w.sender s ≡ Sender.waiting) × (queue_of w s ≡ []))
  rest_is_done w reach rests room =
      let o = Reach-IsOrderly d retry_key reach in
      let none_left = no_jobs_left w rests w.runner.incoming_jobs refl in
      (
        none_left,
        router_rests w rests room w.router refl (router_on w o none_left),
        λ s exists.
            sender_rests w rests room s (w.sender s) refl (sender_on w o none_left s exists),
      )
