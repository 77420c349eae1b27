-- ===== src/Messenger/System/Rest/Falls.antt =====
-- Each move of a worker or of the runner leaves less to do.
use rockx_dkg_cli.Messenger.System.Rest.Fan.{length-targets}
use rockx_dkg_cli.Messenger.System.Rest.Weights.{spare-bound, queue_work-append}
use rockx_dkg_cli.Messenger.System.Rest.Moves.{work-grows, work-falls, round_work}
use rockx_dkg_cli.Messenger.Outgoing.{PostResult, Round, round}
use rockx_dkg_cli.Workers.{run_once, Runner, Job}
use rockx_dkg_cli.Messenger.System.Sound.Defs.{IsSound, Reaches, Held}
use rockx_dkg_cli.Messenger.System.Rest.{
  work_left, work_at, sender_work, subscriber_work, router_work, queue_work, spare, width,
  topic_sizes,
}
use rockx_dkg_cli.Messenger.System.{
  System, Sender, launch, set_sender, queue_of, answer, requeueing, push, fanning, Router,
  next_sender,
}
use rockx_dkg_cli.Messenger.Incoming.{Decoders, targets}
use rockx_dkg_cli.Messenger.State.{
  Subscriber, Message, Worker, subscriber_at, process_outgoing, process_incoming,
}
use rockx_dkg_cli.Prelude.{
  ℕ, ◌+◌, ◌*◌, ◌≤◌, ◌<◌, ◌≡◌, refl, ap, subst, inl, inr, some, List, [], ◌∷◌, ◌++◌, arith, ◌==◌,
  if◌then◌else◌, ==_iff, Bool-cases, length, Bytes, sum_below, sum_below_mono,
}
use native.Mathlib.Decide.{dec_lt}

pushed-work :
    (retry_key : Bytes → Bytes) (sub : Subscriber) (msg : Message) (c : Sender)
    → subscriber_work retry_key (record sub { outgoing = sub.outgoing ++ msg ∷ [] }) c
      ≤ subscriber_work retry_key sub c + 25
pushed-work retry_key sub msg c =
    let one : queue_work retry_key sub.retry_data (msg ∷ []) ≤ 25 =
      unfold queue_work in omega (arith, spare-bound retry_key sub.retry_data msg) in
    omega (arith, queue_work-append retry_key sub.retry_data sub.outgoing (msg ∷ []), one)

taken :
    (n : ℕ) (queue rest : List Message) (msg : Message)
    → queue ≡ msg ∷ rest
    → (n + 2) * length rest + n + 2 ≤ (n + 2) * length queue
taken n queue rest msg e = rw e (omega arith)

pub queue_allocated :
    (w : System)
    → IsSound w
    → (s : ℕ) (msg : Message) (rest : List Message) → queue_of w s ≡ msg ∷ rest
    → s < w.messenger.subscriber_heap.next
queue_allocated w v s msg rest e = elim (dec_lt s w.messenger.subscriber_heap.next) [
  | yes h ↦ h
  | no h ↦ absurd (omega (arith, v.unallocated s (omega arith), ap length e))
]

pub requeued_allocated :
    (w : System)
    → IsSound w
    → (s : ℕ) (msg : Message) → w.sender s ≡ requeueing msg
    → s < w.messenger.subscriber_heap.next
requeued_allocated w v s msg e =
    let held : Reaches w.messenger msg s = subst (Held w.messenger s) e (v.held s) in held.0

module _ (d : Decoders) (retry_key : Bytes → Bytes) where
  pub forwards-work :
      (w : System) (msg : Message) (s : ℕ) (ss : List ℕ)
      → w.router ≡ fanning msg (s ∷ ss)
      → work_left retry_key
            (record w { messenger = push s msg w.messenger; router = fanning msg ss })
          + 1
        ≤ work_left retry_key w
  unfolding work_left router_work
  forwards-work w msg s ss e = omega (
    arith,
    ap router_work e,
    work-grows retry_key w s 25
        (record (subscriber_at w.messenger s) { outgoing = queue_of w s ++ msg ∷ [] }) w.sender
        (λ j other. refl) (pushed-work retry_key (subscriber_at w.messenger s) msg (w.sender s)),
  )

  idle_work :
      (w : System) (s j : ℕ)
      → work_at retry_key (set_sender s Sender.waiting w) j ≤ work_at retry_key w j
  idle_work w s j = elim (Bool-cases (s == j)) [
    | inl same ↦ rw same (unfold sender_work in omega arith)
    | inr other ↦ rw other (omega arith)
  ]

  pub starts-work :
      (w : System) (r : Runner Worker) (j : Worker)
      → work_left retry_key (launch j (record w { runner = r }))
        ≤ work_left retry_key (record w { runner = r })
  unfolding work_left launch
  starts-work w r process_incoming = unfold router_work in omega arith
  starts-work w r (process_outgoing s) =
      let fewer : sum_below w.messenger.subscriber_heap.next
            (work_at retry_key (set_sender s Sender.waiting (record w { runner = r })))
          ≤ sum_below w.messenger.subscriber_heap.next (work_at retry_key w) =
        sum_below_mono w.messenger.subscriber_heap.next (work_at retry_key w)
          (work_at retry_key (set_sender s Sender.waiting (record w { runner = r })))
          (λ j b. idle_work w s j) in
      omega (arith, fewer)

  pub receives-work :
      (w : System) (msg : Message) (rest : List Message)
      → w.messenger.incoming ≡ msg ∷ rest
      → work_left retry_key (record w {
        messenger = record w.messenger { incoming = rest };
        router = fanning msg (targets d w.messenger msg);
      })
          + 1
        ≤ work_left retry_key w
  unfolding work_left router_work
  receives-work w msg rest f = omega (
    arith,
    taken (26 * width (topic_sizes w.messenger) w.messenger.topics) w.messenger.incoming rest msg f,
    length-targets d w.messenger msg,
  )

  pub posts-work :
      (w : System) (s : ℕ) (msg : Message) (rest : List Message) (result : PostResult)
      → s < w.messenger.subscriber_heap.next
      → queue_of w s ≡ msg ∷ rest
      → work_left retry_key (answer retry_key s msg rest result w) + 1 ≤ work_left retry_key w
  unfolding work_left answer
  posts-work w s msg rest result below f =
      let sub : Subscriber = record (subscriber_at w.messenger s) { outgoing = rest } in
      let r : Round = round retry_key sub msg result in
      let c : ℕ → Sender = λ j. if s == j then next_sender r msg else w.sender j in
      let less : subscriber_work retry_key r.subscriber (c s) + 1 ≤ work_at retry_key w s =
        rw ((==_iff s s).1 refl, f) (omega (arith, round_work retry_key sub msg result)) in
      omega (arith, work-falls retry_key w s r.subscriber c below (λ j other. rw other refl) less)

  pub requeued-work :
      (sub : Subscriber) (msg : Message)
      → subscriber_work retry_key
            (record sub { outgoing = sub.outgoing ++ msg ∷ [] })
            Sender.waiting
          + 1
        ≤ subscriber_work retry_key sub (requeueing msg)
  unfolding sender_work
  requeued-work sub msg =
      let one : queue_work retry_key sub.retry_data (msg ∷ [])
          ≡ 2 * spare retry_key sub.retry_data msg + 3 =
        unfold queue_work in omega arith in
      omega (arith, queue_work-append retry_key sub.retry_data sub.outgoing (msg ∷ []), one)

  pub requeues-work :
      (w : System) (s : ℕ) (msg : Message)
      → s < w.messenger.subscriber_heap.next
      → w.sender s ≡ requeueing msg
      → work_left retry_key
            (set_sender s Sender.waiting (record w { messenger = push s msg w.messenger }))
          + 1
        ≤ work_left retry_key w
  unfolding work_left sender_work
  requeues-work w s msg below e =
      let sub : Subscriber = record (subscriber_at w.messenger s) {
        outgoing = queue_of w s ++ msg ∷ [];
      } in
      let c : ℕ → Sender = λ j. if s == j then Sender.waiting else w.sender j in
      let less : subscriber_work retry_key sub (c s) + 1 ≤ work_at retry_key w s =
        rw ((==_iff s s).1 refl, e) (requeued-work (subscriber_at w.messenger s) msg) in
      omega (arith, work-falls retry_key w s sub c below (λ j other. rw other refl) less)

  pub finishes-work :
      (w : System) (msg : Message)
      → w.router ≡ fanning msg []
      → work_left retry_key (record w { router = Router.waiting }) + 1 ≤ work_left retry_key w
  unfolding work_left router_work
  finishes-work w msg e = omega (arith, ap router_work e)

  pub started-work :
      (w : System) (r : Runner Worker) (j : Job Worker) (rest : List (Job Worker))
      → w.runner.incoming_jobs ≡ j ∷ rest
      → run_once w.runner ≡ some r
      → work_left retry_key (record w { runner = r }) + 1 ≤ work_left retry_key w
  unfolding work_left run_once
  started-work w r j rest e f =
      let jobs : length r.incoming_jobs + 1 ≡ length w.runner.incoming_jobs = ground arith in
      omega (arith, jobs)
