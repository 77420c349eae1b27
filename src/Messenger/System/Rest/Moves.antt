-- ===== src/Messenger/System/Rest/Moves.antt =====
-- What each move leaves to do.
use rockx_dkg_cli.Messenger.Outgoing.Retries.{deliver_subscriber}
use rockx_dkg_cli.Messenger.System.Rest.Weights.{queue_work-counted, spare-spent}
use rockx_dkg_cli.Messenger.Outgoing.{Round, account, PostResult, round}
use rockx_dkg_cli.Messenger.System.Rest.{queue_work, sender_work, spare, subscriber_work, work_at}
use rockx_dkg_cli.Messenger.State.{Subscriber, Message}
use rockx_dkg_cli.Prelude.{
  ℕ, ◌+◌, ◌*◌, ◌≤◌, ◌≡◌, inl, inr, false, some, ◌∷◌, arith, ◌==◌, Bool-cases, Option-cases, Bytes,
  GoMap, lookup, insert, sum_below, bytes_key, nat_key, ==_iff, sum_below-grows, ◌<◌,
  sum_below-falls,
}
use rockx_dkg_cli.Messenger.System.{next_sender, System, Sender, set_subscriber}

module _ (retry_key : Bytes → Bytes) where
  sender_work-next_sender :
      (counts : GoMap Bytes ℕ) (r : Round) (msg : Message)
      → sender_work retry_key counts (next_sender r msg) ≤ 2 * spare retry_key counts msg + 4
  unfolding sender_work
  sender_work-next_sender counts r msg = elim (Bool-cases r.again) [
    | inl back ↦ rw back (omega arith)
    | inr gone ↦ rw gone (omega arith)
  ]

  counted_work :
      (sub : Subscriber) (msg : Message) (n : ℕ) (r : Round)
      → account (lookup (retry_key msg.payload) sub.retry_data) ≡ some n
      → r.subscriber ≡ record sub { retry_data = insert (retry_key msg.payload) n sub.retry_data }
      → subscriber_work retry_key r.subscriber (next_sender r msg) + 1
        ≤ queue_work retry_key sub.retry_data (msg ∷ sub.outgoing)
  unfolding queue_work
  counted_work sub msg n r e same = rw same (
      omega (
        arith,
        queue_work-counted retry_key sub.retry_data (retry_key msg.payload) n sub.outgoing e,
        spare-spent retry_key sub.retry_data msg n e,
        sender_work-next_sender (insert (retry_key msg.payload) n sub.retry_data) r msg,
      ))

  -- A round takes at least one from the work of its subscriber.
  pub round_work :
      (sub : Subscriber) (msg : Message) (result : PostResult)
      → let r = round retry_key sub msg result in
        subscriber_work retry_key r.subscriber (next_sender r msg) + 1
        ≤ queue_work retry_key sub.retry_data (msg ∷ sub.outgoing)
  round_work sub msg result =
      elim (Option-cases (account (lookup (retry_key msg.payload) sub.retry_data))) [
        | inl e ↦ unfold round sender_work in rw (e, round) (unfold queue_work in omega arith)
        | inr (n, e) ↦
            counted_work sub msg n (round retry_key sub msg result) e
              (unfold round in rw (e, round) (deliver_subscriber _ msg result))
      ]

  -- One subscriber has changed, and with it the work of all of them.
  pub work-grows :
      (w : System) (s a : ℕ) (sub : Subscriber) (c : ℕ → Sender)
      → ((j : ℕ) → (s == j) ≡ false → c j ≡ w.sender j)
      → subscriber_work retry_key sub (c s) ≤ work_at retry_key w s + a
      → sum_below w.messenger.subscriber_heap.next (
          work_at retry_key (record w { messenger = set_subscriber s sub w.messenger; sender = c }))
        ≤ sum_below w.messenger.subscriber_heap.next (work_at retry_key w) + a
  work-grows w s a sub c others h =
      sum_below-grows w.messenger.subscriber_heap.next s a (work_at retry_key w)
        (work_at retry_key (record w { messenger = set_subscriber s sub w.messenger; sender = c }))
        (λ j b. elim (Bool-cases (s == j)) [
          | inl same ↦ rw same (rw (← (==_iff s j).0 same) h)
          | inr other ↦ rw (other, others j other) (omega arith)
        ])

  -- One subscriber has less to do, and the others no more.
  pub work-falls :
      (w : System) (s : ℕ) (sub : Subscriber) (c : ℕ → Sender)
      → s < w.messenger.subscriber_heap.next
      → ((j : ℕ) → (s == j) ≡ false → c j ≡ w.sender j)
      → subscriber_work retry_key sub (c s) + 1 ≤ work_at retry_key w s
      → sum_below w.messenger.subscriber_heap.next (
            work_at retry_key
              (record w { messenger = set_subscriber s sub w.messenger; sender = c }))
          + 1
        ≤ sum_below w.messenger.subscriber_heap.next (work_at retry_key w)
  work-falls w s sub c below others h =
      sum_below-falls w.messenger.subscriber_heap.next s 1 (work_at retry_key w)
        (work_at retry_key (record w { messenger = set_subscriber s sub w.messenger; sender = c }))
        below
        (λ j b. elim (Bool-cases (s == j)) [
          | inl same ↦ rw same (rw (← (==_iff s j).0 same) h)
          | inr other ↦ rw (other, others j other) (omega arith)
        ])
