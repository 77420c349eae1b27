-- ===== src/Messenger/System/Arise.antt =====
-- How a worker comes to be jammed.
use rockx_dkg_cli.Prelude.{
  ℕ, ◌+◌, ◌<◌, ◌≡◌, refl, ◌≢◌, true, some, List, [], ◌∷◌, arith, ==_iff, length, length-append, All,
  Bytes, lookup, insert, has, bytes_key, sym, ap, subst, ◌∙◌, Heap, put,
}
use rockx_dkg_cli.Workers.{Runner}
use rockx_dkg_cli.Messenger.State.{Worker, Message, Subscriber, subscriber_at}
use rockx_dkg_cli.Messenger.Incoming.{Decoders}
use rockx_dkg_cli.Messenger.Outgoing.{round, PostResult, answered, account, deliver, after_post}
use rockx_dkg_cli.Messenger.Outgoing.Retries.{round-Keeps}
use rockx_dkg_cli.Messenger.System.{
  System, Reach, Router, Sender, queue_of, channel_room, requeueing, fanning, answer, push, next,
  here, posts, forwards,
}
use rockx_dkg_cli.Messenger.System.Jam.{Elsewhere, IsJammed}

refused :
    (s : Subscriber) (msg : Message) (code : ℕ)
    → has msg.topic s.subscribes_to ≡ true
    → code ≢ 200
    → (deliver s msg (answered code)).again ≡ true
unfolding deliver after_post
refused s msg code h ne = ground arith

round_again :
    (retry_key : Bytes → Bytes) (s : Subscriber) (msg : Message) (n code : ℕ)
    → account (lookup (retry_key msg.payload) s.retry_data) ≡ some n
    → has msg.topic s.subscribes_to ≡ true
    → code ≢ 200
    → (round retry_key s msg (answered code)).again ≡ true
unfolding round
round_again retry_key s msg n code e h ne =
    rw (e, round)
      (refused (record s { retry_data = insert (retry_key msg.payload) n s.retry_data }) msg code h
        ne)

put_self : {A : Type 0} (h : Heap A) (s : ℕ) (a : A) → (put h s a).cell s ≡ a
put_self h s a = rw ((==_iff s s).1 refl)

queue_of-answer :
    (retry_key : Bytes → Bytes) (w : System) (s : ℕ) (msg : Message) (rest : List Message)
    (result : PostResult)
    → queue_of (answer retry_key s msg rest result w) s ≡ rest
unfolding answer
queue_of-answer retry_key w s msg rest result =
    ap (λ (x : Subscriber). x.outgoing) (put_self w.messenger.subscriber_heap s _)
    ∙ (round-Keeps retry_key (record (subscriber_at w.messenger s) { outgoing = rest }) msg
        result).outgoing

sender-answer :
    (retry_key : Bytes → Bytes) (w : System) (s : ℕ) (msg : Message) (rest : List Message)
    (result : PostResult)
    → (round retry_key (record (subscriber_at w.messenger s) { outgoing = rest }) msg result).again
      ≡ true
    → (answer retry_key s msg rest result w).sender s ≡ requeueing msg
unfolding answer
sender-answer retry_key w s msg rest result e = rw ((==_iff s s).1 refl, e)

answer_rest :
    (retry_key : Bytes → Bytes) (w : System) (s : ℕ) (msg : Message) (rest : List Message)
    (result : PostResult)
    → let u = answer retry_key s msg rest result w in
      (u.messenger.subscriber_heap.next ≡ w.messenger.subscriber_heap.next)
      × (u.router ≡ w.router)
      × (u.runner ≡ w.runner)
unfolding answer
answer_rest retry_key w s msg rest result = (refl, refl, refl)

queue_of-push :
    (w : System) (s : ℕ) (x : Message) (r : Router)
    → length (queue_of (record w { messenger = push s x w.messenger; router = r }) s)
      ≡ length (queue_of w s) + 1
queue_of-push w s x r =
    ap (λ (z : Subscriber). length z.outgoing) (put_self w.messenger.subscriber_heap s _)
    ∙ length-append (queue_of w s) (x ∷ [])

module _ (d : Decoders) (retry_key : Bytes → Bytes) where
  -- A subscriber's channel is full, its worker takes the oldest message, whose retries are not spent,
  -- and the node answers with another status than 200; meanwhile the worker of the incoming channel
  -- fills the place that came free. Two steps later the subscriber's worker is jammed.
  pub jam_arises :
      (w : System) (s n code : ℕ) (msg x : Message) (rest : List Message) (ss : List ℕ)
      → s < w.messenger.subscriber_heap.next
      → All (Elsewhere s) w.runner.incoming_jobs
      → w.sender s ≡ Sender.waiting
      → queue_of w s ≡ msg ∷ rest
      → length (queue_of w s) ≡ channel_room
      → w.router ≡ fanning x (s ∷ ss)
      → account (lookup (retry_key msg.payload) (subscriber_at w.messenger s).retry_data) ≡ some n
      → has msg.topic (subscriber_at w.messenger s).subscribes_to ≡ true
      → code ≢ 200
      → (u : System) × Reach d retry_key w u × IsJammed s msg u
  jam_arises w s n code msg x rest ss exists jobs idle queue full fan budget follows bad = (
    record u1 { messenger = push s x u1.messenger; router = fanning x ss },
    next (next here (posts w s msg rest (answered code) idle queue))
        (forwards u1 x s ss (kept.1 ∙ fan) room),
    record {
      exists = omega (arith, kept.0, exists);
      held =
          sender-answer retry_key w s msg rest (answered code)
            (round_again retry_key _ msg n code budget follows bad);
      full = queue_of-push u1 s x (fanning x ss) ∙ omega (arith, left, ap length queue, full);
      jobs = subst (λ (r : Runner Worker). All (Elsewhere s) r.incoming_jobs) (sym kept.2) jobs;
    },
  )
    where
      u1 : System
      u1 = answer retry_key s msg rest (answered code) w

      kept :
          (u1.messenger.subscriber_heap.next ≡ w.messenger.subscriber_heap.next)
          × (u1.router ≡ w.router)
          × (u1.runner ≡ w.runner)
      kept = answer_rest retry_key w s msg rest (answered code)

      left : length (queue_of u1 s) ≡ length rest
      left = ap length (queue_of-answer retry_key w s msg rest (answered code))

      room : length (queue_of u1 s) < channel_room
      room = omega (arith, left, ap length queue, full)
