-- ===== src/Messenger/System/Stall.antt =====
-- A jammed worker stays jammed, and in the end stops the worker of the incoming channel too.
use rockx_dkg_cli.Messenger.Outgoing.{PostResult}
use rockx_dkg_cli.Prelude.{
  ℕ, ◌<◌, ◌≡◌, refl, ap, subst, ◌∙◌, ◌≢◌, List, ◌∷◌, arith, length, All, Bytes, Heap, sym,
}
use rockx_dkg_cli.Messenger.State.{
  Messenger, Message, Subscriber, Worker, subscriber_at, process_incoming, process_outgoing,
}
use rockx_dkg_cli.Messenger.Incoming.{Decoders}
use rockx_dkg_cli.Messenger.System.{
  System, Step, Sender, queue_of, channel_room, requeueing, launch, answer, fanning, set_sender,
  Reach, here,
}
use rockx_dkg_cli.Messenger.System.{
  publishes, creates, deletes, streams_output, streams_blame, registers, starts, receives, forwards,
  finishes, posts, requeues, next,
}
use rockx_dkg_cli.Messenger.System.Grows.{
  create-Grows, delete-Grows, stream_output-Grows, stream_blame-Grows, registration-Grows,
  publish_subscribers,
}
use rockx_dkg_cli.Messenger.System.Jam.{
  Elsewhere, IsJammed, handler-IsJammed, registration_jobs, other_queue, launch_keeps, launch_rest,
  run_once_jobs,
}

module _ (s : ℕ) (msg : Message) where
  -- A step that leaves the object of `s`, its worker and the jobs alone.
  keep-IsJammed :
      (w u : System)
      → u.messenger.subscriber_heap.next ≡ w.messenger.subscriber_heap.next
      → subscriber_at u.messenger s ≡ subscriber_at w.messenger s
      → u.sender s ≡ w.sender s
      → All (Elsewhere s) u.runner.incoming_jobs
      → IsJammed s msg w
      → IsJammed s msg u
  keep-IsJammed w u n q c a v = record {
    exists = omega (arith, n, v.exists);
    held = c ∙ v.held;
    full = ap (λ (x : Subscriber). length x.outgoing) q ∙ v.full;
    jobs = a;
  }

  busy : (c : Sender) → c ≡ requeueing msg → c ≢ Sender.waiting
  busy c e f = cc

  other_sender :
      (w : System) (j : ℕ) (c : Sender) → j ≢ s → (set_sender j c w).sender s ≡ w.sender s
  other_sender w j c ne = ground arith

  answer-IsJammed :
      (retry_key : Bytes → Bytes) (w : System) (j : ℕ) (x : Message) (rest : List Message)
      (result : PostResult)
      → j ≢ s
      → IsJammed s msg w
      → IsJammed s msg (answer retry_key j x rest result w)
  unfolding answer
  answer-IsJammed retry_key w j x rest result ne v =
      keep-IsJammed w _ refl (other_queue s msg j _ w.messenger.subscriber_heap ne)
        (other_sender w j _ ne) v.jobs v

  module _ (d : Decoders) (retry_key : Bytes → Bytes) where
    pub Step-IsJammed : {w u : System} → Step d retry_key w u → IsJammed s msg w → IsJammed s msg u
    Step-IsJammed (publishes w topic body room) v =
        keep-IsJammed w _
          (ap (λ (h : Heap Subscriber). h.next) (publish_subscribers topic body w.messenger))
          (ap (λ (h : Heap Subscriber). h.cell s) (publish_subscribers topic body w.messenger)) refl
          v.jobs v
    Step-IsJammed (creates w body) v =
        handler-IsJammed s msg w _ w.runner (create-Grows body w.messenger) v.jobs v
    Step-IsJammed (deletes w topic) v =
        handler-IsJammed s msg w _ w.runner (delete-Grows topic w.messenger) v.jobs v
    Step-IsJammed (streams_output w id body) v =
        handler-IsJammed s msg w _ w.runner (stream_output-Grows id body w.messenger) v.jobs v
    Step-IsJammed (streams_blame w id body) v =
        handler-IsJammed s msg w _ w.runner (stream_blame-Grows id body w.messenger) v.jobs v
    Step-IsJammed (registers w topic body room) v =
        handler-IsJammed s msg w _ _ (registration-Grows topic body w.messenger w.runner)
          (registration_jobs s topic body w.messenger w.runner v.exists v.jobs) v
    Step-IsJammed (starts w j rest r e f) v =
        keep-IsJammed w _ (ap (λ (m : Messenger). m.subscriber_heap.next) same.0)
          (ap (λ (m : Messenger). m.subscriber_heap.cell s) same.0)
          (launch_keeps s msg j.fn _ split.0.0)
          (rw (same.1, run_once_jobs w.runner r j rest e f) split.1) v
      where
        same :
            ((launch j.fn (record w { runner = r })).messenger ≡ w.messenger)
            × ((launch j.fn (record w { runner = r })).runner ≡ r)
        same = launch_rest j.fn (record w { runner = r })

        split : All (Elsewhere s) (j ∷ rest)
        split = subst (All (Elsewhere s)) e v.jobs
    Step-IsJammed (receives w x rest e f g) v = keep-IsJammed w _ refl refl refl v.jobs v
    Step-IsJammed (forwards w x j js e room) v =
        keep-IsJammed w _ refl
          (other_queue s msg j _ w.messenger.subscriber_heap
            (λ p. omega (arith, subst (λ z. length (queue_of w z) < channel_room) p room, v.full)))
          refl v.jobs v
    Step-IsJammed (finishes w x e) v = keep-IsJammed w _ refl refl refl v.jobs v
    Step-IsJammed (posts w j x rest result e f) v =
        answer-IsJammed retry_key w j x rest result
          (λ p. busy (w.sender s) v.held (subst (λ z. w.sender z ≡ Sender.waiting) p e)) v
    Step-IsJammed (requeues w j x e room) v =
        keep-IsJammed w _ refl (other_queue s msg j _ w.messenger.subscriber_heap ne)
          (other_sender w j Sender.waiting ne) v.jobs v
      where
        ne : j ≢ s
        ne p = omega (arith, subst (λ z. length (queue_of w z) < channel_room) p room, v.full)

    -- A jammed worker, which waits to send a message on its own full channel, is jammed in every state that
    -- is reached from there, in any order of steps.
    pub Reach-IsJammed :
        {w u : System} → Reach d retry_key w u → IsJammed s msg w → IsJammed s msg u
    Reach-IsJammed here v = v
    Reach-IsJammed (next r st) v = Step-IsJammed st (Reach-IsJammed r v)

fan_head :
    {x y : Message} {s j : ℕ} {ss js : List ℕ} → fanning y (j ∷ js) ≡ fanning x (s ∷ ss) → j ≡ s
fan_head e = cc

-- The worker of the incoming channel has a message for the jammed subscriber.
pub record IsStalled (s : ℕ) (msg : Message) (x : Message) (ss : List ℕ) (w : System) : Type 0 where
  pub jammed : IsJammed s msg w
  pub blocked : w.router ≡ fanning x (s ∷ ss)

module _ (s : ℕ) (msg x : Message) (ss : List ℕ) where
  launch_router : (j : Worker) (w : System) → j ≢ process_incoming → (launch j w).router ≡ w.router
  unfolding launch
  launch_router process_incoming w ne = absurd (ne refl)
  launch_router (process_outgoing k) w ne = refl

  answer_router :
      (retry_key : Bytes → Bytes) (w : System) (j : ℕ) (y : Message) (rest : List Message)
      (result : PostResult)
      → (answer retry_key j y rest result w).router ≡ w.router
  unfolding answer
  answer_router retry_key w j y rest result = refl

  module _ (d : Decoders) (retry_key : Bytes → Bytes) where
    router_blocked :
        {w u : System}
        → Step d retry_key w u
        → IsStalled s msg x ss w
        → u.router ≡ fanning x (s ∷ ss)
    router_blocked (publishes w topic body room) v = v.blocked
    router_blocked (creates w body) v = v.blocked
    router_blocked (deletes w topic) v = v.blocked
    router_blocked (streams_output w id body) v = v.blocked
    router_blocked (streams_blame w id body) v = v.blocked
    router_blocked (registers w topic body room) v = v.blocked
    router_blocked (starts w j rest r e f) v =
        launch_router j.fn _ (subst (All (Elsewhere s)) e v.jammed.jobs).0.1 ∙ v.blocked
    router_blocked (receives w y rest e f g) v = absurd (cc (e, v.blocked))
    router_blocked (forwards w y j js e room) v = absurd (
        omega (
          arith,
          subst (λ z. length (queue_of w z) < channel_room) (fan_head (sym e ∙ v.blocked)) room,
          v.jammed.full,
        ))
    router_blocked (finishes w y e) v = absurd (cc (e, v.blocked))
    router_blocked (posts w j y rest result e f) v =
        answer_router retry_key w j y rest result ∙ v.blocked
    router_blocked (requeues w j y e room) v = v.blocked

    -- Where the worker of `s` is jammed and the worker of the incoming channel waits to send it a
    -- message, both stay so in every state that is reached from there, in any order of steps: the worker of
    -- the incoming channel takes no other message.
    pub Reach-IsStalled :
        {w u : System} → Reach d retry_key w u → IsStalled s msg x ss w → IsStalled s msg x ss u
    Reach-IsStalled here v = v
    Reach-IsStalled (next r st) v = record {
      jammed = Step-IsJammed s msg d retry_key st (Reach-IsStalled r v).jammed;
      blocked = router_blocked st (Reach-IsStalled r v);
    }
