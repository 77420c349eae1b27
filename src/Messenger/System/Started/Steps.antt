-- ===== src/Messenger/System/Started/Steps.antt =====
-- Every step keeps each worker running or its job in line.
use rockx_dkg_cli.Messenger.Topics.{handle_create_topic, delete_topic}
use rockx_dkg_cli.Messenger.Publish.{
  handle_publish, handle_stream_dkg_output, handle_stream_dkg_blame,
}
use rockx_dkg_cli.Messenger.System.Grows.{publish_subscribers}
use rockx_dkg_cli.Messenger.System.Jam.{outgoing-injective, launch_rest, run_once_jobs}
use rockx_dkg_cli.Messenger.Incoming.{Decoders}
use rockx_dkg_cli.Messenger.System.Started.Handlers.{
  Adds, create-next, delete-next, stream_output-next, stream_blame-next, registration-Adds,
}
use rockx_dkg_cli.Messenger.System.Started.{
  RouterIn, Orderly, HasJob, Other, FirstInLine, IsOrderly,
}
use rockx_dkg_cli.Messenger.State.{
  Worker, Message, process_outgoing, process_incoming, init, Subscriber, subscriber_at, Messenger,
}
use rockx_dkg_cli.Workers.{Job, add_job, new_runner, Runner, run_once}
use rockx_dkg_cli.Messenger.Outgoing.{Round, round}
use rockx_dkg_cli.Prelude.{
  ℕ, ◌≡◌, sym, ap, ◌≢◌, inl, inr, List, [], ◌∷◌, ◌++◌, arith, ◌==◌, ==_iff, Bool-cases, All,
  All-append, refl, subst, ◌∙◌, Bytes, Heap, some,
}
use rockx_dkg_cli.Messenger.System.{
  next, Round, Router, System, launch, Job, Worker, Message, Sender, set_sender, next_sender,
  Decoders, answer, boot, Step, add_job, new_runner, publishes, Reach, here, creates, deletes,
  streams_output, streams_blame, registers, Runner, starts, run_once, receives, forwards, finishes,
  posts, requeues,
}

HasJob-more : (s : ℕ) (js ks : List (Job Worker)) → HasJob s js → HasJob s (js ++ ks)
HasJob-more s [] ks h = absurd h
HasJob-more s (j ∷ js) ks (inl e) = inl e
HasJob-more s (j ∷ js) ks (inr h) = inr (HasJob-more s js ks h)

HasJob-last :
    (s : ℕ) (js : List (Job Worker)) (j : Job Worker)
    → j.fn ≡ process_outgoing s
    → HasJob s (js ++ j ∷ [])
HasJob-last s [] j e = inl e
HasJob-last s (i ∷ js) j e = inr (HasJob-last s js j e)

FirstInLine-more :
    (js ks : List (Job Worker)) → All Other ks → FirstInLine js → FirstInLine (js ++ ks)
FirstInLine-more [] ks a h = absurd h
FirstInLine-more (j ∷ js) ks a (e, h) = (e, All-append _ js ks h a)

RouterIn-more :
    (r : Router) (js ks : List (Job Worker)) → All Other ks → RouterIn r js → RouterIn r (js ++ ks)
RouterIn-more r js ks a (inl (e, h)) = inl (e, FirstInLine-more js ks a h)
RouterIn-more r js ks a (inr (e, h)) = inr (e, All-append _ js ks h a)

-- A router that runs has no job in line.
on_line : (r : Router) (js : List (Job Worker)) → r ≢ Router.off → RouterIn r js → All Other js
on_line r js on (inl (e, h)) = absurd (on e)
on_line r js on (inr (e, h)) = h

-- The router goes on, and so does the worker of one subscriber.
router-Orderly :
    (r t : Router) (c : ℕ → Sender) (n : ℕ) (js : List (Job Worker))
    → r ≢ Router.off
    → t ≢ Router.off
    → Orderly r c n js
    → Orderly t c n js
router-Orderly r t c n js on next_on v = record {
  router_in = inr (next_on, on_line r js on v.router_in);
  senders_in = v.senders_in;
}

set_sender-on :
    (w : System) (x s : ℕ) (a : Sender)
    → a ≢ Sender.off
    → w.sender s ≢ Sender.off
    → (set_sender x a w).sender s ≢ Sender.off
set_sender-on w x s a on old = elim (Bool-cases (x == s)) [ inl e ↦ rw e on | inr e ↦ rw e old ]

sender-Orderly :
    (w : System) (r : Router) (x n : ℕ) (js : List (Job Worker)) (a : Sender)
    → a ≢ Sender.off
    → Orderly r w.sender n js
    → Orderly r (set_sender x a w).sender n js
sender-Orderly w r x n js a on v = record {
  router_in = v.router_in;
  senders_in = λ s h. elim (v.senders_in s h) [
    | inl old ↦ inl (set_sender-on w x s a on old)
    | inr line ↦ inr line
  ];
}

next_sender-on : (r : Round) (msg : Message) → next_sender r msg ≢ Sender.off
next_sender-on r msg = elim (Bool-cases r.again) [ inl e ↦ rw e (λ q. cc) | inr e ↦ rw e (λ q. cc) ]

same_next :
    (w : System) (m : Messenger)
    → m.subscriber_heap.next ≡ w.messenger.subscriber_heap.next
    → IsOrderly w
    → IsOrderly (record w { messenger = m })
same_next w m e v = subst (λ n. Orderly w.router w.sender n w.runner.incoming_jobs) (sym e) v

Adds-Orderly :
    (r : Router) (c : ℕ → Sender) (n n' : ℕ) (js js' : List (Job Worker))
    → Adds n js n' js'
    → Orderly r c n js
    → Orderly r c n' js'
Adds-Orderly r c n n' js js' (inl (e, f)) v = rw (e, f) v
Adds-Orderly r c n n' js js' (inr (id, e, f)) v =
    rw (e, f)
      (record {
        router_in = RouterIn-more r js _ ((λ q. cc), tt) v.router_in;
        senders_in = λ s h. elim (Bool-cases (s == n)) [
          | inl last ↦ inr (
              HasJob-last s js (record { id = id; fn = process_outgoing n })
                (ap process_outgoing (sym ((==_iff s n).0 last))))
          | inr old ↦ elim (v.senders_in s (ground (arith, ==_iff s n, old, h))) [
            | inl on ↦ inl on
            | inr line ↦ inr (HasJob-more s js _ line)
          ]
        ];
      })

-- A job is started.
launch-Orderly :
    (w : System) (f : Worker) (j : Job Worker) (rest : List (Job Worker))
    → j.fn ≡ f
    → Orderly w.router w.sender w.messenger.subscriber_heap.next (j ∷ rest)
    → Orderly (launch f w).router (launch f w).sender w.messenger.subscriber_heap.next rest
unfolding launch
launch-Orderly w process_incoming j rest e v = record {
  router_in = elim v.router_in [
    | inl (off, line) ↦ inr ((λ q. cc), line.1)
    | inr (on, others) ↦ absurd (others.0 e)
  ];
  senders_in = λ s h. elim (v.senders_in s h) [
    | inl on ↦ inl on
    | inr (inl f) ↦ absurd (cc (e, f))
    | inr (inr line) ↦ inr line
  ];
}
launch-Orderly w (process_outgoing x) j rest e v = record {
  router_in = elim v.router_in [
    | inl (off, line) ↦ absurd (cc (e, line.0))
    | inr (on, others) ↦ inr (on, others.1)
  ];
  senders_in = λ s h. elim (v.senders_in s h) [
    | inl on ↦ inl (set_sender-on w x s Sender.waiting (λ q. cc) on)
    | inr (inl f) ↦ inl (rw ((==_iff x s).1 (outgoing-injective (sym e ∙ f))) (λ q. cc))
    | inr (inr line) ↦ inr line
  ];
}

starts-Orderly :
    (w : System) (r : Runner Worker) (j : Job Worker) (rest : List (Job Worker))
    → w.runner.incoming_jobs ≡ j ∷ rest
    → run_once w.runner ≡ some r
    → IsOrderly w
    → IsOrderly (launch j.fn (record w { runner = r }))
starts-Orderly w r j rest e f v =
    rw
      (
        (launch_rest j.fn (record w { runner = r })).0,
        (launch_rest j.fn (record w { runner = r })).1,
      )
      (subst
        (Orderly (launch j.fn (record w { runner = r })).router
          (launch j.fn (record w { runner = r })).sender w.messenger.subscriber_heap.next)
        (sym (run_once_jobs w.runner r j rest e f))
        (launch-Orderly (record w { runner = r }) j.fn j rest refl
          (subst (Orderly w.router w.sender w.messenger.subscriber_heap.next) e v)))

module _ (d : Decoders) (retry_key : Bytes → Bytes) where
  pub Step-IsOrderly : {w u : System} → Step d retry_key w u → IsOrderly w → IsOrderly u
  unfolding answer
  Step-IsOrderly (publishes w topic body room) v =
      same_next w (handle_publish topic body w.messenger).0
        (ap (λ (h : Heap Subscriber). h.next) (publish_subscribers topic body w.messenger)) v
  Step-IsOrderly (creates w body) v =
      same_next w (handle_create_topic body w.messenger).0 (create-next body w.messenger) v
  Step-IsOrderly (deletes w topic) v =
      same_next w (delete_topic topic w.messenger).0 (delete-next topic w.messenger) v
  Step-IsOrderly (streams_output w id body) v =
      same_next w (handle_stream_dkg_output id body w.messenger).0
        (stream_output-next id body w.messenger) v
  Step-IsOrderly (streams_blame w id body) v =
      same_next w (handle_stream_dkg_blame id body w.messenger).0
        (stream_blame-next id body w.messenger) v
  Step-IsOrderly (registers w topic body room) v =
      Adds-Orderly w.router w.sender _ _ _ _ (registration-Adds topic body w.messenger w.runner) v
  Step-IsOrderly (starts w j rest r e f) v = starts-Orderly w r j rest e f v
  Step-IsOrderly (receives w msg rest e f g) v =
      router-Orderly w.router _ w.sender _ _ (λ q. cc (q, e)) (λ q. cc) v
  Step-IsOrderly (forwards w msg s ss e room) v =
      router-Orderly w.router _ w.sender _ _ (λ q. cc (q, e)) (λ q. cc) v
  Step-IsOrderly (finishes w msg e) v =
      router-Orderly w.router _ w.sender _ _ (λ q. cc (q, e)) (λ q. cc) v
  Step-IsOrderly (posts w s msg rest result e f) v =
      sender-Orderly w w.router s _ _ _
        (next_sender-on
          (round retry_key (record (subscriber_at w.messenger s) { outgoing = rest }) msg result)
          msg)
        v
  Step-IsOrderly (requeues w s msg e room) v =
      sender-Orderly w w.router s _ _ Sender.waiting (λ q. cc) v

  -- In every state that the messenger reaches from its start the worker of the incoming channel runs
  -- or its job is the oldest one in line, that job comes only once, and the worker of each subscriber
  -- runs or its job is in line.
  pub Reach-IsOrderly : {w : System} → Reach d retry_key boot w → IsOrderly w
  unfolding boot init add_job new_runner
  Reach-IsOrderly here = record {
    router_in = inl (refl, (refl, tt));
    senders_in = λ s h. ground arith;
  }
  Reach-IsOrderly (next r st) = Step-IsOrderly st (Reach-IsOrderly r)
