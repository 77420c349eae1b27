-- ===== src/Messenger/System/Arrival/Runs.antt =====
-- A run of the workers, for a message on its way to a subscriber.
use rockx_dkg_cli.Messenger.System.Started.Steps.{Step-IsOrderly}
use rockx_dkg_cli.Messenger.System.Sound.Steps.{Step-IsSound}
use rockx_dkg_cli.Messenger.System.Started.{IsOrderly, RouterIn}
use rockx_dkg_cli.Messenger.System.Jam.{launch_rest}
use rockx_dkg_cli.Messenger.System.{
  publishes, creates, deletes, streams_output, streams_blame, registers, starts, receives, forwards,
  finishes, posts, requeues, Router,
}
use rockx_dkg_cli.Messenger.System.Arrival.Steps.{posts-Pending}
use rockx_dkg_cli.Messenger.System.Arrival.Moves.{
  pushed_counts, receives_way, forwards_way, finishes_way, requeues_way,
}
use rockx_dkg_cli.Messenger.System.Rest.{Alone, by_itself, still}
use rockx_dkg_cli.Messenger.System.Sound.Defs.{IsSound}
use rockx_dkg_cli.Messenger.System.Arrival.{Pending, Alone, Arrives, goes_on, Posts, OnItsWay}
use rockx_dkg_cli.Messenger.System.{
  launch, System, Job, Step, push, starts, receives, forwards, finishes, posts,
}
use rockx_dkg_cli.Messenger.State.{
  Message, Worker, process_incoming, subscriber_at, process_outgoing,
}
use rockx_dkg_cli.Messenger.Incoming.{Decoders}
use rockx_dkg_cli.Workers.{Runner, Job}
use rockx_dkg_cli.Prelude.{
  ℕ, ◌≡◌, refl, ap, subst, ◌∙◌, ◌⊎◌, inl, inr, true, none, List, ◌∷◌, arith, Bytes, lookup,
  bytes_key, nat_key,
}

module _ (d : Decoders) (retry_key : Bytes → Bytes) (s : ℕ) (msg : Message) where
  launch_way :
      (w : System) (f : Worker)
      → (f ≡ process_incoming → w.router ≡ Router.off)
      → OnItsWay d s msg w
      → OnItsWay d s msg (launch f w)
  unfolding launch
  launch_way w process_incoming off (inl h) = inl h
  launch_way w process_incoming off (inr (inl (ss, g, h))) = absurd (cc (off refl, g))
  launch_way w process_incoming off (inr (inr h)) = inr (inr h)
  launch_way w (process_outgoing x) off (inl h) = inl h
  launch_way w (process_outgoing x) off (inr (inl h)) = inr (inl h)
  launch_way w (process_outgoing x) off (inr (inr h)) = inr (inr h)

  -- The job of the incoming channel is started once.
  first_start :
      (r : Router) (j : Job Worker) (rest : List (Job Worker))
      → RouterIn r (j ∷ rest)
      → j.fn ≡ process_incoming
      → r ≡ Router.off
  first_start r j rest (inl (off, line)) e = off
  first_start r j rest (inr (on, others)) e = absurd (others.0 e)

  starts-Pending :
      (w : System) (r : Runner Worker) (j : Job Worker) (rest : List (Job Worker))
      → w.runner.incoming_jobs ≡ j ∷ rest
      → IsOrderly w
      → Pending d retry_key s msg w
      → Pending d retry_key s msg (launch j.fn (record w { runner = r }))
  starts-Pending w r j rest e o p = record {
    on_its_way =
        launch_way (record w { runner = r }) j.fn
          (first_start w.router j rest (subst (RouterIn w.router) e o.router_in)) p.on_its_way;
    uncounted = rw (launch_rest j.fn (record w { runner = r })).0 p.uncounted;
  }

  pushed_uncounted :
      (w : System) (x : ℕ) (added : Message)
      → Pending d retry_key s msg w
      → lookup (retry_key msg.payload) (subscriber_at (push x added w.messenger) s).retry_data
        ≡ none
  pushed_uncounted w x added p =
      ap (lookup (retry_key msg.payload)) (pushed_counts d retry_key s msg w.messenger x added)
      ∙ p.uncounted

  -- Each step of a worker or of the runner.
  Step-Pending :
      {w u : System}
      → IsSound w
      → IsOrderly w
      → Pending d retry_key s msg w
      → (st : Step d retry_key w u) → by_itself d retry_key st ≡ true
      → Posts d retry_key s msg st ⊎ Pending d retry_key s msg u
  Step-Pending v o p (starts w j rest r e f) a = inr (starts-Pending w r j rest e o p)
  Step-Pending v o p (receives w taken rest e f g) a = inr (record {
    on_its_way = receives_way d retry_key s msg w taken rest e f p.on_its_way;
    uncounted = p.uncounted;
  })
  Step-Pending v o p (forwards w added x ss e room) a = inr (record {
    on_its_way = forwards_way d retry_key s msg w added x ss e p.on_its_way;
    uncounted = pushed_uncounted w x added p;
  })
  Step-Pending v o p (finishes w done e) a = inr (record {
    on_its_way = finishes_way d retry_key s msg w done e p.on_its_way;
    uncounted = p.uncounted;
  })
  Step-Pending v o p (posts w x other rest result e f) a =
      posts-Pending d retry_key s msg w x other rest result e f v p
  Step-Pending v o p (requeues w x added e room) a = inr (record {
    on_its_way = requeues_way d retry_key s msg w x added p.on_its_way;
    uncounted = pushed_uncounted w x added p;
  })
  Step-Pending v o p (publishes w topic body room) a = ground arith
  Step-Pending v o p (creates w body) a = ground arith
  Step-Pending v o p (deletes w topic) a = ground arith
  Step-Pending v o p (streams_output w id body) a = ground arith
  Step-Pending v o p (streams_blame w id body) a = ground arith
  Step-Pending v o p (registers w topic body room) a = ground arith

  -- A run that does not post the message leaves it on its way.
  pub Alone-Pending :
      (w u : System) (n : ℕ)
      → IsSound w
      → IsOrderly w
      → Pending d retry_key s msg w
      → (run : Alone d retry_key w n u)
      → IsSound u × IsOrderly u × (Arrives d retry_key s msg run ⊎ Pending d retry_key s msg u)
  Alone-Pending w u n v o p still = (v, o, inr p)
  Alone-Pending w u n v o p (goes_on run st own) =
      let (v', o', so_far) = Alone-Pending w _ _ v o p run in
      (
        Step-IsSound d retry_key st v',
        Step-IsOrderly d retry_key st o',
        elim so_far [
          | inl done ↦ inl (inl done)
          | inr q ↦ elim (Step-Pending v' o' q st own) [
            | inl now ↦ inl (inr now)
            | inr later ↦ inr later
          ]
        ],
      )
