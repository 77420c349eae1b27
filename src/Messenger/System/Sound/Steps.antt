-- ===== src/Messenger/System/Sound/Steps.antt =====
-- What holds in every state that the messenger reaches.
use rockx_dkg_cli.Messenger.System.Sound.Moves.{Held-set, push-IsSound, answer-IsSound}
use rockx_dkg_cli.Messenger.System.Sound.Defs.{
  IsSound, Fanned-mono, Held-mono, handler-IsSound, Reaches, Fanned, Held,
}
use rockx_dkg_cli.Messenger.Invariant.Routing.{targets-All}
use rockx_dkg_cli.Messenger.Invariant.Register.{registration-IsConsistent}
use rockx_dkg_cli.Messenger.Invariant.Topics.{create-IsConsistent}
use rockx_dkg_cli.Messenger.Invariant.Publish.{
  handle_publish-IsConsistent, delete-IsConsistent, stream_output-IsConsistent,
  stream_blame-IsConsistent, same_maps-IsConsistent,
}
use rockx_dkg_cli.Messenger.Incoming.{Decoders}
use rockx_dkg_cli.Messenger.Publish.{handle_publish}
use rockx_dkg_cli.Prelude.{
  ℕ, ◌≤◌, ◌<◌, ◌≡◌, ap, true, arith, length, Bytes, has, bytes_key, subst, refl, some, ◌∷◌, Option,
  sym, Heap,
}
use rockx_dkg_cli.Workers.{run_once, add_job, new_runner}
use rockx_dkg_cli.Messenger.System.{
  publishes, creates, deletes, streams_output, streams_blame, registers, starts, receives, forwards,
  finishes, posts, requeues, here, next,
}
use rockx_dkg_cli.Workers.{Runner, jobs_room}
use rockx_dkg_cli.Messenger.State.{
  Worker, subscriber_at, Subscriber, process_outgoing, process_incoming, init,
}
use rockx_dkg_cli.Messenger.Invariant.Defs.{init-IsConsistent}
use rockx_dkg_cli.Messenger.System.{System, Sender, queue_of, launch, boot, Step, Reach}
use rockx_dkg_cli.Messenger.System.{fanning, requeueing}
use rockx_dkg_cli.Messenger.System.Grows.{
  publish_subscribers, create-Grows, delete-Grows, stream_output-Grows, stream_blame-Grows,
  registration-Grows,
}

launch-IsSound : (j : Worker) (w : System) → IsSound w → IsSound (launch j w)
unfolding launch
launch-IsSound process_incoming w v = record {
  consistent = v.consistent;
  incoming_bounded = v.incoming_bounded;
  queues_bounded = v.queues_bounded;
  jobs_bounded = v.jobs_bounded;
  unallocated = v.unallocated;
  fanned = tt;
  held = v.held;
}
launch-IsSound (process_outgoing s) w v = record {
  consistent = v.consistent;
  incoming_bounded = v.incoming_bounded;
  queues_bounded = v.queues_bounded;
  jobs_bounded = v.jobs_bounded;
  unallocated = v.unallocated;
  fanned = v.fanned;
  held = Held-set w.messenger s Sender.waiting w.sender tt v.held;
}

runner-IsSound :
    (w : System) (r : Runner Worker)
    → length r.incoming_jobs ≤ jobs_room
    → IsSound w
    → IsSound (record w { runner = r })
runner-IsSound w r h v = record {
  consistent = v.consistent;
  incoming_bounded = v.incoming_bounded;
  queues_bounded = v.queues_bounded;
  jobs_bounded = h;
  unallocated = v.unallocated;
  fanned = v.fanned;
  held = v.held;
}

run_once_shrinks :
    (r r' : Runner Worker) → run_once r ≡ some r' → length r'.incoming_jobs ≤ length r.incoming_jobs
unfolding run_once
run_once_shrinks r r' e = ground arith

publish_next :
    (topic : Bytes) (body : Option Bytes) (w : System)
    → w.messenger.subscriber_heap.next
      ≤ (handle_publish topic body w.messenger).0.subscriber_heap.next
publish_next topic body w =
    omega (arith, ap (λ (g : Heap Subscriber). g.next) (publish_subscribers topic body w.messenger))

publish_queue :
    (topic : Bytes) (body : Option Bytes) (w : System) (s : ℕ)
    → length (subscriber_at (handle_publish topic body w.messenger).0 s).outgoing
      ≡ length (queue_of w s)
publish_queue topic body w s =
    ap (λ (g : Heap Subscriber). length (g.cell s).outgoing)
      (publish_subscribers topic body w.messenger)

publish_more :
    (topic : Bytes) (body : Option Bytes) (w : System) (k : Bytes) (s : ℕ)
    → s < w.messenger.subscriber_heap.next
    → has k (subscriber_at w.messenger s).subscribes_to ≡ true
    → has k (subscriber_at (handle_publish topic body w.messenger).0 s).subscribes_to ≡ true
publish_more topic body w k s b h =
    subst (λ (g : Heap Subscriber). has k (g.cell s).subscribes_to ≡ true)
      (sym (publish_subscribers topic body w.messenger)) h

module _ (d : Decoders) (retry_key : Bytes → Bytes) where
  -- Every step keeps the system sound.
  pub Step-IsSound : {w u : System} → Step d retry_key w u → IsSound w → IsSound u
  Step-IsSound (publishes w topic body room) v = record {
    consistent = handle_publish-IsConsistent topic body w.messenger v.consistent;
    incoming_bounded = room;
    queues_bounded = λ s. omega (arith, publish_queue topic body w s, v.queues_bounded s);
    jobs_bounded = v.jobs_bounded;
    unallocated = λ s h.
        omega (arith, publish_queue topic body w s, publish_next topic body w, v.unallocated s);
    fanned =
        Fanned-mono w.messenger (handle_publish topic body w.messenger).0
          (publish_next topic body w) (publish_more topic body w) w.router v.fanned;
    held = λ s.
        Held-mono w.messenger (handle_publish topic body w.messenger).0 (publish_next topic body w)
          (publish_more topic body w) s (w.sender s) (v.held s);
  }
  Step-IsSound (creates w body) v =
      handler-IsSound w _ w.runner (create-Grows body w.messenger)
        (create-IsConsistent body w.messenger v.consistent) v.jobs_bounded v
  Step-IsSound (deletes w topic) v =
      handler-IsSound w _ w.runner (delete-Grows topic w.messenger)
        (delete-IsConsistent topic w.messenger v.consistent) v.jobs_bounded v
  Step-IsSound (streams_output w id body) v =
      handler-IsSound w _ w.runner (stream_output-Grows id body w.messenger)
        (stream_output-IsConsistent id body w.messenger v.consistent) v.jobs_bounded v
  Step-IsSound (streams_blame w id body) v =
      handler-IsSound w _ w.runner (stream_blame-Grows id body w.messenger)
        (stream_blame-IsConsistent id body w.messenger v.consistent) v.jobs_bounded v
  Step-IsSound (registers w topic body room) v =
      handler-IsSound w _ _ (registration-Grows topic body w.messenger w.runner)
        (registration-IsConsistent topic body w.messenger w.runner v.consistent) room v
  Step-IsSound (starts w j rest r e f) v =
      launch-IsSound j.fn _
        (runner-IsSound w r (omega (arith, run_once_shrinks w.runner r f, v.jobs_bounded)) v)
  Step-IsSound (receives w msg rest e f g) v = record {
    consistent = same_maps-IsConsistent w.messenger _ refl refl refl v.consistent;
    incoming_bounded = omega (arith, ap length f, v.incoming_bounded);
    queues_bounded = v.queues_bounded;
    jobs_bounded = v.jobs_bounded;
    unallocated = v.unallocated;
    fanned =
        targets-All d (Reaches w.messenger msg) w.messenger msg
          (λ n t s p q. (
            (v.consistent.subscriber_named msg.topic n t s p q).1,
            (v.consistent.subscriber_named msg.topic n t s p q).2,
          ))
          v.consistent;
    held = v.held;
  }
  Step-IsSound (forwards w msg s ss e room) v =
      push-IsSound w s msg (fanning msg ss) w.sender fan.0 room fan.1 v.held v
    where
      fan : Fanned w.messenger (fanning msg (s ∷ ss))
      fan = rw e at v.fanned
  Step-IsSound (finishes w msg e) v = record {
    consistent = v.consistent;
    incoming_bounded = v.incoming_bounded;
    queues_bounded = v.queues_bounded;
    jobs_bounded = v.jobs_bounded;
    unallocated = v.unallocated;
    fanned = tt;
    held = v.held;
  }
  Step-IsSound (posts w s msg rest result e f) v = answer-IsSound retry_key w s msg rest result f v
  Step-IsSound (requeues w s msg e room) v =
      push-IsSound w s msg w.router _ hold room v.fanned
        (Held-set w.messenger s Sender.waiting w.sender tt v.held) v
    where
      hold : Held w.messenger s (requeueing msg)
      hold = subst (Held w.messenger s) e (v.held s)

boot-IsSound : IsSound boot
unfolding boot init add_job new_runner
boot-IsSound = record {
  consistent = init-IsConsistent;
  incoming_bounded = omega arith;
  queues_bounded = λ s. omega arith;
  jobs_bounded = omega arith;
  unallocated = λ s h. refl;
  fanned = tt;
  held = λ s. tt;
}

-- Every state that the messenger reaches from its start is sound, whatever the decoders and the retry
-- keys, the requests, the answers and their order: it is well-formed, no channel is over its room, and
-- each message on its way goes to a subscriber that follows its topic.
pub Reach-IsSound :
    (d : Decoders) (retry_key : Bytes → Bytes) {w : System} → Reach d retry_key boot w → IsSound w
Reach-IsSound d retry_key here = boot-IsSound
Reach-IsSound d retry_key (next r st) = Step-IsSound d retry_key st (Reach-IsSound d retry_key r)
