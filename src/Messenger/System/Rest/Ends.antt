-- ===== src/Messenger/System/Rest/Ends.antt =====
-- The messenger left alone: each step leaves less to do.
use rockx_dkg_cli.Messenger.System.{
  publishes, creates, deletes, streams_output, streams_blame, registers, starts, receives, forwards,
  finishes, posts, requeues,
}
use rockx_dkg_cli.Messenger.System.Rest.Falls.{
  starts-work, started-work, receives-work, forwards-work, finishes-work, posts-work,
  queue_allocated, requeues-work, requeued_allocated,
}
use rockx_dkg_cli.Messenger.System.Sound.Steps.{Reach-IsSound, Step-IsSound}
use rockx_dkg_cli.Messenger.System.Rest.{Alone, work_left, by_itself, goes_on, still}
use rockx_dkg_cli.Messenger.System.Sound.Defs.{IsSound}
use rockx_dkg_cli.Messenger.System.{System, Reach, boot, Step}
use rockx_dkg_cli.Messenger.Incoming.{Decoders}
use rockx_dkg_cli.Prelude.{ℕ, ◌+◌, ◌≤◌, ◌≡◌, true, arith, Bytes}

module _ (d : Decoders) (retry_key : Bytes → Bytes) where
  -- Every step of a worker or of the runner takes at least one from the work that is left.
  Step-work :
      {w u : System}
      → IsSound w
      → (st : Step d retry_key w u) → by_itself d retry_key st ≡ true
      → work_left retry_key u + 1 ≤ work_left retry_key w
  Step-work v (starts w j rest r e f) a =
      omega (arith, starts-work d retry_key w r j.fn, started-work d retry_key w r j rest e f)
  Step-work v (receives w msg rest e f g) a = receives-work d retry_key w msg rest f
  Step-work v (forwards w msg s ss e room) a = forwards-work d retry_key w msg s ss e
  Step-work v (finishes w msg e) a = finishes-work d retry_key w msg e
  Step-work v (posts w s msg rest result e f) a =
      posts-work d retry_key w s msg rest result (queue_allocated w v s msg rest f) f
  Step-work v (requeues w s msg e room) a =
      requeues-work d retry_key w s msg (requeued_allocated w v s msg e) e
  Step-work v (publishes w topic body room) a = ground arith
  Step-work v (creates w body) a = ground arith
  Step-work v (deletes w topic) a = ground arith
  Step-work v (streams_output w id body) a = ground arith
  Step-work v (streams_blame w id body) a = ground arith
  Step-work v (registers w topic body room) a = ground arith

  -- A run of its own steps keeps the system sound, and each step is paid for.
  pub Alone-work :
      (w u : System) (n : ℕ)
      → IsSound w
      → Alone d retry_key w n u
      → IsSound u × (n + work_left retry_key u ≤ work_left retry_key w)
  Alone-work w u n v still = (v, omega arith)
  Alone-work w u n v (goes_on run st own) =
      let (sound, paid) = Alone-work w _ _ v run in
      (Step-IsSound d retry_key st sound, omega (arith, Step-work sound st own, paid))

  -- The messenger, left alone, comes to rest: whatever state it has reached from its start, in whatever
  -- order its workers and its runner go on from there, and whatever the nodes answer, they make only so
  -- many steps. The bound is `work_left` of that state, which counts for each message on its way the
  -- subscribers of all topics and for each of them the requests that it may still make. No message goes
  -- round for ever.
  pub comes_to_rest :
      (w u : System) (n : ℕ)
      → Reach d retry_key boot w
      → Alone d retry_key w n u
      → n + work_left retry_key u ≤ work_left retry_key w
  comes_to_rest w u n reach run = (Alone-work w u n (Reach-IsSound d retry_key reach) run).1
