-- ===== src/Messenger/System/Sound/Defs.antt =====
-- Sound states of the messenger at work, and what handlers do to them.
use rockx_dkg_cli.Prelude.{
  ℕ, ◌≤◌, ◌<◌, ◌≡◌, ap, true, arith, length, All, All-imp, Bytes, has, bytes_key,
}
use rockx_dkg_cli.Workers.{Runner, jobs_room}
use rockx_dkg_cli.Messenger.State.{Messenger, Message, Worker, subscriber_at}
use rockx_dkg_cli.Messenger.Invariant.Defs.{IsConsistent, Follows}
use rockx_dkg_cli.Messenger.System.{System, Router, Sender, queue_of, channel_room}
use rockx_dkg_cli.Messenger.System.{fanning, requeueing}
use rockx_dkg_cli.Messenger.System.Grows.{Grows}

-- A subscriber that exists and follows the message's topic.
abbrev pub Reaches : Messenger → Message → ℕ → Type 0
Reaches m msg s = (s < m.subscriber_heap.next) × Follows (subscriber_at m s) msg

abbrev pub Fanned : Messenger → Router → Type 0
Fanned m (fanning msg ss) = All (Reaches m msg) ss
Fanned m _ = Unit

abbrev pub Held : Messenger → ℕ → Sender → Type 0
Held m s (requeueing msg) = Reaches m msg s
Held m s _ = Unit

-- The state is well-formed, every channel is within its room, and each message on its way goes to a
-- subscriber that follows its topic.
pub record IsSound (w : System) : Type 0 where
  pub consistent : IsConsistent w.messenger
  pub incoming_bounded : length w.messenger.incoming ≤ channel_room
  pub queues_bounded : (s : ℕ) → length (queue_of w s) ≤ channel_room
  pub jobs_bounded : length w.runner.incoming_jobs ≤ jobs_room
  pub unallocated : (s : ℕ) → w.messenger.subscriber_heap.next ≤ s → length (queue_of w s) ≡ 0
  pub fanned : Fanned w.messenger w.router
  pub held : (s : ℕ) → Held w.messenger s (w.sender s)

-- The messages on their way, when subscribers only come to follow more.
module _ (m m' : Messenger) (next_le : m.subscriber_heap.next ≤ m'.subscriber_heap.next)
    (more : (k : Bytes) (s : ℕ)
      → s < m.subscriber_heap.next
      → has k (subscriber_at m s).subscribes_to ≡ true
      → has k (subscriber_at m' s).subscribes_to ≡ true) where
  pub Reaches-mono : (msg : Message) (s : ℕ) → Reaches m msg s → Reaches m' msg s
  Reaches-mono msg s (a, f) = (omega arith, more msg.topic s a f)

  pub Fanned-mono : (r : Router) → Fanned m r → Fanned m' r
  Fanned-mono (fanning msg ss) f = All-imp _ _ ss (Reaches-mono msg) f
  Fanned-mono Router.off f = tt
  Fanned-mono Router.waiting f = tt

  pub Held-mono : (s : ℕ) (c : Sender) → Held m s c → Held m' s c
  Held-mono s (requeueing msg) f = Reaches-mono msg s f
  Held-mono s Sender.off f = tt
  Held-mono s Sender.waiting f = tt

pub handler-IsSound :
    (w : System) (m' : Messenger) (r' : Runner Worker)
    → Grows w.messenger m'
    → IsConsistent m'
    → length r'.incoming_jobs ≤ jobs_room
    → IsSound w
    → IsSound (record w { messenger = m'; runner = r' })
handler-IsSound w m' r' g c j v = record {
  consistent = c;
  incoming_bounded = omega (arith, ap length g.incoming_same, v.incoming_bounded);
  queues_bounded = λ s. omega (arith, g.queue_le s, v.queues_bounded s);
  jobs_bounded = j;
  unallocated = λ s h. omega (arith, g.queue_le s, v.unallocated s, g.next_le);
  fanned = Fanned-mono w.messenger m' g.next_le g.follows w.router v.fanned;
  held = λ s. Held-mono w.messenger m' g.next_le g.follows s (w.sender s) (v.held s);
}
