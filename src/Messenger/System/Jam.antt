-- ===== src/Messenger/System/Jam.antt =====
-- A worker that puts a message back on its own full channel never runs again.
use rockx_dkg_cli.Prelude.{
  ℕ, ◌<◌, ◌≡◌, refl, ap, ◌∙◌, ◌≢◌, inl, inr, ◌||◌, Option, none, some, arith, Bool-cases,
  Option-cases, length, All, All-append, Bytes, lookup, Heap, put, bytes_key, List, ◌∷◌, nat_key,
}
use rockx_dkg_cli.Workers.{Runner, Job, add_job, run_once}
use rockx_dkg_cli.Messenger.State.{
  Messenger, Message, Subscriber, Worker, process_incoming, process_outgoing, topic_at,
}
use rockx_dkg_cli.Messenger.Register.{
  SubscriberJson, register, register_new, register_existing, register_body, is_empty,
  handle_node_registration,
}
use rockx_dkg_cli.Messenger.System.{System, queue_of, channel_room, requeueing, launch, run_once}
use rockx_dkg_cli.Messenger.System.Grows.{Grows}

-- A job that starts neither the worker of `s` nor the worker of the incoming channel.
abbrev pub Elsewhere : ℕ → Job Worker → Type 0
Elsewhere s j = (j.fn ≢ process_outgoing s) × (j.fn ≢ process_incoming)

-- The worker of `s` waits to send `msg` on the channel that only it reads, the channel is full, and
-- no job is left that would start the two workers anew.
pub record IsJammed (s : ℕ) (msg : Message) (w : System) : Type 0 where
  pub exists : s < w.messenger.subscriber_heap.next
  pub held : w.sender s ≡ requeueing msg
  pub full : length (queue_of w s) ≡ channel_room
  pub jobs : All (Elsewhere s) w.runner.incoming_jobs

pub outgoing-injective : {a b : ℕ} → process_outgoing a ≡ process_outgoing b → a ≡ b
outgoing-injective e = cc

registered_jobs :
    (s : ℕ) (k n addr : Bytes) (t : ℕ) (m : Messenger) (r : Runner Worker)
    → s < m.subscriber_heap.next
    → All (Elsewhere s) r.incoming_jobs
    → All (Elsewhere s) (register k t n addr (m, r)).1.incoming_jobs
unfolding register register_new register_existing add_job
registered_jobs s k n addr t m r b a = elim (Option-cases (lookup n (topic_at m t).subscribers)) [
  | inl f ↦
      rw (f, register)
        (All-append _ r.incoming_jobs _ a
          ((λ e. absurd (omega (arith, outgoing-injective e)), λ e. cc), tt))
  | inr (x, f) ↦ rw (f, register) a
]

body_jobs :
    (s : ℕ) (k : Bytes) (t : ℕ) (body : Option SubscriberJson) (m : Messenger) (r : Runner Worker)
    → s < m.subscriber_heap.next
    → All (Elsewhere s) r.incoming_jobs
    → All (Elsewhere s) (register_body k t body (m, r)).0.1.incoming_jobs
unfolding register_body
body_jobs s k t none m r b a = a
body_jobs s k t (some json) m r b a =
    elim (Bool-cases (is_empty json.name || is_empty json.srv_addr)) [
      | inl q ↦ rw q a
      | inr q ↦ rw q (registered_jobs s k json.name json.srv_addr t m r b a)
    ]

pub registration_jobs :
    (s : ℕ) (k : Bytes) (body : Option SubscriberJson) (m : Messenger) (r : Runner Worker)
    → s < m.subscriber_heap.next
    → All (Elsewhere s) r.incoming_jobs
    → All (Elsewhere s) (handle_node_registration k body (m, r)).0.1.incoming_jobs
registration_jobs s k body m r b a = elim (Option-cases (lookup k m.topics)) [
  | inl f ↦ unfold handle_node_registration in rw (f, handle_node_registration) a
  | inr (t, f) ↦
      unfold handle_node_registration in
      rw (f, handle_node_registration) (body_jobs s k t body m r b a)
]

-- The runner takes the oldest job.
pub run_once_jobs :
    (r r' : Runner Worker) (j : Job Worker) (rest : List (Job Worker))
    → r.incoming_jobs ≡ j ∷ rest
    → run_once r ≡ some r'
    → r'.incoming_jobs ≡ rest
unfolding run_once
run_once_jobs r r' j rest e f = ground arith

pub launch_rest :
    (j : Worker) (w : System)
    → ((launch j w).messenger ≡ w.messenger) × ((launch j w).runner ≡ w.runner)
unfolding launch
launch_rest process_incoming w = (refl, refl)
launch_rest (process_outgoing x) w = (refl, refl)

module _ (s : ℕ) (msg : Message) where
  pub handler-IsJammed :
      (w : System) (m' : Messenger) (r' : Runner Worker)
      → Grows w.messenger m'
      → All (Elsewhere s) r'.incoming_jobs
      → IsJammed s msg w
      → IsJammed s msg (record w { messenger = m'; runner = r' })
  handler-IsJammed w m' r' g a v = record {
    exists = omega (arith, g.next_le, v.exists);
    held = v.held;
    full = ap length (g.queue_same s v.exists) ∙ v.full;
    jobs = a;
  }

  -- Another subscriber is replaced.
  pub other_queue :
      (j : ℕ) (sub : Subscriber) (h : Heap Subscriber) → j ≢ s → (put h j sub).cell s ≡ h.cell s
  other_queue j sub h ne = ground arith

  pub launch_keeps :
      (j : Worker) (w : System) → j ≢ process_outgoing s → (launch j w).sender s ≡ w.sender s
  unfolding launch
  launch_keeps process_incoming w ne = refl
  launch_keeps (process_outgoing x) w ne = ground arith
