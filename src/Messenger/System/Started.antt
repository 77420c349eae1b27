-- ===== src/Messenger/System/Started.antt =====
-- Which workers have been started, and which wait for the runner.
pub mod Handlers
pub mod Steps
use rockx_dkg_cli.Messenger.State.{Worker, process_incoming, process_outgoing}
use rockx_dkg_cli.Workers.{Job}
use rockx_dkg_cli.Messenger.System.{System, Router, Worker, Sender}
use rockx_dkg_cli.Prelude.{ℕ, ◌<◌, ◌≡◌, ◌≢◌, ◌⊎◌, List, [], ◌∷◌, All}

abbrev pub Other : Job Worker → Type 0
Other j = j.fn ≢ process_incoming

-- The oldest job is that of the incoming channel, and no other is.
abbrev pub FirstInLine : List (Job Worker) → Type 0
FirstInLine [] = ⊥
FirstInLine (j ∷ js) = (j.fn ≡ process_incoming) × All Other js

-- A job for the subscriber at `s`.
abbrev pub HasJob : ℕ → List (Job Worker) → Type 0
HasJob s [] = ⊥
HasJob s (j ∷ js) = (j.fn ≡ process_outgoing s) ⊎ HasJob s js

abbrev pub RouterIn : Router → List (Job Worker) → Type 0
RouterIn r jobs = ((r ≡ Router.off) × FirstInLine jobs) ⊎ ((r ≢ Router.off) × All Other jobs)

-- Each worker runs or its job waits, and the job of the incoming channel comes once.
pub record Orderly (r : Router) (c : ℕ → Sender) (next : ℕ) (jobs : List (Job Worker))
    : Type 0 where
  pub router_in : RouterIn r jobs
  pub senders_in : (s : ℕ) → s < next → (c s ≢ Sender.off) ⊎ HasJob s jobs

abbrev pub IsOrderly : System → Type 0
IsOrderly w = Orderly w.router w.sender w.messenger.subscriber_heap.next w.runner.incoming_jobs
