-- ===== src/Workers.antt =====
-- internal/workers: the runner that starts the messenger's background jobs.
use rockx_dkg_cli.Prelude.{
  bytes_key, ℕ, ◌+◌, List, [], ◌∷◌, ◌++◌, Option, none, some, GoMap, lookup, insert, Bytes,
}

-- `fn` names the function that the job runs.
pub record Job (F : Type 0) : Type 0 where
  pub id : Bytes
  pub fn : F

-- `incoming_jobs` is a channel, oldest first. A cancel function is the number of its context;
-- `started` lists what `go job.Fn(&ctx)` has started, newest first.
pub record Runner (F : Type 0) : Type 0 where
  pub incoming_jobs : List (Job F)
  pub jobs : GoMap Bytes ℕ
  pub contexts : ℕ
  pub cancelled : List ℕ
  pub started : List F

abbrev pub jobs_room : ℕ
jobs_room = 10

module _ {F : Type 0} where
  unfoldable pub new_runner : Runner F
  new_runner = record { incoming_jobs = []; jobs = []; contexts = 0; cancelled = []; started = [] }

  -- The send goes through when there is room: `has_room` is its guard.
  unfoldable pub add_job : Job F → Runner F → Runner F
  add_job j r = record r { incoming_jobs = r.incoming_jobs ++ j ∷ [] }

  start : Job F → List (Job F) → Runner F → Runner F
  start j rest r = record {
    incoming_jobs = rest;
    jobs = insert j.id r.contexts r.jobs;
    contexts = r.contexts + 1;
    cancelled = r.cancelled;
    started = j.fn ∷ r.started;
  }

  -- One round of the loop of `Run`; `none` while the channel is empty.
  unfoldable pub run_once : Runner F → Option (Runner F)
  unfolding start
  run_once r = elim r.incoming_jobs [ [] ↦ none | j ∷ rest ↦ some (start j rest r) ]

  -- `none` is the call of a nil function, on an id that was never started.
  unfoldable pub cancel : Bytes → Runner F → Option (Runner F)
  cancel id r = elim (lookup id r.jobs) [
    | none ↦ none
    | some c ↦ some (record r { cancelled = c ∷ r.cancelled })
  ]
