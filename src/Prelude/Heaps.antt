-- ===== src/Prelude/Heaps.antt =====
-- Objects behind Go pointers: a reference is the number of its cell, and references are never reused.
use Prim.Native.Nat.{ℕ, ◌+◌}
use rockx_dkg_cli.Prelude.Tests.{◌==◌, if◌then◌else◌}

pub record Heap (A : Type 0) : Type 0 where
  pub cell : ℕ → A
  pub next : ℕ

module _ {A : Type 0} where
  -- *r = a
  abbrev pub put : Heap A → ℕ → A → Heap A
  put h r a = record h { cell = λ j. if r == j then a else h.cell j }

  -- &a
  abbrev pub alloc : Heap A → A → Heap A
  alloc h a = record { cell = λ j. if h.next == j then a else h.cell j; next = h.next + 1 }
