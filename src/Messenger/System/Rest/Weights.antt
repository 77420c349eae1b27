-- ===== src/Messenger/System/Rest/Weights.antt =====
-- How the work on a channel and of a round changes.
use rockx_dkg_cli.Messenger.Outgoing.Retries.{account-budget}
use rockx_dkg_cli.Messenger.Outgoing.{account}
use rockx_dkg_cli.Messenger.System.Rest.{queue_work, spare}
use rockx_dkg_cli.Messenger.State.{Message}
use rockx_dkg_cli.Prelude.{
  ℕ, ◌+◌, ◌≤◌, ◌≡◌, inl, inr, some, List, [], ◌∷◌, ◌++◌, arith, Bool-cases, Option-cases, beq_refl,
  Bytes, bytes_eq, bytes_eq_iff, GoMap, lookup, insert, lookup-insert, bytes_key, nat_key,
}

module _ (retry_key : Bytes → Bytes) where
  pub queue_work-append :
      (counts : GoMap Bytes ℕ) (xs ys : List Message)
      → queue_work retry_key counts (xs ++ ys)
        ≡ queue_work retry_key counts xs + queue_work retry_key counts ys
  unfolding queue_work
  queue_work-append counts [] ys = omega arith
  queue_work-append counts (x ∷ xs) ys = omega (arith, queue_work-append counts xs ys)

  pub spare-bound : (counts : GoMap Bytes ℕ) (msg : Message) → spare retry_key counts msg ≤ 11
  spare-bound counts msg = elim (Option-cases (lookup (retry_key msg.payload) counts)) [
    | inl e ↦ rw e (omega arith)
    | inr (n, e) ↦ rw e (omega arith)
  ]

  -- Counting one more request leaves no message more to do.
  spare-counted :
      (counts : GoMap Bytes ℕ) (k : Bytes) (n : ℕ) (msg : Message)
      → account (lookup k counts) ≡ some n
      → spare retry_key (insert k n counts) msg ≤ spare retry_key counts msg
  spare-counted counts k n msg e =
      rw (lookup-insert k (retry_key msg.payload) n counts)
        (elim (Bool-cases (bytes_eq k (retry_key msg.payload))) [
          | inl same ↦
              rw (same, ← (bytes_eq_iff k (retry_key msg.payload)).0 same)
                (omega (arith, account-budget (lookup k counts) n e))
          | inr other ↦ rw other (omega arith)
        ])

  pub queue_work-counted :
      (counts : GoMap Bytes ℕ) (k : Bytes) (n : ℕ) (msgs : List Message)
      → account (lookup k counts) ≡ some n
      → queue_work retry_key (insert k n counts) msgs ≤ queue_work retry_key counts msgs
  unfolding queue_work
  queue_work-counted counts k n [] e = omega arith
  queue_work-counted counts k n (m ∷ msgs) e =
      omega (arith, queue_work-counted counts k n msgs e, spare-counted counts k n m e)

  pub spare-spent :
      (counts : GoMap Bytes ℕ) (msg : Message) (n : ℕ)
      → account (lookup (retry_key msg.payload) counts) ≡ some n
      → spare retry_key (insert (retry_key msg.payload) n counts) msg + 1
        ≤ spare retry_key counts msg
  spare-spent counts msg n e =
      rw (lookup-insert (retry_key msg.payload) (retry_key msg.payload) n counts) (
        rw (beq_refl (retry_key msg.payload))
          (account-budget (lookup (retry_key msg.payload) counts) n e))
