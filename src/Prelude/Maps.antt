-- ===== src/Prelude/Maps.antt =====
-- Go's maps: a key is bound once, `range` meets the entries in an order that nothing may rely on
-- (here the order of the list: a theorem about every map is a theorem about every order).
use mathlib.Core.Path.{◌≡◌, refl, subst, sym, ◌∙◌}
use mathlib.Core.Bool.{Bool, true, false, ◌||◌}
use mathlib.Core.Option.{Option, none, some}
use mathlib.Core.List.{List, [], ◌∷◌, ◌++◌, map, append_assoc, append-nil}
use native.Mathlib.Omega.{arith}
use rockx_dkg_cli.Prelude.Lists.{All, All-imp}
use rockx_dkg_cli.Prelude.Tests.{beq_refl, if◌then◌else◌, Eq, Bool-cases}
use mathlib.Core.Logic.{inl, inr, ◌≢◌}

abbrev pub GoMap : Type 0 → Type 0 → Type 0
GoMap K V = List (K × V)

abbrev pub keys : {K V : Type 0} → GoMap K V → List K
keys = map (λ p. p.0)

module _ {K V : Type 0} ⦃e : Eq K⦄ where
  -- v, ok := m[k]
  unfoldable pub lookup : K → GoMap K V → Option V
  lookup k [] = none
  lookup k ((j, v) ∷ m) = if e.beq j k then some v else lookup k m

  -- m[k] = v
  unfoldable pub insert : K → V → GoMap K V → GoMap K V
  insert k v [] = (k, v) ∷ []
  insert k v ((j, w) ∷ m) = if e.beq j k then (k, v) ∷ m else (j, w) ∷ insert k v m

  -- delete(m, k)
  unfoldable pub remove : K → GoMap K V → GoMap K V
  remove k [] = []
  remove k ((j, w) ∷ m) = let rest = remove k m in if e.beq j k then rest else (j, w) ∷ rest

  pub lookup-insert :
      (k j : K) (v : V) (m : GoMap K V)
      → lookup j (insert k v m) ≡ (if e.beq k j then some v else lookup j m)
  unfolding lookup insert
  lookup-insert k j v [] = refl
  lookup-insert k j v ((i, w) ∷ m) =
      ground (arith, e.beq_iff k j, e.beq_iff i k, e.beq_iff i j, lookup-insert k j v m)

  pub lookup-remove :
      (k j : K) (m : GoMap K V) → lookup j (remove k m) ≡ (if e.beq k j then none else lookup j m)
  unfolding lookup remove
  lookup-remove k j [] = ground arith
  lookup-remove k j ((i, w) ∷ m) =
      ground (arith, e.beq_iff k j, e.beq_iff i k, e.beq_iff i j, lookup-remove k j m)

  -- Every key of a map is bound once.
  abbrev pub Distinct : GoMap K V → Type 0
  Distinct [] = Unit
  Distinct ((k, v) ∷ m) = (lookup k m ≡ none) × Distinct m

  pub insert-Distinct : (k : K) (v : V) (m : GoMap K V) → Distinct m → Distinct (insert k v m)
  unfolding insert lookup
  insert-Distinct k v [] d = (refl, tt)
  insert-Distinct k v ((j, w) ∷ m) (fresh, d) = elim (Bool-cases (e.beq j k)) [
    | inl same ↦ rw same (ground (arith, e.beq_iff j k, fresh), d)
    | inr other ↦ rw other (
      ground (arith, e.beq_iff j k, e.beq_iff k j, fresh, lookup-insert k j v m),
      insert-Distinct k v m d,
    )
  ]

  -- _, ok := m[k]
  abbrev pub has : K → GoMap K V → Bool
  has k m = elim (lookup k m) [ none ↦ false | some v ↦ true ]

  pub has-insert : (k j : K) (v : V) (m : GoMap K V) → has j (insert k v m) ≡ (e.beq k j || has j m)
  has-insert k j v m = ground (arith, lookup-insert k j v m)

  pub remove-Distinct : (k : K) (m : GoMap K V) → Distinct m → Distinct (remove k m)
  unfolding remove
  remove-Distinct k [] d = tt
  remove-Distinct k ((j, w) ∷ m) (fresh, d) = elim (Bool-cases (e.beq j k)) [
    | inl same ↦ rw same (remove-Distinct k m d)
    | inr other ↦
        rw other (ground (arith, e.beq_iff k j, fresh, lookup-remove k j m), remove-Distinct k m d)
  ]

  lookup_behind :
      (k j : K) (v w : V) (m : GoMap K V)
      → lookup k m ≡ none
      → lookup j m ≡ some w
      → lookup j ((k, v) ∷ m) ≡ some w
  lookup_behind k j v w m fresh h = elim (Bool-cases (e.beq k j)) [
    | inl same ↦ absurd (cc (subst (λ z. lookup z m ≡ none) ((e.beq_iff k j).0 same) fresh, h))
    | inr other ↦ unfold lookup in rw other h
  ]

  -- `range` meets the entries that `lookup` finds.
  pub entries_found : (m : GoMap K V) → Distinct m → All (λ p. lookup p.0 m ≡ some p.1) m
  entries_found [] d = tt
  entries_found ((k, v) ∷ m) (fresh, d) = (
    unfold lookup in rw (beq_refl k),
    All-imp _ _ m (λ p h. lookup_behind k p.0 v p.1 m fresh h) (entries_found m d),
  )

  -- The entries of a list, set one after the other.
  abbrev pub insert_all : GoMap K V → GoMap K V → GoMap K V
  insert_all m [] = m
  insert_all m (p ∷ ps) = insert_all (insert p.0 p.1 m) ps

  lookup_middle : (m ps : GoMap K V) (k : K) (v : V) → lookup k (m ++ (k, v) ∷ ps) ≢ none
  unfolding lookup
  lookup_middle [] ps k v h = ground (arith, beq_refl k, h)
  lookup_middle ((j, w) ∷ m) ps k v h =
      ground (arith, e.beq_iff j k, beq_refl k, h, lookup_middle m ps k v)

  first_fresh : (m ps : GoMap K V) (k : K) (v : V) → Distinct (m ++ (k, v) ∷ ps) → lookup k m ≡ none
  unfolding lookup
  first_fresh [] ps k v d = refl
  first_fresh ((j, w) ∷ m) ps k v (fresh, d) = elim (Bool-cases (e.beq j k)) [
    | inl same ↦ absurd (
        lookup_middle m ps k v
          (subst (λ z. lookup z (m ++ (k, v) ∷ ps) ≡ none) ((e.beq_iff j k).0 same) fresh))
    | inr other ↦ rw other (first_fresh m ps k v d)
  ]

  insert_fresh :
      (m : GoMap K V) (k : K) (v : V) → lookup k m ≡ none → insert k v m ≡ m ++ (k, v) ∷ []
  unfolding lookup insert
  insert_fresh [] k v h = refl
  insert_fresh ((j, w) ∷ m) k v h = ground (arith, e.beq_iff j k, beq_refl k, h, insert_fresh m k v)

  pub insert_all-append : (m ps : GoMap K V) → Distinct (m ++ ps) → insert_all m ps ≡ m ++ ps
  insert_all-append m [] d = sym (append-nil m)
  insert_all-append m ((k, v) ∷ ps) d = rw (insert_fresh m k v (first_fresh m ps k v d)) (
      insert_all-append (m ++ (k, v) ∷ []) ps
        (subst Distinct (sym (append_assoc m ((k, v) ∷ []) ps)) d)
      ∙ append_assoc m ((k, v) ∷ []) ps)
