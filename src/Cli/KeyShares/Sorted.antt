-- ===== src/Cli/KeyShares/Sorted.antt =====
-- The order of the operators in a keyshares file.
use rockx_dkg_cli.Dkg.{BlameOutput}
use rockx_dkg_cli.Cli.Results.{SignedText, DkgResult}
use rockx_dkg_cli.Registry.{OperatorResponse, get_operator_from_registry_by_id}
use rockx_dkg_cli.Net.{World, Request, ok, after-ok, Exec}
use rockx_dkg_cli.Cli.KeyShares.{
  sort_ids, sort_operators, place, OperatorData, place_id, operator_data, to_uint32, assemble,
  generate_keyshare_v4, key_shares_of, KeyShares, unless_blamed,
}
use rockx_dkg_cli.Prelude.{
  ℕ, ◌≤◌, ◌≡◌, refl, ap, ◌∙◌, inl, inr, List, [], ◌∷◌, map, arith, leb, Bool-cases, All, All-imp,
  true, false, Option, Bytes, GoMap, sym, subst, none, some,
}

abbrev pub ids_of : List OperatorData → List ℕ
ids_of = map (λ o. o.id)

abbrev pub IsSorted : List ℕ → Type 0
IsSorted [] = Unit
IsSorted (x ∷ xs) = All (λ y. x ≤ y) xs × IsSorted xs

leb_le : (x y : ℕ) → leb x y ≡ true → x ≤ y
leb_le x y h = ground (arith, h)

leb_gt : (x y : ℕ) → leb x y ≡ false → y ≤ x
leb_gt x y h = ground (arith, h)

map-place :
    (x : OperatorData) (ys : List OperatorData) → ids_of (place x ys) ≡ place_id x.id (ids_of ys)
unfolding place place_id
map-place x [] = refl
map-place x (y ∷ ys) = ground (arith, map-place x ys)

map-sort_operators : (xs : List OperatorData) → ids_of (sort_operators xs) ≡ sort_ids (ids_of xs)
unfolding sort_operators sort_ids
map-sort_operators [] = refl
map-sort_operators (x ∷ xs) =
    map-place x (sort_operators xs) ∙ ap (place_id x.id) (map-sort_operators xs)

pub place_id-All : (P : ℕ → Type 0) (x : ℕ) (ys : List ℕ) → P x → All P ys → All P (place_id x ys)
unfolding place_id
place_id-All P x [] hx h = (hx, tt)
place_id-All P x (y ∷ ys) hx (hy, hs) = elim (Bool-cases (leb x y)) [
  | inl below ↦ rw below (hx, (hy, hs))
  | inr above ↦ rw above (hy, place_id-All P x ys hx hs)
]

place_id-IsSorted : (x : ℕ) (ys : List ℕ) → IsSorted ys → IsSorted (place_id x ys)
unfolding place_id
place_id-IsSorted x [] h = (tt, tt)
place_id-IsSorted x (y ∷ ys) (hy, hs) = elim (Bool-cases (leb x y)) [
  | inl below ↦ rw below (
    (
      leb_le x y below,
      All-imp (λ z. y ≤ z) (λ z. x ≤ z) ys (λ z h. omega (arith, h, leb_le x y below)) hy,
    ),
    (hy, hs),
  )
  | inr above ↦
      rw above (place_id-All (λ z. y ≤ z) x ys (leb_gt x y above) hy, place_id-IsSorted x ys hs)
]

pub sort_ids-IsSorted : (xs : List ℕ) → IsSorted (sort_ids xs)
unfolding sort_ids
sort_ids-IsSorted [] = tt
sort_ids-IsSorted (x ∷ xs) = place_id-IsSorted x (sort_ids xs) (sort_ids-IsSorted xs)

ids_of-operator_data :
    (world : World) (parse : Bytes → Option OperatorResponse) (m : GoMap ℕ SignedText)
    (sent : List Request) (operators : List OperatorData)
    → (operator_data world parse m sent).0 ≡ ok operators
    → ids_of operators ≡ map (λ p. to_uint32 p.0) m
unfolding operator_data
ids_of-operator_data world parse [] sent operators h = ground (arith, h)
ids_of-operator_data world parse ((i, o) ∷ os) sent operators h =
    let found = get_operator_from_registry_by_id world parse i sent in
    let (operator, p, h1) = after-ok _ found.0 found.1 operators h in
    let others = operator_data world parse os found.1 in
    let (rest, q, h2) = after-ok _ others.0 others.1 operators h1 in
    let tail = ids_of-operator_data world parse os found.1 rest q in ground (arith, h2, tail)

ids_of-assemble :
    (m : GoMap ℕ SignedText) (prefix : Bytes) (operators : List OperatorData) (ids : List ℕ)
    (ks : KeyShares)
    → assemble m prefix operators ids ≡ ok ks
    → (ks.share_data.operators ≡ operators) × (ks.payload.operator_ids ≡ ids)
unfolding assemble
ids_of-assemble m prefix operators [] ks h = ground (arith, h)
ids_of-assemble m prefix operators (i ∷ ids) ks h = ground (arith, h)

key_shares_of-IsSorted :
    (world : World) (parse : Bytes → Option OperatorResponse) (m : GoMap ℕ SignedText)
    (prefix : Bytes) (sent : List Request) (ks : KeyShares)
    → (key_shares_of world parse m prefix sent).0 ≡ ok ks
    → IsSorted ks.payload.operator_ids
      × (ks.payload.operator_ids ≡ sort_ids (map (λ p. to_uint32 p.0) m))
      × (ids_of ks.share_data.operators ≡ ks.payload.operator_ids)
unfolding key_shares_of
key_shares_of-IsSorted world parse [] prefix sent ks h = ground (arith, h)
key_shares_of-IsSorted world parse (o ∷ os) prefix sent ks h =
    let found = operator_data world parse (o ∷ os) sent in
    let (operators, p, h1) = after-ok _ found.0 found.1 ks h in
    let ids : List ℕ = map (λ p. to_uint32 p.0) (o ∷ os) in
    let (q, r) = ids_of-assemble (o ∷ os) prefix (sort_operators operators) (sort_ids ids) ks h1 in
    (
      subst IsSorted (sym r) (sort_ids-IsSorted ids),
      r,
      ap ids_of q
          ∙ map-sort_operators operators
          ∙ ap sort_ids (ids_of-operator_data world parse (o ∷ os) sent operators p)
          ∙ sym r,
    )

pub unblamed :
    (b : Option BlameOutput) (program : Exec KeyShares) (sent : List Request) (ks : KeyShares)
    → (unless_blamed b program sent).0 ≡ ok ks
    → (b ≡ none) × ((program sent).0 ≡ ok ks)
unfolding unless_blamed
unblamed none program sent ks h = (refl, h)
unblamed (some b) program sent ks h = ground (arith, h)

-- Where a keyshares file is generated, its payload lists the identifiers of the operators with
-- results, cut to 32 bits, in ascending order, and the list of the operators' data, which is sorted on
-- its own, has the same identifiers in the same order.
pub generate_keyshare_v4-IsSorted :
    (world : World) (parse : Bytes → Option OperatorResponse) (result : DkgResult) (prefix : Bytes)
    (sent : List Request) (ks : KeyShares)
    → (generate_keyshare_v4 world parse result prefix sent).0 ≡ ok ks
    → IsSorted ks.payload.operator_ids
      × (ks.payload.operator_ids ≡ sort_ids (map (λ p. to_uint32 p.0) result.outputs))
      × (ids_of ks.share_data.operators ≡ ks.payload.operator_ids)
unfolding generate_keyshare_v4
generate_keyshare_v4-IsSorted world parse result prefix sent ks h =
    key_shares_of-IsSorted world parse result.outputs prefix sent ks
      (unblamed result.blame (key_shares_of world parse result.outputs prefix) sent ks h).1

key_shares_assembled :
    (world : World) (parse : Bytes → Option OperatorResponse) (m : GoMap ℕ SignedText)
    (prefix : Bytes) (sent : List Request) (ks : KeyShares)
    → (key_shares_of world parse m prefix sent).0 ≡ ok ks
    → (operators : List OperatorData) × (assemble m prefix operators
          (sort_ids (map (λ p. to_uint32 p.0) m))
        ≡ ok ks)
unfolding key_shares_of
key_shares_assembled world parse [] prefix sent ks h = ground (arith, h)
key_shares_assembled world parse (o ∷ os) prefix sent ks h =
    let r = operator_data world parse (o ∷ os) sent in
    let (operators, p, h1) = after-ok _ r.0 r.1 ks h in (sort_operators operators, h1)

-- A keyshares file is put together from the sorted identifiers.
pub assembled :
    (world : World) (parse : Bytes → Option OperatorResponse) (result : DkgResult) (prefix : Bytes)
    (sent : List Request) (ks : KeyShares)
    → (generate_keyshare_v4 world parse result prefix sent).0 ≡ ok ks
    → (operators : List OperatorData) × (assemble result.outputs prefix operators
          (sort_ids (map (λ p. to_uint32 p.0) result.outputs))
        ≡ ok ks)
unfolding generate_keyshare_v4
assembled world parse result prefix sent ks h =
    key_shares_assembled world parse result.outputs prefix sent ks
      (unblamed result.blame (key_shares_of world parse result.outputs prefix) sent ks h).1
