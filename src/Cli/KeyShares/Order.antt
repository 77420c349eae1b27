-- ===== src/Cli/KeyShares/Order.antt =====
-- A keyshares file does not depend on the order of a map.
use rockx_dkg_cli.Cli.KeyShares.Sorted.{assembled}
use rockx_dkg_cli.Registry.{OperatorResponse}
use rockx_dkg_cli.Net.{ok, World, Result, Request, panics}
use rockx_dkg_cli.Cli.Results.{SignedText, no_output, DkgResult}
use rockx_dkg_cli.Cli.KeyShares.{
  output_at, sort_ids, place_id, public_keys, assemble, to_uint32, encrypted_keys, zero_x,
  OperatorData, KeyShares, ReadablePayload, shares_to_bytes, amount_text, err, cluster_text,
  generate_keyshare_v4,
}
use rockx_dkg_cli.Prelude.{
  ℕ, ◌≡◌, refl, ap, ◌∙◌, none, some, List, [], ◌∷◌, map, arith, Bytes, GoMap, keys, lookup,
  bytes_key, nat_key, sym, subst, Option,
}

-- The same elements, in another order.
pub data Shuffle : List ℕ → List ℕ → Type 0 where
  same : (xs : List ℕ) → Shuffle xs xs
  behind : (x : ℕ) {xs ys : List ℕ} → Shuffle xs ys → Shuffle (x ∷ xs) (x ∷ ys)
  swapped : (x y : ℕ) (xs : List ℕ) → Shuffle (x ∷ y ∷ xs) (y ∷ x ∷ xs)
  then : {xs ys zs : List ℕ} → Shuffle xs ys → Shuffle ys zs → Shuffle xs zs

place_id-swap : (x y : ℕ) (zs : List ℕ) → place_id x (place_id y zs) ≡ place_id y (place_id x zs)
unfolding place_id
place_id-swap x y [] = ground arith
place_id-swap x y (z ∷ zs) = ground (arith, place_id-swap x y zs)

sort_ids-Shuffle : {xs ys : List ℕ} → Shuffle xs ys → sort_ids xs ≡ sort_ids ys
unfolding sort_ids
sort_ids-Shuffle (same xs) = refl
sort_ids-Shuffle (behind x s) = ap (place_id x) (sort_ids-Shuffle s)
sort_ids-Shuffle (swapped x y xs) = place_id-swap x y (sort_ids xs)
sort_ids-Shuffle (then s t) = sort_ids-Shuffle s ∙ sort_ids-Shuffle t

map-Shuffle : (f : ℕ → ℕ) {xs ys : List ℕ} → Shuffle xs ys → Shuffle (map f xs) (map f ys)
map-Shuffle f (same xs) = same (map f xs)
map-Shuffle f (behind x s) = behind (f x) (map-Shuffle f s)
map-Shuffle f (swapped x y xs) = swapped (f x) (f y) (map f xs)
map-Shuffle f (then s t) = then (map-Shuffle f s) (map-Shuffle f t)

map-keys : (m : GoMap ℕ SignedText) → map (λ p. to_uint32 p.0) m ≡ map to_uint32 (keys m)
map-keys [] = refl
map-keys ((i, o) ∷ m) = ap (λ z. to_uint32 i ∷ z) (map-keys m)

-- Two maps that bind the same keys to the same outputs, in two orders.
abbrev pub Reordered : GoMap ℕ SignedText → GoMap ℕ SignedText → Type 0
Reordered m n = Shuffle (keys m) (keys n) × ((i : ℕ) → lookup i m ≡ lookup i n)

output_same :
    (m n : GoMap ℕ SignedText) (i : ℕ) → lookup i m ≡ lookup i n → output_at m i ≡ output_at n i
unfolding output_at
output_same m n i h = ap (λ z. elim z [ none ↦ no_output | some o ↦ o.output ]) h

abbrev payload_or : ReadablePayload → Result KeyShares → ReadablePayload
payload_or p (ok ks) = ks.payload
payload_or p (err e) = p
payload_or p panics = p

module _ (m n : GoMap ℕ SignedText) (h : (i : ℕ) → lookup i m ≡ lookup i n) where
  public_keys_same : (ids : List ℕ) → public_keys m ids ≡ public_keys n ids
  unfolding public_keys
  public_keys_same [] = refl
  public_keys_same (i ∷ ids) =
      rw (output_same m n i (h i))
        (ap (λ z. zero_x (output_at n i).share_pub_key ∷ z) (public_keys_same ids))

  encrypted_keys_same : (ids : List ℕ) → encrypted_keys m ids ≡ encrypted_keys n ids
  unfolding encrypted_keys
  encrypted_keys_same [] = refl
  encrypted_keys_same (i ∷ ids) = rw (output_same m n i (h i)) (rw (encrypted_keys_same ids) refl)

  payload_same :
      (prefix : Bytes) (ops ops2 : List OperatorData) (ids : List ℕ) (ks ks2 : KeyShares)
      → assemble m prefix ops ids ≡ ok ks
      → assemble n prefix ops2 ids ≡ ok ks2
      → ks.payload ≡ ks2.payload
  unfolding assemble
  payload_same prefix ops ops2 [] ks ks2 e f = ground (arith, e)
  payload_same prefix ops ops2 (i ∷ ids) ks ks2 e f =
      let out = output_same m n i (h i) in
      let pks = public_keys_same (i ∷ ids) in
      let eks = encrypted_keys_same (i ∷ ids) in
      sym (ap (payload_or ks.payload) e)
      ∙ (λ k. record {
        public_key = zero_x (out k).validator_pub_key;
        operator_ids = i ∷ ids;
        shares = shares_to_bytes (pks k) (eks k) prefix;
        amount = amount_text;
        cluster = cluster_text;
      })
      ∙ ap (payload_or ks2.payload) f

-- Where keyshares files are generated from two results that bind the same operators to the same
-- outputs, in two orders, with the same prefix, their payloads are equal, whatever the registry answers.
pub generate_keyshare_v4-payload :
    (world : World) (parse : Bytes → Option OperatorResponse) (result result2 : DkgResult)
    (prefix : Bytes) (sent sent2 : List Request) (ks ks2 : KeyShares)
    → Reordered result.outputs result2.outputs
    → (generate_keyshare_v4 world parse result prefix sent).0 ≡ ok ks
    → (generate_keyshare_v4 world parse result2 prefix sent2).0 ≡ ok ks2
    → ks.payload ≡ ks2.payload
generate_keyshare_v4-payload world parse result result2 prefix sent sent2 ks ks2 (shuffled, agree) e
      f =
    let (ops, p) = assembled world parse result prefix sent ks e in
    let (ops2, q) = assembled world parse result2 prefix sent2 ks2 f in
    let ids = sort_ids (map (λ z. to_uint32 z.0) result.outputs) in
    let same_ids : sort_ids (map (λ z. to_uint32 z.0) result2.outputs) ≡ ids =
      ap sort_ids (map-keys result2.outputs)
      ∙ sym (sort_ids-Shuffle (map-Shuffle to_uint32 shuffled))
      ∙ ap sort_ids (sym (map-keys result.outputs)) in
    payload_same result.outputs result2.outputs agree prefix ops ops2 ids ks ks2 p
      (subst (λ z. assemble result2.outputs prefix ops2 z ≡ ok ks2) same_ids q)
