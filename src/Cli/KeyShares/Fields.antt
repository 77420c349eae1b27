-- ===== src/Cli/KeyShares/Fields.antt =====
-- The parts of a keyshares file: internal/cli/keyshares.go.
use rockx_dkg_cli.Registry.{OperatorResponse}
use rockx_dkg_cli.Cli.Results.Agreement.{Says, agreed_filled}
use rockx_dkg_cli.Cli.KeyShares.Sorted.{place_id-All}
use rockx_dkg_cli.Net.{World, Request, ok, ok-injective}
use rockx_dkg_cli.Cli.KeyShares.{
  to_uint32, key_shares_of, assemble, output_at, sort_ids, OperatorData, KeyShares, zero_x,
  shares_to_bytes, public_keys, encrypted_keys,
}
use rockx_dkg_cli.Cli.Results.{SignedText, vk_texts, agreed}
use rockx_dkg_cli.Prelude.{
  ℕ, ◌%◌, ◌^◌, ◌<◌, ◌≡◌, sym, ap, subst, inl, inr, true, Option, none, some, List, [], ◌∷◌, map,
  arith, ◌==◌, Bool-cases, All, All-imp, Bytes, GoMap, lookup, bytes_key, nat_key,
}

-- A map's own keys read the texts of its entries.
output_at-Says :
    (vk : Bytes) (m : GoMap ℕ SignedText)
    → All (Says vk) (vk_texts m)
    → All (λ p. Says vk (output_at m p.0).validator_pub_key) m
unfolding output_at lookup
output_at-Says vk [] h = tt
output_at-Says vk ((j, w) ∷ m) (hw, hs) =
    let own : (j == j) ≡ true = ground arith in
    (
      rw (output_at, own) hw,
      All-imp (λ p. Says vk (output_at m p.0).validator_pub_key)
          (λ p. Says vk (output_at ((j, w) ∷ m) p.0).validator_pub_key) m
          (λ p says. elim (Bool-cases (j == p.0)) [
            | inl same ↦ rw (output_at, same) hw
            | inr other ↦ rw (output_at, other) says
          ])
          (output_at-Says vk m hs),
    )

pub sort_ids-All : (P : ℕ → Type 0) (xs : List ℕ) → All P xs → All P (sort_ids xs)
unfolding sort_ids
sort_ids-All P [] h = tt
sort_ids-All P (x ∷ xs) (hx, hs) = place_id-All P x (sort_ids xs) hx (sort_ids-All P xs hs)

to_uint32-All :
    (P : ℕ → Type 0) (m : GoMap ℕ SignedText)
    → All (λ p. p.0 < 2 ^ 32) m
    → All (λ p. P p.0) m
    → All P (map (λ p. to_uint32 p.0) m)
unfolding to_uint32
to_uint32-All P [] fits h = tt
to_uint32-All P ((i, o) ∷ m) (fit, fits) (hi, h) =
    let same : i ≡ i % 2 ^ 32 = omega (arith, fit) in (subst P same hi, to_uint32-All P m fits h)

-- The keys of a map, cut to 32 bits, read the texts of its entries where they fit.
pub cut_keys-Says :
    (vk : Bytes) (m : GoMap ℕ SignedText)
    → All (λ p. p.0 < 2 ^ 32) m
    → All (Says vk) (vk_texts m)
    → All (λ i. Says vk (output_at m i).validator_pub_key) (map (λ p. to_uint32 p.0) m)
cut_keys-Says vk m fits says =
    to_uint32-All (λ i. Says vk (output_at m i).validator_pub_key) m fits (output_at-Says vk m says)

pub assemble-fields :
    (m : GoMap ℕ SignedText) (prefix : Bytes) (operators : List OperatorData) (ids : List ℕ)
    (P : Bytes → Type 0) (ks : KeyShares)
    → All (λ i. P (output_at m i).validator_pub_key) ids
    → assemble m prefix operators ids ≡ ok ks
    → ((key : Bytes) × (ks.payload.public_key ≡ zero_x key) × P key)
      × (ks.payload.operator_ids ≡ ids)
      × (ks.payload.shares ≡ shares_to_bytes (public_keys m ids) (encrypted_keys m ids) prefix)
unfolding assemble
assemble-fields m prefix operators [] P ks all h = ground (arith, h)
assemble-fields m prefix operators (i ∷ ids) P ks (first, all) h =
    let e = ok-injective (sym h) in
    (
      ((output_at m i).validator_pub_key, ap (λ k. k.payload.public_key) e, first),
      ap (λ k. k.payload.operator_ids) e,
      ap (λ k. k.payload.shares) e,
    )

-- What the range over no outputs gives is an error.
pub some_outputs :
    (world : World) (parse_operator : Bytes → Option OperatorResponse) (m : GoMap ℕ SignedText)
    (prefix : Bytes) (sent : List Request) (ks : KeyShares) (o : Option Bytes)
    → (key_shares_of world parse_operator m prefix sent).0 ≡ ok ks
    → agreed none (vk_texts m) ≡ ok o
    → (v : Bytes) × (o ≡ some v) × All (Says v) (vk_texts m)
unfolding key_shares_of
some_outputs world parse_operator [] prefix sent ks o h a = ground (arith, h)
some_outputs world parse_operator ((i, t) ∷ m) prefix sent ks o h a =
    agreed_filled t.output.validator_pub_key (vk_texts m) o a
