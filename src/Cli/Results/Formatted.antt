-- ===== src/Cli/Results/Formatted.antt =====
-- What the tool reads out of the results that it formats.
use rockx_dkg_cli.Cli.Results.Agreement.{Says, get_validator_pk_iff}
use rockx_dkg_cli.Net.{ok}
use rockx_dkg_cli.Go.Hex.{IsByte}
use rockx_dkg_cli.Dkg.{SignedOutput, Output, DataStore}
use rockx_dkg_cli.Cli.Results.{
  SignedText, format_entry, format_output, vk_texts, format_outputs, keygen_text, format_results,
  DkgResult, get_validator_pk,
}
use rockx_dkg_cli.Prelude.{
  ℕ, ◌≡◌, ◌≢◌, inl, inr, Option, none, some, [], ◌∷◌, arith, ◌==◌, Bool-cases, All, Bytes, GoMap,
  insert, bytes_key, nat_key, refl, ◌⊎◌,
}
use rockx_dkg_cli.Go.Hex

-- The output of a key generation, with its validator key.
abbrev pub Generated : Bytes → Option SignedOutput → Type 0
Generated vk o =
    (s : SignedOutput) × (d : Output) × (o ≡ some s)
    × (s.key_sign_data ≡ none)
    × (s.output ≡ some d)
    × (d.validator_pub_key ≡ vk)

insert-says :
    (P : Bytes → Type 0) (i : ℕ) (v : SignedText) (m : GoMap ℕ SignedText)
    → P v.output.validator_pub_key
    → All P (vk_texts m)
    → All P (vk_texts (insert i v m))
unfolding insert
insert-says P i v [] h hs = (h, tt)
insert-says P i v ((j, w) ∷ m) h (hw, hs) = elim (Bool-cases (j == i)) [
  | inl same ↦ rw same (h, hs)
  | inr other ↦ rw other (hw, insert-says P i v m h hs)
]

insert-some : (i : ℕ) (v : SignedText) (m : GoMap ℕ SignedText) → vk_texts (insert i v m) ≢ []
unfolding insert
insert-some i v [] = ground arith
insert-some i v ((j, w) ∷ m) = ground arith

-- A formatted map, of which every validator key is the hexadecimal text of the same bytes.
Formats : Bytes → GoMap ℕ SignedText → GoMap ℕ (Option SignedOutput) → Type 0
Formats vk acc os =
    (m : GoMap ℕ SignedText) × (format_outputs acc os ≡ ok m)
    × (vk_texts m ≢ [])
    × All (Says vk) (vk_texts m)

format_entry-Generated :
    (vk : Bytes) (o : Option SignedOutput)
    → All IsByte vk
    → Generated vk o
    → (v : SignedText) × (format_entry o ≡ ok v) × Says vk v.output.validator_pub_key
unfolding format_entry format_output keygen_text
format_entry-Generated vk o bytes (s, d, is_some, no_sign, is_output, key) =
    let decoded = Hex.decode-encode vk bytes in
    (
      keygen_text s d,
      rw (is_some, format_entry, format_output, no_sign, is_output) refl,
      rw (key, decoded) (refl, refl),
    )

format_outputs-Generated :
    (vk : Bytes) (acc : GoMap ℕ SignedText) (os : GoMap ℕ (Option SignedOutput))
    → All IsByte vk
    → (vk_texts acc ≢ []) ⊎ (os ≢ [])
    → All (Says vk) (vk_texts acc)
    → All (λ p. Generated vk p.1) os
    → Formats vk acc os
unfolding Formats format_outputs
format_outputs-Generated vk acc [] bytes filled says h = (acc, refl, ground (arith, filled), says)
format_outputs-Generated vk acc ((i, o) ∷ os) bytes filled says (ho, hs) =
    let (v, formatted, says_v) = format_entry-Generated vk o bytes ho in
    rw (format_outputs, formatted)
      (format_outputs-Generated vk (insert i v acc) os bytes (inl (insert-some i v acc))
        (insert-says (Says vk) i v acc says_v says) hs)

-- The results of a key generation in which at least one operator reports, every operator reports a
-- key generation output, and all report the same validator key, are formatted without a panic, and
-- GetValidatorPK reads that validator key back from the hexadecimal texts.
pub get_validator_pk-format_results :
    (vk : Bytes) (s : DataStore)
    → All IsByte vk
    → s.blame_output ≡ none
    → s.dkg_outputs ≢ []
    → All (λ p. Generated vk p.1) s.dkg_outputs
    → (r : DkgResult) × (format_results s ≡ ok r) × (get_validator_pk r ≡ ok (some vk))
unfolding format_results Formats
get_validator_pk-format_results vk s bytes no_blame filled h =
    let (m, formatted, some_text, says) =
      format_outputs-Generated vk [] s.dkg_outputs bytes (inr filled) tt h in
    let r : DkgResult = record { outputs = m; blame = none } in
    (r, rw (no_blame, formatted) refl, (get_validator_pk_iff r vk).1 (some_text, says))
