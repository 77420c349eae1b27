-- ===== src/Web/Plain.antt =====
-- Hexadecimal texts in URLs.
use rockx_dkg_cli.Go.Hex.{IsByte}
use rockx_dkg_cli.Web.{is_plain, IsPlain, IsSegment}
use rockx_dkg_cli.Prelude.{
  ℕ, ◌/◌, ◌%◌, ◌<◌, ◌≡◌, true, false, [], ◌∷◌, arith, ◌==◌, All, All-imp, Bytes, refl, ◌≢◌,
}
use rockx_dkg_cli.Go.Hex

hex_digit-segment :
    (n : ℕ) → n < 16 → (is_plain (Hex.hex_digit n) ≡ true) × ((Hex.hex_digit n == 47) ≡ false)
unfolding Hex.hex_digit
hex_digit-segment n h = ground arith

pub encode-segment :
    (s : Bytes) → All IsByte s → All (λ c. (is_plain c ≡ true) × ((c == 47) ≡ false)) (Hex.encode s)
unfolding Hex.encode
encode-segment [] h = tt
encode-segment (b ∷ s) (hb, hs) = (
  hex_digit-segment (b / 16) (omega (arith, hb)),
  (hex_digit-segment (b % 16) (omega arith), encode-segment s hs),
)

pub segment-IsPlain :
    (s : Bytes) → All (λ c. (is_plain c ≡ true) × ((c == 47) ≡ false)) s → IsPlain s
segment-IsPlain s h = All-imp _ _ s (λ c p. p.0) h

pub encode-IsSegment : (s : Bytes) → All IsByte s → s ≢ [] → IsSegment (Hex.encode s)
unfolding Hex.encode
encode-IsSegment [] h filled = absurd (filled refl)
encode-IsSegment (b ∷ s) h filled = (ground arith, encode-segment (b ∷ s) h)
