-- ===== src/Go/Hex.antt =====
-- encoding/hex: EncodeToString and DecodeString.
use rockx_dkg_cli.Prelude.{
  ℕ, ◌+◌, ◌-◌, ◌*◌, ◌/◌, ◌%◌, ◌<◌, ◌≡◌, refl, inl, inr, Bool, true, false, ◌&&◌, [], ◌∷◌, ◌++◌,
  Option, none, some, arith, Bytes, ltb, leb, if◌then◌else◌, Option-cases, All, length,
}

unfoldable pub hex_digit : ℕ → ℕ
hex_digit n = if ltb n 10 then 48 + n else 87 + n

unfoldable pub encode : Bytes → Bytes
unfolding hex_digit
encode [] = []
encode (b ∷ s) = hex_digit (b / 16) ∷ hex_digit (b % 16) ∷ encode s

-- The value of a digit; both cases are read.
hex_value : ℕ → Option ℕ
hex_value c =
    if leb 48 c && leb c 57
    then some (c - 48)
    else if leb 97 c && leb c 102
    then some (c - 87)
    else if leb 65 c && leb c 70
    then some (c - 55)
    else none

-- What a slice of bytes and an error hold.
pub record Decoded : Type 0 where
  pub bytes : Bytes
  pub valid : Bool

pair_value : Option ℕ → Option ℕ → Option ℕ
pair_value (some h) (some l) = some (16 * h + l)
pair_value _ _ = none

onto : Option ℕ → Decoded → Decoded
onto none rest = record { bytes = []; valid = false }
onto (some b) rest = record { bytes = b ∷ rest.bytes; valid = rest.valid }

-- Up to the first pair that is no byte; an odd length is an error.
unfoldable pub decode : Bytes → Decoded
unfolding hex_value pair_value onto
decode [] = record { bytes = []; valid = true }
decode (c ∷ []) = record { bytes = []; valid = false }
decode (c ∷ d ∷ s) = onto (pair_value (hex_value c) (hex_value d)) (decode s)

abbrev pub IsByte : ℕ → Type 0
IsByte b = b < 256

hex_value-hex_digit : (n : ℕ) → n < 16 → hex_value (hex_digit n) ≡ some n
unfolding hex_value hex_digit
hex_value-hex_digit n h = ground arith

-- Decoding what was encoded gives the bytes back.
pub decode-encode :
    (s : Bytes) → All IsByte s → decode (encode s) ≡ record { bytes = s; valid = true }
unfolding decode encode
decode-encode [] h = refl
decode-encode (b ∷ s) (hb, hs) =
    ground (arith, hex_value-hex_digit (b / 16), hex_value-hex_digit (b % 16), decode-encode s hs)

pub encode-append : (s t : Bytes) → encode (s ++ t) ≡ encode s ++ encode t
unfolding encode
encode-append [] t = refl
encode-append (b ∷ s) t = ground (arith, encode-append s t)

hex_value_lt : (c v : ℕ) → hex_value c ≡ some v → v < 16
unfolding hex_value
hex_value_lt c v h = ground arith

pair_value-IsByte : (c d b : ℕ) → pair_value (hex_value c) (hex_value d) ≡ some b → IsByte b
unfolding pair_value
pair_value-IsByte c d b e = elim (Option-cases (hex_value c)) [
  | inl n ↦ ground arith
  | inr (h, eh) ↦ elim (Option-cases (hex_value d)) [
    | inl n ↦ ground arith
    | inr (l, el) ↦ ground (arith, hex_value_lt c h eh, hex_value_lt d l el)
  ]
]

onto-IsByte :
    (o : Option ℕ) (d : Decoded)
    → ((b : ℕ) → o ≡ some b → IsByte b)
    → All IsByte d.bytes
    → All IsByte (onto o d).bytes
unfolding onto
onto-IsByte none d h k = tt
onto-IsByte (some b) d h k = (h b refl, k)

-- Whatever the text, decoding gives bytes.
pub decode-IsByte : (s : Bytes) → All IsByte (decode s).bytes
unfolding decode
decode-IsByte [] = tt
decode-IsByte (c ∷ []) = tt
decode-IsByte (c ∷ d ∷ s) = onto-IsByte _ (decode s) (pair_value-IsByte c d) (decode-IsByte s)

pub length-encode : (s : Bytes) → length (encode s) ≡ 2 * length s
unfolding encode
length-encode [] = refl
length-encode (b ∷ s) = omega (arith, length-encode s)
