-- ===== src/Go/Base64.antt =====
-- encoding/base64, StdEncoding: EncodeToString and DecodeString.
use rockx_dkg_cli.Prelude.{
  ℕ, ◌+◌, ◌-◌, ◌*◌, ◌/◌, ◌%◌, ◌<◌, ◌≡◌, ◌≢◌, refl, ◌&&◌, ◌||◌, [], ◌∷◌, Option, none, some, arith,
  Bytes, ltb, leb, ◌==◌, if◌then◌else◌, All,
}
use rockx_dkg_cli.Go.Hex.{IsByte}

sextet : ℕ → ℕ
sextet n =
    if ltb n 26
    then 65 + n
    else if ltb n 52
    then 71 + n
    else if ltb n 62
    then n - 4
    else if n == 62
    then 43
    else 47

unfoldable pub encode : Bytes → Bytes
unfolding sextet
encode [] = []
encode (a ∷ []) = sextet (a / 4) ∷ sextet (a % 4 * 16) ∷ b'=' ∷ b'=' ∷ []
encode (a ∷ b ∷ []) =
    sextet (a / 4) ∷ sextet (a % 4 * 16 + b / 16) ∷ sextet (b % 16 * 4) ∷ b'=' ∷ []
encode (a ∷ b ∷ c ∷ s) =
    sextet (a / 4)
    ∷ sextet (a % 4 * 16 + b / 16)
    ∷ sextet (b % 16 * 4 + c / 64)
    ∷ sextet (c % 64)
    ∷ encode s

sextet_value : ℕ → Option ℕ
sextet_value c =
    if leb 65 c && leb c 90
    then some (c - 65)
    else if leb 97 c && leb c 122
    then some (c - 71)
    else if leb 48 c && leb c 57
    then some (c + 4)
    else if c == 43
    then some 62
    else if c == 47
    then some 63
    else none

-- Line breaks are skipped.
strip : Bytes → Bytes
strip [] = []
strip (c ∷ s) = let rest = strip s in if c == 10 || c == 13 then rest else c ∷ rest

one_byte : Option ℕ → Option ℕ → Option Bytes
one_byte (some p) (some q) = some ((p * 4 + q / 16) ∷ [])
one_byte _ _ = none

two_bytes : Option ℕ → Option ℕ → Option ℕ → Option Bytes
two_bytes (some p) (some q) (some r) = some ((p * 4 + q / 16) ∷ (q % 16 * 16 + r / 4) ∷ [])
two_bytes _ _ _ = none

three_bytes : Option ℕ → Option ℕ → Option ℕ → Option ℕ → Option Bytes → Option Bytes
three_bytes (some p) (some q) (some r) (some t) (some s) =
    some ((p * 4 + q / 16) ∷ (q % 16 * 16 + r / 4) ∷ (r % 4 * 64 + t) ∷ s)
three_bytes _ _ _ _ _ = none

-- The last quantum, which may end in padding.
last_quad : ℕ → ℕ → ℕ → ℕ → Option Bytes
last_quad p q r t =
    if t == b'='
    then (if r == b'='
        then one_byte (sextet_value p) (sextet_value q)
        else two_bytes (sextet_value p) (sextet_value q) (sextet_value r))
    else three_bytes (sextet_value p) (sextet_value q) (sextet_value r) (sextet_value t) (some [])

quads : Bytes → Option Bytes
quads [] = some []
quads (p ∷ []) = none
quads (p ∷ q ∷ []) = none
quads (p ∷ q ∷ r ∷ []) = none
quads (p ∷ q ∷ r ∷ t ∷ []) = last_quad p q r t
quads (p ∷ q ∷ r ∷ t ∷ u ∷ s) =
    three_bytes (sextet_value p) (sextet_value q) (sextet_value r) (sextet_value t) (quads (u ∷ s))

-- `none` is a CorruptInputError: the callers drop the bytes that were read before it.
unfoldable pub decode : Bytes → Option Bytes
unfolding strip quads last_quad one_byte two_bytes three_bytes sextet_value
decode s = quads (strip s)

sextet_value-sextet : (n : ℕ) → n < 64 → sextet_value (sextet n) ≡ some n
unfolding sextet sextet_value
sextet_value-sextet n h = ground arith

sextet_plain : (n : ℕ) → n < 64 → (sextet n ≢ 10) × (sextet n ≢ 13) × (sextet n ≢ 61)
unfolding sextet
sextet_plain n h = ground arith

-- Texts that `strip` leaves alone.
abbrev Unbroken : Bytes → Type 0
Unbroken = All (λ c. (c ≢ 10) × (c ≢ 13))

strip-Unbroken : (s : Bytes) → Unbroken s → strip s ≡ s
unfolding strip
strip-Unbroken [] h = refl
strip-Unbroken (c ∷ s) (hc, hs) = ground (arith, strip-Unbroken s hs)

encode-Unbroken : (s : Bytes) → All IsByte s → Unbroken (encode s)
unfolding encode
encode-Unbroken [] h = tt
encode-Unbroken (a ∷ []) h = ground (arith, sextet_plain (a / 4), sextet_plain (a % 4 * 16))
encode-Unbroken (a ∷ b ∷ []) h =
    ground
      (arith, sextet_plain (a / 4), sextet_plain (a % 4 * 16 + b / 16), sextet_plain (b % 16 * 4))
encode-Unbroken (a ∷ b ∷ c ∷ s) (ha, (hb, (hc, hs))) = ground (
  arith,
  sextet_plain (a / 4),
  sextet_plain (a % 4 * 16 + b / 16),
  sextet_plain (b % 16 * 4 + c / 64),
  sextet_plain (c % 64),
  encode-Unbroken s hs,
)

quads_group :
    (p q r t : ℕ) (s : Bytes)
    → t ≢ b'='
    → quads (p ∷ q ∷ r ∷ t ∷ s)
      ≡ three_bytes (sextet_value p) (sextet_value q) (sextet_value r) (sextet_value t) (quads s)
unfolding quads last_quad
quads_group p q r t [] h = ground arith
quads_group p q r t (u ∷ s) h = refl

one_byte-sextet :
    (a : ℕ)
    → IsByte a
    → one_byte (sextet_value (sextet (a / 4))) (sextet_value (sextet (a % 4 * 16))) ≡ some (a ∷ [])
unfolding one_byte
one_byte-sextet a h = ground (arith, sextet_value-sextet (a / 4), sextet_value-sextet (a % 4 * 16))

two_bytes-sextet :
    (a b : ℕ)
    → IsByte a
    → IsByte b
    → two_bytes
        (sextet_value (sextet (a / 4)))
        (sextet_value (sextet (a % 4 * 16 + b / 16)))
        (sextet_value (sextet (b % 16 * 4)))
      ≡ some (a ∷ b ∷ [])
unfolding two_bytes
two_bytes-sextet a b ha hb = ground (
  arith,
  sextet_value-sextet (a / 4),
  sextet_value-sextet (a % 4 * 16 + b / 16),
  sextet_value-sextet (b % 16 * 4),
)

three_bytes-sextet :
    (a b c : ℕ) (s : Bytes)
    → IsByte a
    → IsByte b
    → IsByte c
    → three_bytes
        (sextet_value (sextet (a / 4)))
        (sextet_value (sextet (a % 4 * 16 + b / 16)))
        (sextet_value (sextet (b % 16 * 4 + c / 64)))
        (sextet_value (sextet (c % 64)))
        (some s)
      ≡ some (a ∷ b ∷ c ∷ s)
unfolding three_bytes
three_bytes-sextet a b c s ha hb hc = ground (
  arith,
  sextet_value-sextet (a / 4),
  sextet_value-sextet (a % 4 * 16 + b / 16),
  sextet_value-sextet (b % 16 * 4 + c / 64),
  sextet_value-sextet (c % 64),
)

quads-encode : (s : Bytes) → All IsByte s → quads (encode s) ≡ some s
unfolding encode
quads-encode [] h = unfold quads in refl
quads-encode (a ∷ []) h = unfold quads last_quad in one_byte-sextet a h.0
quads-encode (a ∷ b ∷ []) h =
    unfold quads last_quad in
    ground (arith, two_bytes-sextet a b h.0 h.1.0, sextet_plain (b % 16 * 4) (omega arith))
quads-encode (a ∷ b ∷ c ∷ s) (ha, (hb, (hc, hs))) =
    rw (quads_group _ _ _ _ (encode s) (sextet_plain (c % 64) (omega arith)).2, quads-encode s hs)
      (three_bytes-sextet a b c s ha hb hc)

-- Decoding what was encoded gives the bytes back.
pub decode-encode : (s : Bytes) → All IsByte s → decode (encode s) ≡ some s
unfolding decode
decode-encode s h = rw (strip-Unbroken _ (encode-Unbroken s h)) (quads-encode s h)
