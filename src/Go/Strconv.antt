-- ===== src/Go/Strconv.antt =====
-- strconv.Itoa, Atoi and ParseUint in base 10, and conversions between `int` and `uint64`.
use rockx_dkg_cli.Prelude.{
  ℕ, zero, subst, ◌≢◌, All, suc, ◌+◌, ◌-◌, ◌*◌, ◌/◌, ◌%◌, ◌^◌, ◌≤◌, ◌<◌, ◌≡◌, refl, inl, inr, Bool,
  false, ◌&&◌, [], ◌∷◌, Option, none, some, arith, Bytes, ltb, leb, ◌==◌, if◌then◌else◌, Bool-cases,
  Option-cases, sym, ap, ◌∙◌,
}

-- A Go `int`; `negsuc n` is -(n + 1).
pub data ℤ : Type 0 where
  pos : ℕ → ℤ
  negsuc : ℕ → ℤ

abbrev pub u64 : ℕ
u64 = 2 ^ 64

abbrev pub i63 : ℕ
i63 = 2 ^ 63

-- uint64(i)
unfoldable pub to_uint64 : ℤ → ℕ
to_uint64 (pos n) = n % u64
to_uint64 (negsuc n) = u64 - 1 - n % u64

-- int(u)
unfoldable pub to_int : ℕ → ℤ
to_int n = if ltb n i63 then pos n else negsuc (u64 - 1 - n % u64)

emit : ℕ → ℕ → Bytes → Bytes
emit zero n out = out
emit (suc f) n out =
    let rest = emit f (n / 10) ((48 + n % 10) ∷ out) in if n == 0 then out else rest

-- The decimal digits of a number; a number has at most as many digits as its value.
unfoldable pub decimal : ℕ → Bytes
unfolding emit
decimal n = if n == 0 then 48 ∷ [] else emit n n []

unfoldable pub itoa : ℤ → Bytes
unfolding decimal
itoa (pos n) = decimal n
itoa (negsuc n) = b'-' ∷ decimal (n + 1)

is_digit : ℕ → Bool
is_digit c = leb 48 c && leb c 57

scan : Bytes → ℕ → Option ℕ
unfolding is_digit
scan [] n = some n
scan (c ∷ s) n = let rest = scan s (n * 10 + (c - 48)) in if is_digit c then rest else none

-- Digits only, and at least one.
unfoldable pub parse_digits : Bytes → Option ℕ
unfolding scan
parse_digits [] = none
parse_digits (c ∷ s) = scan (c ∷ s) 0

-- ParseUint(s, 10, bits)
unfoldable pub parse_uint : ℕ → Bytes → Option ℕ
unfolding parse_digits
parse_uint bits s = elim (parse_digits s) [
  | none ↦ none
  | some n ↦ if ltb n (2 ^ bits) then some n else none
]

positive : Option ℕ → Option ℤ
positive none = none
positive (some n) = if ltb n i63 then some (pos n) else none

negative : Option ℕ → Option ℤ
negative none = none
negative (some zero) = some (pos 0)
negative (some (suc n)) = if ltb n i63 then some (negsuc n) else none

unfoldable pub atoi : Bytes → Option ℤ
unfolding parse_digits positive negative
atoi [] = none
atoi (c ∷ s) =
    if c == b'-'
    then negative (parse_digits s)
    else if c == b'+'
    then positive (parse_digits s)
    else positive (parse_digits (c ∷ s))

scan-emit : (f n : ℕ) (out : Bytes) → n ≤ f → scan (emit f n out) 0 ≡ scan out n
unfolding scan emit
scan-emit zero zero out h = refl
scan-emit zero (suc n) out h = absurd (omega arith)
scan-emit (suc f) n out h = elim (Bool-cases (n == 0)) [
  | inl e ↦ ground arith
  | inr e ↦ ground (arith, scan-emit f (n / 10) ((48 + n % 10) ∷ out))
]

abbrev pub IsDigit : ℕ → Type 0
IsDigit c = (48 ≤ c) × (c ≤ 57)

emit-digits : (f n : ℕ) (out : Bytes) → All IsDigit out → All IsDigit (emit f n out)
unfolding emit
emit-digits zero n out h = h
emit-digits (suc f) n out h = elim (Bool-cases (n == 0)) [
  | inl e ↦ rw e h
  | inr e ↦ rw e (emit-digits f (n / 10) ((48 + n % 10) ∷ out) (omega arith, h))
]

abbrev DigitHead : Bytes → Type 0
DigitHead [] = ⊥
DigitHead (c ∷ s) = IsDigit c

emit_head : (f n : ℕ) (out : Bytes) → DigitHead out → DigitHead (emit f n out)
unfolding emit
emit_head zero n out h = h
emit_head (suc f) n out h = elim (Bool-cases (n == 0)) [
  | inl e ↦ rw e h
  | inr e ↦ rw e (emit_head f (n / 10) ((48 + n % 10) ∷ out) (omega arith))
]

emit_pos : (n : ℕ) → (n == 0) ≡ false → DigitHead (emit n n [])
unfolding emit
emit_pos zero e = cc
emit_pos (suc n) e = rw e (emit_head n (suc n / 10) ((48 + suc n % 10) ∷ []) (omega arith))

decimal_head : (n : ℕ) → DigitHead (decimal n)
unfolding decimal
decimal_head n = elim (Bool-cases (n == 0)) [
  | inl e ↦ rw e (omega arith)
  | inr e ↦ rw e (emit_pos n e)
]

pub decimal-ne-nil : (n : ℕ) → decimal n ≢ []
decimal-ne-nil n e = subst DigitHead e (decimal_head n)

scan-decimal : (n : ℕ) → scan (decimal n) 0 ≡ some n
unfolding scan decimal
scan-decimal n = elim (Bool-cases (n == 0)) [
  | inl e ↦ ground arith
  | inr e ↦ ground (arith, scan-emit n n [])
]

parse_digits-decimal : (n : ℕ) → parse_digits (decimal n) ≡ some n
unfolding parse_digits
parse_digits-decimal n = ground (arith, scan-decimal n, decimal-ne-nil n)

-- Parsing the decimal digits of a number of the type gives the number.
pub parse_uint-decimal : (bits n : ℕ) → n < 2 ^ bits → parse_uint bits (decimal n) ≡ some n
unfolding parse_uint
parse_uint-decimal bits n h = rw (parse_digits-decimal n, parse_uint) (ground arith)

pub atoi-decimal : (n : ℕ) → n < i63 → atoi (decimal n) ≡ some (pos n)
unfolding atoi positive
atoi-decimal n h = ground (arith, decimal_head n, decimal-ne-nil n, parse_digits-decimal n)

-- The digits of a number hold nothing but digits.
pub decimal-digits : (n : ℕ) → All IsDigit (decimal n)
unfolding decimal
decimal-digits n = elim (Bool-cases (n == 0)) [
  | inl e ↦ rw e (omega arith)
  | inr e ↦ rw e (emit-digits n n [] tt)
]

pub parse_uint-lt : (bits n : ℕ) (s : Bytes) → parse_uint bits s ≡ some n → n < 2 ^ bits
unfolding parse_uint
parse_uint-lt bits n s h = elim (Option-cases (parse_digits s)) [
  | inl e ↦ let e2 : Path (Option ℕ) none (some n) = rw (parse_uint, e) at h in ground (arith, e2)
  | inr (m, e) ↦
      let e2 : (if ltb m (2 ^ bits) then some m else none) ≡ some n = rw (parse_uint, e) at h in
      elim (Bool-cases (ltb m (2 ^ bits))) [
        | inl below ↦ ground (arith, e2, below)
        | inr above ↦ ground (arith, e2, above)
      ]
]

pub decimal-injective : (m n : ℕ) → decimal m ≡ decimal n → m ≡ n
decimal-injective m n e =
    let h : some m ≡ some n =
      sym (parse_digits-decimal m) ∙ ap parse_digits e ∙ parse_digits-decimal n in
    ground (arith, h)

pub itoa-to_int : (n : ℕ) → n < i63 → itoa (to_int n) ≡ decimal n
unfolding itoa to_int
itoa-to_int n h = ground arith
