-- ===== src/Service/Tests/Matching.antt =====
-- A matcher of routes and a reader of URLs that satisfy the laws of Web.
-- The rest of a text after a prefix.
use rockx_dkg_cli.Web.{WebLaw, is_plain, Web, IsPlain, IsSegment}
use rockx_dkg_cli.Prelude.{
  ℕ, ◌≡◌, refl, sym, ap, ◌∙◌, Bool, true, false, not, ◌&&◌, Option, none, some, [], ◌∷◌, ◌++◌,
  append_assoc, arith, ◌==◌, if◌then◌else◌, All, Bytes, bytes_eq,
}

unfoldable pub after_prefix : Bytes → Bytes → Option Bytes
after_prefix [] s = some s
after_prefix (a ∷ ts) [] = none
after_prefix (a ∷ ts) (c ∷ s) = let rest = after_prefix ts s in if a == c then rest else none

after_prefix-append : (a s : Bytes) → after_prefix a (a ++ s) ≡ some s
unfolding after_prefix
after_prefix-append [] s = refl
after_prefix-append (c ∷ a) s = ground (arith, after_prefix-append a s)

unfoldable pub before_mark : Bytes → Bytes
before_mark [] = []
before_mark (c ∷ s) = let rest = before_mark s in if c == b'?' then [] else c ∷ rest

unfoldable pub after_mark : Bytes → Bytes
after_mark [] = []
after_mark (c ∷ s) = let rest = after_mark s in if c == b'?' then s else rest

plain_not_mark : (c : ℕ) → is_plain c ≡ true → (c == 63) ≡ false
plain_not_mark c h = ground (arith, h)

plain_not_colon : (c : ℕ) → is_plain c ≡ true → (c == 58) ≡ false
plain_not_colon c h = ground (arith, h)

before_mark-plain : (p : Bytes) → IsPlain p → before_mark p ≡ p
unfolding before_mark
before_mark-plain [] h = refl
before_mark-plain (c ∷ p) (hc, hs) = ground (arith, plain_not_mark c hc, before_mark-plain p hs)

before_mark-append : (p s : Bytes) → IsPlain p → before_mark (p ++ b'?' ∷ s) ≡ p
unfolding before_mark
before_mark-append [] s h = refl
before_mark-append (c ∷ p) s (hc, hs) =
    ground (arith, plain_not_mark c hc, before_mark-append p s hs)

after_mark-append : (p s : Bytes) → IsPlain p → after_mark (p ++ b'?' ∷ s) ≡ s
unfolding after_mark
after_mark-append [] s h = refl
after_mark-append (c ∷ p) s (hc, hs) = ground (arith, plain_not_mark c hc, after_mark-append p s hs)

unfoldable pub is_segment : Bytes → Bool
is_segment [] = true
is_segment (c ∷ s) = let rest = is_segment s in not (c == 47) && rest

-- A pattern against a path: a colon takes the rest of the path ts one part.
unfoldable pub fits : Bytes → Bytes → Bool
fits [] [] = true
fits [] (c ∷ s) = false
fits (a ∷ ts) [] = false
fits (a ∷ ts) (c ∷ s) =
    let rest = fits ts s in if a == 58 then is_segment (c ∷ s) else (a == c) && rest

-- What the colon takes.
unfoldable pub taken : Bytes → Bytes → Bytes
taken [] s = []
taken (a ∷ ts) [] = []
taken (a ∷ ts) (c ∷ s) = let rest = taken ts s in if a == 58 then c ∷ s else rest

fits-plain : (pattern p : Bytes) → IsPlain pattern → fits pattern p ≡ bytes_eq pattern p
unfolding fits bytes_eq
fits-plain [] [] h = refl
fits-plain [] (c ∷ p) h = refl
fits-plain (a ∷ ts) [] h = refl
fits-plain (a ∷ ts) (c ∷ p) (ha, hs) = ground (arith, plain_not_colon a ha, fits-plain ts p hs)

segment_ok :
    (s : Bytes) → All (λ c. (is_plain c ≡ true) × ((c == 47) ≡ false)) s → is_segment s ≡ true
unfolding is_segment
segment_ok [] h = refl
segment_ok (c ∷ s) ((p, q), hs) = ground (arith, q, segment_ok s hs)

fits-segment :
    (start name s : Bytes)
    → IsPlain start
    → IsSegment s
    → fits (start ++ b':' ∷ name) (start ++ s) ≡ true
unfolding fits
fits-segment [] name [] h (some_part, parts) = absurd (some_part refl)
fits-segment [] name (c ∷ s) h (some_part, parts) = segment_ok (c ∷ s) parts
fits-segment (a ∷ start) name s (ha, hs) segment =
    ground (arith, plain_not_colon a ha, fits-segment start name s hs segment)

taken-segment :
    (start name s : Bytes)
    → IsPlain start
    → IsSegment s
    → taken (start ++ b':' ∷ name) (start ++ s) ≡ s
unfolding taken
taken-segment [] name [] h (some_part, parts) = absurd (some_part refl)
taken-segment [] name (c ∷ s) h segment = refl
taken-segment (a ∷ start) name s (ha, hs) segment =
    ground (arith, plain_not_colon a ha, taken-segment start name s hs segment)

both_true :
    (a c : ℕ) (b x : Bool)
    → (a == 58) ≡ false
    → (if a == 58 then x else (a == c) && b) ≡ true
    → (a ≡ c) × (b ≡ true)
both_true a c b x other e = (ground (arith, other, e), ground (arith, other, e))

fits-start :
    (start name p : Bytes)
    → IsPlain start
    → fits (start ++ b':' ∷ name) p ≡ true
    → (rest : Bytes) × (p ≡ start ++ rest)
unfolding fits
fits-start [] name p h e = (p, refl)
fits-start (a ∷ start) name [] h e = ground (arith, e)
fits-start (a ∷ start) name (c ∷ p) (ha, hs) e =
    let (same, later) =
      both_true a c (fits (start ++ b':' ∷ name) p) (is_segment (c ∷ p)) (plain_not_colon a ha) e in
    let (rest, q) = fits-start start name p hs later in
    (rest, ap (λ z. z ∷ p) (sym same) ∙ ap (λ z. a ∷ z) q)

abbrev value_of : Option Bytes → Bytes
value_of none = []
value_of (some v) = v

abbrev pub plain_web : Bytes → Web
plain_web addr = record {
  target_of = λ url. after_prefix addr url;
  path_of = before_mark;
  query = λ target key. value_of (after_prefix (key ++ b'=' ∷ []) (after_mark target));
  matches = fits;
  param = taken;
}

query-plain :
    (p k v : Bytes)
    → IsPlain p
    → value_of (after_prefix (k ++ b'=' ∷ []) (after_mark (p ++ b'?' ∷ k ++ b'=' ∷ v))) ≡ v
query-plain p k v h =
    let whole : p ++ b'?' ∷ k ++ b'=' ∷ v ≡ p ++ b'?' ∷ ((k ++ b'=' ∷ []) ++ v) =
      simp append_assoc refl in
    rw
      (whole, after_mark-append p ((k ++ b'=' ∷ []) ++ v) h, after_prefix-append (k ++ b'=' ∷ []) v)
      refl

pub plain_law : (addr : Bytes) → WebLaw (plain_web addr) addr
plain_law addr = record {
  delivered = λ t. after_prefix-append addr (b'/' ∷ t);
  bare_path = before_mark-plain;
  query_path = λ p k v hp hk hv.
      ap before_mark (append_assoc p (b'?' ∷ k) (b'=' ∷ v))
      ∙ before_mark-append p (k ++ b'=' ∷ v) hp;
  query_value = λ p k v hp hk hv. query-plain p k v hp;
  static_matches = fits-plain;
  param_matches = λ start name s h k segment. fits-segment start name s h segment;
  param_value = λ start name s h k segment. taken-segment start name s h segment;
  param_prefix = λ start name p h k e. fits-start start name p h e;
}
