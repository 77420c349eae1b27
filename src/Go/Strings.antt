-- ===== src/Go/Strings.antt =====
-- strings.Split by one byte, and strings.Trim of spaces.
use rockx_dkg_cli.Prelude.{
  ℕ, ◌≡◌, ◌≢◌, refl, List, [], ◌∷◌, ◌++◌, arith, Bytes, ◌==◌, if◌then◌else◌, All,
}

prepend : ℕ → List Bytes → List Bytes
prepend c [] = (c ∷ []) ∷ []
prepend c (p ∷ ps) = (c ∷ p) ∷ ps

unfoldable pub split : ℕ → Bytes → List Bytes
unfolding prepend
split sep [] = [] ∷ []
split sep (c ∷ s) = let rest = split sep s in if c == sep then [] ∷ rest else prepend c rest

abbrev space : ℕ
space = 32

trim_left : Bytes → Bytes
trim_left [] = []
trim_left (c ∷ s) = let rest = trim_left s in if c == space then rest else c ∷ s

drop_space : ℕ → Bytes → Bytes
drop_space c [] = if c == space then [] else c ∷ []
drop_space c (d ∷ s) = c ∷ d ∷ s

trim_right : Bytes → Bytes
unfolding drop_space
trim_right [] = []
trim_right (c ∷ s) = drop_space c (trim_right s)

-- strings.Trim(s, " ")
unfoldable pub trim : Bytes → Bytes
unfolding trim_left trim_right
trim s = trim_right (trim_left s)

abbrev pub Lacks : ℕ → Bytes → Type 0
Lacks b = All (λ c. c ≢ b)

split-Lacks : (sep : ℕ) (s : Bytes) → Lacks sep s → split sep s ≡ s ∷ []
unfolding split
split-Lacks sep [] h = refl
split-Lacks sep (c ∷ s) (hc, hs) = ground (arith, split-Lacks sep s hs)

-- A text with one separator is split at it.
pub split_at :
    (sep : ℕ) (s t : Bytes) → Lacks sep s → Lacks sep t → split sep (s ++ sep ∷ t) ≡ s ∷ t ∷ []
unfolding split
split_at sep [] t hs ht = ground (arith, split-Lacks sep t ht)
split_at sep (c ∷ s) t (hc, hs) ht = ground (arith, split_at sep s t hs ht)

trim_right-Lacks : (s : Bytes) → Lacks space s → trim_right s ≡ s
unfolding trim_right
trim_right-Lacks [] h = refl
trim_right-Lacks (c ∷ []) (hc, hs) = ground arith
trim_right-Lacks (c ∷ d ∷ s) (hc, hs) = ground (arith, trim_right-Lacks (d ∷ s) hs)

-- A text with no space is left alone.
pub trim-Lacks : (s : Bytes) → Lacks space s → trim s ≡ s
unfolding trim
trim-Lacks [] h = refl
trim-Lacks (c ∷ s) (hc, hs) = ground (arith, trim_right-Lacks (c ∷ s) (hc, hs))
