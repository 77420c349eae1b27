-- ===== src/Cli/Operators/RoundTrip.antt =====
-- The operators that a list of flags stands for.
use rockx_dkg_cli.Net.{ok}
use rockx_dkg_cli.Go.Strconv.{IsDigit, i63, decimal, decimal-digits, to_uint64, atoi-decimal}
use rockx_dkg_cli.Go.Strings.{Lacks, trim-Lacks, split_at}
use rockx_dkg_cli.Cli.Operators.{
  parse_operator, parse_operators, parse_operator_list, operator_pair,
}
use rockx_dkg_cli.Prelude.{
  ℕ, ◌<◌, ◌≡◌, refl, ap, subst, List, [], ◌∷◌, ◌++◌, map, arith, All, All-append, Bytes, GoMap,
  insert, bytes_key, ◌∙◌, Distinct, nat_key, insert_all, insert_all-append,
}

-- The flag `<id>=<addr>`.
unfoldable pub operator_flag : ℕ × Bytes → Bytes
operator_flag (i, addr) = decimal i ++ b'=' ∷ addr

-- An identifier that fits in an int, and an address with no `=` and no space.
abbrev pub IsPlain : ℕ × Bytes → Type 0
IsPlain (i, addr) = (i < i63) × Lacks b'=' addr × Lacks b' ' addr

digits-lack : (b : ℕ) → (IsDigit b → ⊥) → (s : Bytes) → All IsDigit s → Lacks b s
digits-lack b off [] h = tt
digits-lack b off (c ∷ s) (hc, hs) = ((λ e. off (subst IsDigit e hc)), digits-lack b off s hs)

flag-Lacks : (i : ℕ) (addr : Bytes) → Lacks b' ' addr → Lacks b' ' (decimal i ++ b'=' ∷ addr)
flag-Lacks i addr h =
    All-append _ (decimal i) (b'=' ∷ addr)
      (digits-lack b' ' (λ d. omega (arith, d.0, d.1)) (decimal i) (decimal-digits i))
      ((λ e. omega (arith, e)), h)

pub parse_operator-flag : (p : ℕ × Bytes) → IsPlain p → parse_operator (operator_flag p) ≡ ok p
unfolding parse_operator operator_flag operator_pair to_uint64
parse_operator-flag (i, addr) (bound, no_eq, no_space) =
    rw (trim-Lacks _ (flag-Lacks i addr no_space)) (
      rw
        (split_at b'=' (decimal i) addr
          (digits-lack b'=' (λ d. omega (arith, d.0, d.1)) (decimal i) (decimal-digits i)) no_eq)
        (rw (operator_pair, atoi-decimal i bound) (ap (λ z. ok (z, addr)) (omega (arith, bound)))))

parse_operators-flags :
    (m : GoMap ℕ Bytes) (ps : List (ℕ × Bytes))
    → All IsPlain ps
    → parse_operators m (map operator_flag ps) ≡ ok (insert_all m ps)
unfolding parse_operators
parse_operators-flags m [] h = refl
parse_operators-flags m (p ∷ ps) (hp, hs) =
    rw (parse_operators, parse_operator-flag p hp) (parse_operators-flags (insert p.0 p.1 m) ps hs)

-- The flags `<id>=<addr>` of operators with distinct identifiers below 2^63, and addresses with no
-- `=` and no space, are parsed to the map that binds each identifier to its address.
pub parse_operator_list-flags :
    (ps : GoMap ℕ Bytes)
    → Distinct ps
    → All IsPlain ps
    → parse_operator_list (map operator_flag ps) ≡ ok ps
unfolding parse_operator_list
parse_operator_list-flags ps d h = parse_operators-flags [] ps h ∙ ap ok (insert_all-append [] ps d)
