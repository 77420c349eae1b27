-- ===== src/Cli/Operators.antt =====
-- The `operator` flags of the tool: parseOperatorList (internal/cli/handle_keygen.go).
pub mod RoundTrip
use rockx_dkg_cli.Go.Strings.{trim, split}
use rockx_dkg_cli.Go.Strconv.{atoi, to_uint64}
use rockx_dkg_cli.Net.{Result, ok, err, not_a_number, not_key_value, panics}
use rockx_dkg_cli.Prelude.{ℕ, none, some, List, [], ◌∷◌, Bytes, GoMap, insert, bytes_key, nat_key}
use rockx_dkg_cli.Go.Strings

-- What one flag says: an identifier and an address.
unfoldable pub operator_pair : Bytes → List Bytes → Result (ℕ × Bytes)
operator_pair whole (id ∷ addr ∷ []) = elim (atoi id) [
  | none ↦ err (not_a_number id)
  | some i ↦ ok (to_uint64 i, addr)
]
operator_pair whole _ = err (not_key_value whole)

unfoldable pub parse_operator : Bytes → Result (ℕ × Bytes)
parse_operator o = let operator : Bytes = trim o in operator_pair operator (split b'=' operator)

-- The loop over the flags, which fills the map.
unfoldable pub parse_operators : GoMap ℕ Bytes → List Bytes → Result (GoMap ℕ Bytes)
parse_operators operators [] = ok operators
parse_operators operators (o ∷ os) = elim (parse_operator o) [
  | ok pair ↦ parse_operators (insert pair.0 pair.1 operators) os
  | err e ↦ err e
  | panics ↦ panics
]

unfoldable pub parse_operator_list : List Bytes → Result (GoMap ℕ Bytes)
parse_operator_list flags = parse_operators [] flags
