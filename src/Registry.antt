-- ===== src/Registry.antt =====
-- The operator registry of api.ssv.network: internal/storage/fetch_operator.go.
pub mod Fetch
pub mod Address
pub mod RoundTrip
pub mod Panics
pub mod HardCoded
pub mod Public
pub mod Tests
use rockx_dkg_cli.Net.{
  Answer, World, Exec, Result, Request, err, request_failed, ask, ◌>>=◌, answered, unparsable, lift,
  ok, failed,
}
use rockx_dkg_cli.Go.Strconv.{decimal}
use rockx_dkg_cli.Prelude.{ℕ, Bool, Option, none, some, ◌++◌, Bytes, codes, bytes_eq, true}

pub record OperatorResponse : Type 0 where
  pub id : ℕ
  pub owner : Bytes
  pub public_key : Bytes

unfoldable pub registry_url : ℕ → Bytes
registry_url i = codes "https://api.ssv.network/api/v4/prater/operators/" ++ decimal i

-- The status is not looked at: the body of any answer is parsed.
unfoldable pub registry_answer :
    (parse : Bytes → Option OperatorResponse) → Answer → Result OperatorResponse
registry_answer parse failed = err request_failed
registry_answer parse (answered code body) = elim (parse body) [
  | none ↦ err unparsable
  | some operator ↦ ok operator
]

-- `parse` is json.Unmarshal into an operatorResponse.
unfoldable pub get_operator_from_registry_by_id :
    World → (parse : Bytes → Option OperatorResponse) → ℕ → Exec OperatorResponse
get_operator_from_registry_by_id world parse i =
    let req : Request = record { url = registry_url i; payload = none } in
    ask world req >>= λ answer. lift (registry_answer parse answer)

-- The value of USE_HARDCODED_OPERATORS is an argument.
unfoldable pub is_using_hardcoded_operators : Bytes → Bool
is_using_hardcoded_operators value = bytes_eq value (codes "true")
