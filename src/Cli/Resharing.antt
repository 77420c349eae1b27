-- ===== src/Cli/Resharing.antt =====
-- `resharing`: internal/cli/handle_resharing.go.
pub mod Plan
use rockx_dkg_cli.Client.{create_topic, new_messenger_client, messenger_addr_from_env}
use rockx_dkg_cli.Cli.Operators.{parse_operators}
use rockx_dkg_cli.Net.{Result, err, ok, World, panics, Exec, lift, not_hex, ◌>>=◌}
use rockx_dkg_cli.Cli.Spec.{SsvSpec, Ranges, to_uint16, reshare_msg, send_all}
use rockx_dkg_cli.Go.Strconv.{ℤ}
use rockx_dkg_cli.Prelude.{
  ℕ, none, some, List, [], ◌∷◌, ◌++◌, if◌then◌else◌, Bytes, GoMap, keys, lookup, has, bytes_key,
  nat_key,
}
use rockx_dkg_cli.Go.Hex

pub record ResharingRequest : Type 0 where
  pub operators : GoMap ℕ Bytes
  pub threshold : ℤ
  pub validator_pk : Bytes
  pub operators_old : GoMap ℕ Bytes

-- The flags of the command.
pub record ResharingFlags : Type 0 where
  pub operator : List Bytes
  pub old_operator : List Bytes
  pub threshold : ℤ
  pub validator_pk : Bytes

abbrev with_old : ResharingFlags → GoMap ℕ Bytes → Result (GoMap ℕ Bytes) → Result ResharingRequest
with_old flags operators (err e) = err e
with_old flags operators panics = panics
with_old flags operators (ok old) = ok record {
  operators = operators;
  threshold = flags.threshold;
  validator_pk = flags.validator_pk;
  operators_old = old;
}

-- The two loops read a flag as the loop of parseOperatorList does.
unfoldable pub parse_resharing_request : ResharingFlags → Result ResharingRequest
parse_resharing_request flags = elim (parse_operators [] flags.operator) [
  | err e ↦ err e
  | panics ↦ panics
  | ok operators ↦ with_old flags operators (parse_operators [] flags.old_operator)
]

-- m[k], the empty string where the key is missing
abbrev string_at : GoMap ℕ Bytes → ℕ → Bytes
string_at m k = elim (lookup k m) [ none ↦ [] | some v ↦ v ]

unfoldable pub node_address : ResharingRequest → ℕ → Bytes
node_address request i =
    if has i request.operators
    then string_at request.operators i
    else string_at request.operators_old i

-- Each identifier with its address.
unfoldable pub addressed : ResharingRequest → List ℕ → GoMap ℕ Bytes
addressed request [] = []
addressed request (i ∷ ids) = (i, node_address request i) ∷ addressed request ids

module _ (spec : SsvSpec) (ranges : Ranges) where
  -- The n-th range statement lists the operators.
  unfoldable pub new_operators : ℕ → ResharingRequest → List ℕ
  new_operators n request = keys (ranges n request.operators)

  unfoldable pub old_operators : ℕ → ResharingRequest → List ℕ
  old_operators n request = keys (ranges n request.operators_old)

  unfoldable pub init_msg_for_resharing : ResharingRequest → Bytes → Result Bytes
  init_msg_for_resharing request request_id =
      let vk = Hex.decode request.validator_pk in
      let reshare : Bytes =
        spec.reshare_message (new_operators 2 request) (to_uint16 request.threshold) vk.bytes
          (old_operators 3 request) in
      if vk.valid
      then spec.ssv_encode (spec.sign_dkg_msg reshare_msg request_id reshare)
      else err (not_hex request.validator_pk)

  unfoldable pub all_resharing_operators : ResharingRequest → List ℕ
  all_resharing_operators request = new_operators 0 request ++ old_operators 1 request

  module _ (world : World) (env_addr : Bytes) where
    unfoldable pub run_resharing : ResharingRequest → Bytes → Exec (Unit {0})
    run_resharing request request_id =
        create_topic world (new_messenger_client (messenger_addr_from_env env_addr))
          (Hex.encode request_id) (all_resharing_operators request)
        >>= λ _. lift (init_msg_for_resharing request request_id) >>= λ msg.
            send_all world (addressed request (all_resharing_operators request)) msg

    unfoldable pub handle_resharing : ResharingFlags → Bytes → Exec (Unit {0})
    handle_resharing flags request_id =
        lift (parse_resharing_request flags) >>= λ request. run_resharing request request_id
