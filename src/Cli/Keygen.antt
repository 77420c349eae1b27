-- ===== src/Cli/Keygen.antt =====
-- `keygen`: internal/cli/handle_keygen.go.
pub mod Plan
pub mod Outcome
use rockx_dkg_cli.Client.{create_topic, new_messenger_client, messenger_addr_from_env}
use rockx_dkg_cli.Cli.Operators.{parse_operator_list}
use rockx_dkg_cli.Net.{Result, World, err, Exec, ok, lift, panics, ◌>>=◌}
use rockx_dkg_cli.Cli.Spec.{SsvSpec, Ranges, to_uint16, init_msg, send_all}
use rockx_dkg_cli.Go.Strconv.{ℤ}
use rockx_dkg_cli.Prelude.{ℕ, List, Bytes, GoMap, keys}
use rockx_dkg_cli.Go.Hex

pub record KeygenRequest : Type 0 where
  pub operators : GoMap ℕ Bytes
  pub threshold : ℤ
  pub withdrawal_credential : Bytes
  pub fork_version : Bytes

-- The flags of the command.
pub record KeygenFlags : Type 0 where
  pub operator : List Bytes
  pub threshold : ℤ
  pub withdrawal_credentials : Bytes
  pub fork_version : Bytes

unfoldable pub parse_keygen_request : KeygenFlags → Result KeygenRequest
parse_keygen_request flags = elim (parse_operator_list flags.operator) [
  | err e ↦ err e
  | panics ↦ panics
  | ok operators ↦ ok record {
    operators = operators;
    threshold = flags.threshold;
    withdrawal_credential = flags.withdrawal_credentials;
    fork_version = flags.fork_version;
  }
]

module _ (spec : SsvSpec) (ranges : Ranges) where
  -- The n-th range statement lists the operators.
  unfoldable pub all_operators : ℕ → KeygenRequest → List ℕ
  all_operators n request = keys (ranges n request.operators)

  unfoldable pub init_msg_for_keygen : KeygenRequest → Bytes → Result Bytes
  init_msg_for_keygen request request_id =
      let withdrawal_cred : Bytes = (Hex.decode request.withdrawal_credential).bytes in
      let init : Bytes =
        spec.init_message (all_operators 1 request) (to_uint16 request.threshold) withdrawal_cred
          (spec.fork_version request.fork_version) in
      spec.ssv_encode (spec.sign_dkg_msg init_msg request_id init)

  module _ (world : World) (env_addr : Bytes) where
    unfoldable pub run_keygen : KeygenRequest → Bytes → Exec (Unit {0})
    run_keygen request request_id =
        create_topic world (new_messenger_client (messenger_addr_from_env env_addr))
          (Hex.encode request_id) (all_operators 0 request)
        >>= λ _. lift (init_msg_for_keygen request request_id) >>= λ msg.
            send_all world (ranges 2 request.operators) msg

    unfoldable pub handle_keygen : KeygenFlags → Bytes → Exec (Unit {0})
    handle_keygen flags request_id =
        lift (parse_keygen_request flags) >>= λ request. run_keygen request request_id
