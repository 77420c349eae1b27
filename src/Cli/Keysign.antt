-- ===== src/Cli/Keysign.antt =====
-- GenerateSignature: internal/cli/handle_keysign.go.
pub mod Plan
use rockx_dkg_cli.Cli.Operators.{parse_operator_list}
use rockx_dkg_cli.Client.{create_topic, new_messenger_client, messenger_addr_from_env}
use rockx_dkg_cli.Net.{World, Result, Exec, lift, ◌>>=◌, pure}
use rockx_dkg_cli.Cli.Spec.{SsvSpec, Ranges, keysign_msg, send_all}
use rockx_dkg_cli.Prelude.{ℕ, List, Bytes, GoMap, keys}
use rockx_dkg_cli.Go.Hex

module _ (spec : SsvSpec) (ranges : Ranges) where
  unfoldable pub init_msg_for_keysign : Bytes → Bytes → Result Bytes
  init_msg_for_keysign request_id payload =
      spec.ssv_encode (spec.sign_dkg_msg keysign_msg request_id payload)

  module _ (world : World) (env_addr : Bytes) where
    unfoldable pub sign_with : GoMap ℕ Bytes → Bytes → Bytes → Exec Bytes
    sign_with operators request_id msg =
        create_topic world (new_messenger_client (messenger_addr_from_env env_addr))
          (Hex.encode request_id) (keys (ranges 0 operators))
        >>= λ _. send_all world (ranges 1 operators) msg >>= λ _. pure request_id

    -- The `operator` flags, the validator key, the signing root, and the identifier that is drawn.
    unfoldable pub generate_signature : List Bytes → Bytes → Bytes → Bytes → Exec Bytes
    generate_signature flags vk signing_root request_id =
        lift (init_msg_for_keysign request_id (spec.key_sign vk signing_root)) >>= λ msg.
        lift (parse_operator_list flags) >>= λ operators. sign_with operators request_id msg
