-- ===== src/Cli/Tests.antt =====
-- Runs of the tool's theorems on concrete inputs.
pub mod Results
pub mod Shares
pub mod Flags
use rockx_dkg_cli.Cli.Keysign.Plan.{generate_signature-follow}
use rockx_dkg_cli.Cli.Keygen.Plan.{handle_keygen-follow}
use rockx_dkg_cli.Cli.Sends.{topic_request, consume_plan}
use rockx_dkg_cli.Go.Strconv.{pos}
use rockx_dkg_cli.Cli.Operators.{parse_operator_list}
use rockx_dkg_cli.Cli.Keysign.{init_msg_for_keysign, generate_signature}
use rockx_dkg_cli.Cli.Keygen.{
  KeygenRequest, parse_keygen_request, KeygenFlags, init_msg_for_keygen, handle_keygen,
}
use rockx_dkg_cli.Cli.Resharing.{ResharingFlags, ResharingRequest}
use rockx_dkg_cli.Client.{messenger_addr_from_env}
use rockx_dkg_cli.Cli.Spec.{SsvSpec, Ranges}
use rockx_dkg_cli.Net.Plan.{shown, follow}
use rockx_dkg_cli.Cli.Operators.RoundTrip.{IsPlain, operator_flag, parse_operator_list-flags}
use rockx_dkg_cli.Prelude.{
  ℕ, ◌≡◌, refl, [], ◌∷◌, ◌++◌, map, All, Bytes, codes, GoMap, keys, Distinct, bytes_key, nat_key,
  lookup, insert, arith,
}
use rockx_dkg_cli.Go.Hex
use rockx_dkg_cli.Net.{answered, World, ok}

abbrev always : ℕ → World
always code sent req = answered code []

abbrev pub two_operators : GoMap ℕ Bytes
two_operators = (1, codes "http://a") ∷ (22, codes "b") ∷ []

two_Distinct : Distinct two_operators
unfolding rockx_dkg_cli.Prelude.lookup
two_Distinct = (refl, (refl, tt))

two-IsPlain : All IsPlain two_operators
two-IsPlain = ground arith

parse_operator_list-flags_example :
    parse_operator_list (map operator_flag two_operators) ≡ ok two_operators
parse_operator_list-flags_example = parse_operator_list-flags two_operators two_Distinct two-IsPlain

abbrev pub plain_spec : SsvSpec
plain_spec = record {
  fork_version = λ s. s;
  init_message = λ ids t w f. 1 ∷ t ∷ w ++ f;
  reshare_message = λ ids t vk old. 2 ∷ t ∷ vk;
  key_sign = λ vk root. 3 ∷ vk ++ root;
  sign_dkg_msg = λ t id s. id ++ s;
  ssv_encode = λ s. ok s;
}

abbrev pub in_order : Ranges
in_order n m = m

abbrev pub keygen_flags : KeygenFlags
keygen_flags = record {
  operator = codes "1=http://a" ∷ codes " 22=b " ∷ [];
  threshold = pos 3;
  withdrawal_credentials = codes "0a";
  fork_version = codes "prater";
}

abbrev pub keygen_request : KeygenRequest
keygen_request = record {
  operators = two_operators;
  threshold = pos 3;
  withdrawal_credential = codes "0a";
  fork_version = codes "prater";
}

pub keygen_parsed : parse_keygen_request keygen_flags ≡ ok keygen_request
unfolding parse_keygen_request parse_operator_list rockx_dkg_cli.Cli.Operators.parse_operators
    rockx_dkg_cli.Cli.Operators.parse_operator rockx_dkg_cli.Cli.Operators.operator_pair
    rockx_dkg_cli.Go.Strings.split rockx_dkg_cli.Go.Strings.trim rockx_dkg_cli.Go.Strconv.atoi
    rockx_dkg_cli.Prelude.insert rockx_dkg_cli.Go.Strconv.to_uint64
keygen_parsed = refl

pub keygen_encoded :
    init_msg_for_keygen plain_spec in_order keygen_request (9 ∷ [])
    ≡ ok (9 ∷ 1 ∷ 3 ∷ 10 ∷ codes "prater")
unfolding init_msg_for_keygen rockx_dkg_cli.Cli.Spec.to_uint16 Hex.decode
    rockx_dkg_cli.Go.Strconv.to_uint64
keygen_encoded = refl

handle_keygen-follow_example :
    shown (handle_keygen plain_spec in_order (always 200) [] keygen_flags (9 ∷ []) [])
    ≡ follow
        (always 200)
        (topic_request (messenger_addr_from_env []) (Hex.encode (9 ∷ [])) (keys two_operators)
          ∷ consume_plan (9 ∷ 1 ∷ 3 ∷ 10 ∷ codes "prater") two_operators)
        []
handle_keygen-follow_example =
    handle_keygen-follow plain_spec in_order (always 200) [] keygen_flags keygen_request (9 ∷ [])
      (9 ∷ 1 ∷ 3 ∷ 10 ∷ codes "prater") keygen_parsed keygen_encoded

abbrev pub keygen_message : Bytes
keygen_message = 9 ∷ 1 ∷ 3 ∷ 10 ∷ codes "prater"

abbrev resharing_flags : ResharingFlags
resharing_flags = record {
  operator = codes "1=http://a" ∷ codes "22=b" ∷ [];
  old_operator = codes "1=http://old" ∷ [];
  threshold = pos 3;
  validator_pk = codes "0a";
}

abbrev resharing_request : ResharingRequest
resharing_request = record {
  operators = two_operators;
  threshold = pos 3;
  validator_pk = codes "0a";
  operators_old = (1, codes "http://old") ∷ [];
}

keysign_encoded :
    init_msg_for_keysign plain_spec in_order (9 ∷ []) (plain_spec.key_sign (5 ∷ []) (6 ∷ []))
    ≡ ok (9 ∷ 3 ∷ 5 ∷ 6 ∷ [])
unfolding init_msg_for_keysign
keysign_encoded = refl

operators_parsed : parse_operator_list (codes "1=http://a" ∷ codes "22=b" ∷ []) ≡ ok two_operators
unfolding parse_operator_list rockx_dkg_cli.Cli.Operators.parse_operators
    rockx_dkg_cli.Cli.Operators.parse_operator rockx_dkg_cli.Cli.Operators.operator_pair
    rockx_dkg_cli.Go.Strings.split rockx_dkg_cli.Go.Strings.trim rockx_dkg_cli.Go.Strconv.atoi
    rockx_dkg_cli.Prelude.insert rockx_dkg_cli.Go.Strconv.to_uint64
operators_parsed = refl

generate_signature-follow_example :
    shown (
      generate_signature plain_spec in_order
        (always 200)
        []
        (codes "1=http://a" ∷ codes "22=b" ∷ [])
        (5 ∷ [])
        (6 ∷ [])
        (9 ∷ [])
        [])
    ≡ follow
        (always 200)
        (topic_request (messenger_addr_from_env []) (Hex.encode (9 ∷ [])) (keys two_operators)
          ∷ consume_plan (9 ∷ 3 ∷ 5 ∷ 6 ∷ []) two_operators)
        []
generate_signature-follow_example =
    generate_signature-follow plain_spec in_order (always 200) []
      (codes "1=http://a" ∷ codes "22=b" ∷ []) (5 ∷ []) (6 ∷ []) (9 ∷ []) (9 ∷ 3 ∷ 5 ∷ 6 ∷ [])
      two_operators keysign_encoded operators_parsed
