-- ===== src/Cli/Tests/Shares.antt =====
-- A run of `get-keyshares` from the two results to the file.
use rockx_dkg_cli.Cli.Results.Agreement.{Says}
use rockx_dkg_cli.Cli.Data.Shares.{fetched, asked, reread, handle_get_keyshares-ok}
use rockx_dkg_cli.Go.Strconv.{pos}
use rockx_dkg_cli.Client.{messenger_addr_from_env}
use rockx_dkg_cli.Net.{Result, World, ask}
use rockx_dkg_cli.Cli.Results.{
  DkgResult, results_of_answer, read_results, format_results, format_outputs, format_entry,
  format_output, dkg_result_by_request_id, vk_texts, get_signature_from_key_sign,
}
use rockx_dkg_cli.Cli.KeyShares.{KeyShares, zero_x, shares_to_bytes, public_keys, encrypted_keys}
use rockx_dkg_cli.Dkg.{SignedOutput, DataStore}
use rockx_dkg_cli.Cli.Data.{KeySharesFlags, ParseStore, handle_get_keyshares}
use rockx_dkg_cli.Prelude.{
  ◌^◌, ◌<◌, ◌≡◌, refl, none, some, [], ◌∷◌, ◌++◌, arith, if◌then◌else◌, All, codes, bytes_eq,
  insert, bytes_key, nat_key, ℕ, Bytes,
}
use rockx_dkg_cli.Go.Hex
use rockx_dkg_cli.Cli.Tests.{plain_spec, in_order, answered, ok}
use rockx_dkg_cli.Cli.Tests.Results.{stored, or_none, any_operator}

-- Every answer is 200 with the request's URL as its body.
abbrev echo : World
echo sent req = answered 200 req.url

abbrev signed : SignedOutput
signed = record {
  key_sign_data =
      some (record { request_id = 9 ∷ []; validator_pk = 171 ∷ []; signature = 12 ∷ [] });
  output = none;
  signer = 1;
  signature = 8 ∷ [];
}

abbrev both_signed : DataStore
both_signed = record { dkg_outputs = (2, some signed) ∷ (1, some signed) ∷ []; blame_output = none }

-- The results of the signature under 09, and those of the key generation elsewhere.
abbrev results_by_url : ParseStore
results_by_url body = some (
    some (
      if bytes_eq body (messenger_addr_from_env [] ++ codes "/data/09")
      then both_signed
      else stored))

abbrev shares_flags : KeySharesFlags
shares_flags = record {
  request_id = codes "ab";
  operator = codes "1=http://a" ∷ codes "2=b" ∷ [];
  owner_address = codes "0x01";
  owner_nonce = pos 7;
}

abbrev or_no_result : Result DkgResult → DkgResult
or_no_result (ok r) = r
or_no_result _ = record { outputs = []; blame = none }

abbrev keygen_result : DkgResult
keygen_result = or_no_result (fetched echo results_by_url [] shares_flags []).0

keygen_fetched : (fetched echo results_by_url [] shares_flags []).0 ≡ ok keygen_result
unfolding ask results_of_answer read_results format_results format_outputs format_entry
    format_output dkg_result_by_request_id bytes_eq messenger_addr_from_env
keygen_fetched = refl

two_fit : All (λ p. p.0 < 2 ^ 32) keygen_result.outputs
unfolding ask results_of_answer read_results format_results format_outputs format_entry
    format_output dkg_result_by_request_id insert bytes_eq messenger_addr_from_env
two_fit = (omega arith, (omega arith, tt))

abbrev shares_file : KeyShares
shares_file =
    or_none
      (handle_get_keyshares plain_spec in_order echo results_by_url any_operator [] shares_flags
        (9 ∷ []) []).0

shares_made :
    (handle_get_keyshares plain_spec in_order echo results_by_url any_operator [] shares_flags
      (9 ∷ [])
      []).0
    ≡ ok shares_file
unfolding ask results_of_answer read_results format_results format_outputs format_entry
    format_output dkg_result_by_request_id insert handle_get_keyshares bytes_eq
    messenger_addr_from_env Hex.decode Hex.encode rockx_dkg_cli.Cli.Data.poll
    rockx_dkg_cli.Cli.Data.settle rockx_dkg_cli.Cli.Data.signed_prefix
    rockx_dkg_cli.Cli.KeyShares.assemble rockx_dkg_cli.Cli.KeyShares.generate_keyshare_v4
    rockx_dkg_cli.Cli.KeyShares.key_shares_of rockx_dkg_cli.Cli.KeyShares.operator_data
    rockx_dkg_cli.Cli.KeyShares.place_id rockx_dkg_cli.Cli.KeyShares.sort_ids
    rockx_dkg_cli.Cli.KeyShares.to_uint32 rockx_dkg_cli.Cli.KeyShares.unless_blamed
    rockx_dkg_cli.Cli.Keysign.sign_with rockx_dkg_cli.Cli.Keysign.generate_signature
    rockx_dkg_cli.Cli.Keysign.init_msg_for_keysign rockx_dkg_cli.Cli.Operators.parse_operator_list
    rockx_dkg_cli.Cli.Operators.parse_operators rockx_dkg_cli.Cli.Operators.parse_operator
    rockx_dkg_cli.Cli.Operators.operator_pair rockx_dkg_cli.Cli.Results.get_signature_from_key_sign
    rockx_dkg_cli.Cli.Results.keysign_text rockx_dkg_cli.Cli.Results.keygen_text
    rockx_dkg_cli.Cli.Results.signature_text rockx_dkg_cli.Cli.Results.get_validator_pk
    rockx_dkg_cli.Cli.Results.agreed rockx_dkg_cli.Cli.Results.agree
    rockx_dkg_cli.Cli.Results.agree_with rockx_dkg_cli.Cli.Spec.consume_url
    rockx_dkg_cli.Cli.Spec.send_all rockx_dkg_cli.Cli.Spec.send_msg
    rockx_dkg_cli.Client.create_topic rockx_dkg_cli.Client.new_messenger_client
    rockx_dkg_cli.Go.Strconv.atoi rockx_dkg_cli.Go.Strings.trim rockx_dkg_cli.Go.Strings.split
    rockx_dkg_cli.Go.Strconv.decimal rockx_dkg_cli.Go.Strconv.to_uint64 rockx_dkg_cli.Net.post
    rockx_dkg_cli.Registry.get_operator_from_registry_by_id rockx_dkg_cli.Registry.registry_answer
    rockx_dkg_cli.Registry.registry_url
shares_made = refl

handle_get_keyshares-ok_example :
    (keygen_result.blame ≡ none)
    × ((vk : Bytes) × All (Says vk) (vk_texts keygen_result.outputs)
        × ((key : Bytes) × (shares_file.payload.public_key ≡ zero_x key) × Says vk key)
        × ((asked plain_spec in_order echo [] shares_flags vk
              (9 ∷ [])
              (fetched echo results_by_url [] shares_flags []).1).0
            ≡ ok (9 ∷ []))
        × ((k : ℕ) × (k < 4)
            × (result : DkgResult) × ((reread echo results_by_url []
                  (9 ∷ [])
                  k
                  (asked plain_spec in_order echo [] shares_flags vk
                    (9 ∷ [])
                    (fetched echo results_by_url [] shares_flags []).1).1).0
                ≡ ok result)
            × (prefix : Bytes) × (get_signature_from_key_sign result ≡ ok prefix)
            × (shares_file.payload.shares
                ≡ shares_to_bytes
                    (public_keys keygen_result.outputs shares_file.payload.operator_ids)
                    (encrypted_keys keygen_result.outputs shares_file.payload.operator_ids)
                    prefix)))
handle_get_keyshares-ok_example =
    handle_get_keyshares-ok plain_spec in_order echo results_by_url any_operator [] shares_flags
      (9 ∷ []) [] keygen_result shares_file keygen_fetched two_fit shares_made
