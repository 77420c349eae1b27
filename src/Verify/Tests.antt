-- ===== src/Verify/Tests.antt =====
-- A run of the theorem on the verification tool.
use rockx_dkg_cli.Verify.Deposit.{Verifies, verify_main-deposit_data_json}
use rockx_dkg_cli.Net.{ok, panics}
use rockx_dkg_cli.Cli.KeyShares.{output_at}
use rockx_dkg_cli.Cli.Data.{
  deposit_data_json, DepositDataJson, DepositFlags, DepositLib, copy_into, first_operator,
}
use rockx_dkg_cli.Cli.Results.{SignedText, DkgResult, no_key_sign}
use rockx_dkg_cli.Verify.{VerifyLib, verify_main}
use rockx_dkg_cli.Prelude.{
  ◌≡◌, refl, ◌↔◌, ◌⊎◌, true, none, some, [], ◌∷◌, ◌++◌, Bytes, codes, lookup, bytes_key, nat_key,
}
use rockx_dkg_cli.Go.Hex

abbrev any_root : VerifyLib Bytes Bytes
any_root = record {
  fork_version = λ network. network;
  signing_root = λ pk credentials fork. ok (pk ++ credentials);
  deserialize = λ pk. some pk;
  deserialize_hex_str = λ text. some text;
  verify_byte = λ sig pk root. true;
}

abbrev any_deposit : DepositLib
any_deposit = record {
  fork_version = λ network. network;
  max_effective_balance = 32;
  generate_deposit_data = λ pk credentials fork. ok (record { public_key = pk; rest = [] });
  message_root = λ pk credentials amount. pk;
  data_root = λ deposit signature. signature;
}

abbrev one_text : SignedText
one_text = record {
  key_sign_data = no_key_sign;
  output = record {
    request_id = [];
    encrypted_share = [];
    share_pub_key = [];
    validator_pub_key = codes "ab";
    deposit_data_signature = codes "cd";
  };
  signer = codes "1";
  signature = [];
}

abbrev one_result : DkgResult
one_result = record { outputs = (1, one_text) ∷ []; blame = none }

abbrev some_flags : DepositFlags
some_flags = record {
  request_id = [];
  withdrawal_credentials = codes "01";
  fork_version = codes "prater";
}

abbrev written : DepositDataJson
written = record {
  pub_key = codes "ab";
  withdrawal_credentials = codes "01";
  amount = 32;
  signature = codes "cd";
  deposit_message_root = codes "ab";
  deposit_data_root = Hex.encode (copy_into 96 (205 ∷ []));
  fork_version = Hex.encode (codes "prater");
  network_name = codes "prater";
  deposit_cli_version = codes "2.3.0";
}

written_file : deposit_data_json any_deposit some_flags one_result ≡ ok written
unfolding deposit_data_json output_at first_operator lookup Hex.encode Hex.decode
written_file = refl

verify_main-deposit_data_json_example :
    (verify_main any_root
          (codes "verify" ∷ codes "prater" ∷ codes "ab" ∷ codes "cd" ∷ codes "01" ∷ [])
        ≡ ok tt
      ↔ Verifies any_root
          (codes "prater")
          (Hex.decode (codes "ab")).bytes
          (codes "cd")
          (Hex.decode (codes "01")).bytes)
    × ((verify_main any_root
            (codes "verify" ∷ codes "prater" ∷ codes "ab" ∷ codes "cd" ∷ codes "01" ∷ [])
          ≡ ok tt)
        ⊎ (verify_main any_root
              (codes "verify" ∷ codes "prater" ∷ codes "ab" ∷ codes "cd" ∷ codes "01" ∷ [])
            ≡ panics))
unfolding output_at first_operator lookup
verify_main-deposit_data_json_example =
    verify_main-deposit_data_json any_root any_deposit some_flags one_result written
      (codes "verify") written_file
