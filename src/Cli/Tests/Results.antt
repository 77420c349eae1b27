-- ===== src/Cli/Tests/Results.antt =====
-- Runs of the theorems on results and keyshares.
use rockx_dkg_cli.Cli.KeyShares.Order.{Reordered, generate_keyshare_v4-payload, swapped}
use rockx_dkg_cli.Cli.KeyShares.Shares.{Holds, gather, shares_to_bytes_lem}
use rockx_dkg_cli.Cli.Data.{ParseStore}
use rockx_dkg_cli.Net.{World, Result, answered, ok, unparsable, bad_status, err, panics}
use rockx_dkg_cli.Dkg.{DataStore, SignedOutput}
use rockx_dkg_cli.Cli.Data.Polling.{Misses}
use rockx_dkg_cli.Cli.KeyShares.{
  generate_keyshare_v4, shares_to_bytes, KeyShares, sort_ids, public_keys, encrypted_keys,
  to_uint32,
}
use rockx_dkg_cli.Cli.Results.Agreement.{Says, get_validator_pk_iff}
use rockx_dkg_cli.Cli.Results.{
  DkgResult, results_of_answer, SignedText, get_validator_pk, no_signed, signature_texts,
  format_results, vk_texts, no_key_sign, no_output,
}
use rockx_dkg_cli.Cli.KeyShares.Sorted.{IsSorted, ids_of, generate_keyshare_v4-IsSorted}
use rockx_dkg_cli.Registry.{OperatorResponse}
use rockx_dkg_cli.Prelude.{
  ℕ, ◌≡◌, refl, ◌≢◌, ◌↔◌, Option, none, some, [], ◌∷◌, ◌++◌, map, arith, All, Bytes, codes, lookup,
  bytes_key, nat_key,
}
use rockx_dkg_cli.Go.Hex

abbrev pub generated : SignedOutput
generated = record {
  key_sign_data = none;
  output = some (record {
    request_id = 9 ∷ [];
    encrypted_share = 4 ∷ [];
    share_pub_key = 5 ∷ [];
    validator_pub_key = 171 ∷ [];
    deposit_data_signature = 6 ∷ [];
  });
  signer = 1;
  signature = 8 ∷ [];
}

abbrev pub stored : DataStore
stored = record {
  dkg_outputs = (2, some generated) ∷ (1, some generated) ∷ [];
  blame_output = none;
}

abbrev text_output : SignedText
text_output = record no_signed {
  key_sign_data = record no_key_sign { signature = codes "0c" };
  output = record no_output {
    validator_pub_key = codes "AB";
    share_pub_key = codes "05";
    encrypted_share = codes "04";
  };
}

abbrev shown_result : DkgResult
shown_result = record { outputs = (2, text_output) ∷ (1, text_output) ∷ []; blame = none }

get_validator_pk_iff_example :
    (get_validator_pk shown_result ≡ ok (some (171 ∷ [])))
    ↔ ((vk_texts shown_result.outputs ≢ []) × All (Says (171 ∷ [])) (vk_texts shown_result.outputs))
get_validator_pk_iff_example = get_validator_pk_iff shown_result (171 ∷ [])

signatures_agree : All (Says (12 ∷ [])) (signature_texts shown_result.outputs)
unfolding Hex.decode
signatures_agree = ((refl, refl), ((refl, refl), tt))

abbrev world_of_operators : World
world_of_operators sent req = answered 200 []

abbrev pub any_operator : Bytes → Option OperatorResponse
any_operator body = some (record { id = 0; owner = []; public_key = codes "k" })

abbrev no_key_shares : KeyShares
no_key_shares = record {
  version = [];
  share_data = record { public_key = []; operators = [] };
  payload = record { public_key = []; operator_ids = []; shares = []; amount = []; cluster = [] };
}

abbrev pub or_none : Result KeyShares → KeyShares
or_none (ok ks) = ks
or_none _ = no_key_shares

abbrev made : KeyShares
made = or_none (generate_keyshare_v4 world_of_operators any_operator shown_result (codes "ff") []).0

made_ok :
    (generate_keyshare_v4 world_of_operators any_operator shown_result (codes "ff") []).0 ≡ ok made
unfolding generate_keyshare_v4 rockx_dkg_cli.Cli.KeyShares.unless_blamed
    rockx_dkg_cli.Cli.KeyShares.key_shares_of rockx_dkg_cli.Cli.KeyShares.operator_data
    rockx_dkg_cli.Registry.get_operator_from_registry_by_id rockx_dkg_cli.Net.ask
    rockx_dkg_cli.Registry.registry_answer rockx_dkg_cli.Cli.KeyShares.assemble sort_ids
    rockx_dkg_cli.Cli.KeyShares.place_id to_uint32
made_ok = refl

generate_keyshare_v4-IsSorted_example :
    IsSorted made.payload.operator_ids
    × (made.payload.operator_ids ≡ sort_ids (map (λ p. to_uint32 p.0) shown_result.outputs))
    × (ids_of made.share_data.operators ≡ made.payload.operator_ids)
generate_keyshare_v4-IsSorted_example =
    generate_keyshare_v4-IsSorted world_of_operators any_operator shown_result (codes "ff") [] made
      made_ok

abbrev pk_of : ℕ → Bytes
pk_of i = 5 ∷ []

abbrev share_of : ℕ → Bytes
share_of i = 4 ∷ []

both_hold : All (Holds shown_result.outputs pk_of share_of) (1 ∷ 2 ∷ [])
unfolding Hex.encode rockx_dkg_cli.Cli.KeyShares.output_at rockx_dkg_cli.Prelude.lookup
both_hold = (
  (refl, refl, (omega arith, tt), (omega arith, tt)),
  ((refl, refl, (omega arith, tt), (omega arith, tt)), tt),
)

shares_to_bytes_lem_example :
    shares_to_bytes
      (public_keys shown_result.outputs (1 ∷ 2 ∷ []))
      (encrypted_keys shown_result.outputs (1 ∷ 2 ∷ []))
      (codes "ff")
    ≡ b'0'
      ∷ b'x'
      ∷ (codes "ff" ++ Hex.encode (gather pk_of (1 ∷ 2 ∷ []) ++ gather share_of (1 ∷ 2 ∷ [])))
shares_to_bytes_lem_example =
    shares_to_bytes_lem shown_result.outputs pk_of share_of (1 ∷ 2 ∷ []) (codes "ff") both_hold

-- The signature is there at the second try.
abbrev second_time : World
second_time [] req = answered 404 []
second_time (a ∷ rest) req = answered 200 []

abbrev stored_parse : ParseStore
stored_parse body = some (some stored)

abbrev stored_result : DkgResult
stored_result = elim (format_results stored) [
  | ok r ↦ r
  | err e ↦ shown_result
  | panics ↦ shown_result
]

stored_found : results_of_answer stored_parse (answered 200 []) ≡ ok stored_result
unfolding results_of_answer rockx_dkg_cli.Cli.Results.read_results format_results
    rockx_dkg_cli.Cli.Results.format_outputs rockx_dkg_cli.Cli.Results.format_entry
    rockx_dkg_cli.Cli.Results.format_output
stored_found = refl

first_missed : Misses second_time stored_parse (codes "m") (codes "ab") 1 []
unfolding results_of_answer
first_missed = ((bad_status 404, refl), tt)

never : Misses world_of_operators (λ body. none) (codes "m") (codes "ab") 4 []
unfolding results_of_answer rockx_dkg_cli.Cli.Results.read_results
never = ((unparsable, refl), ((unparsable, refl), ((unparsable, refl), ((unparsable, refl), tt))))

abbrev reversed_result : DkgResult
reversed_result = record { outputs = (1, text_output) ∷ (2, text_output) ∷ []; blame = none }

abbrev made_reversed : KeyShares
made_reversed =
    or_none (generate_keyshare_v4 world_of_operators any_operator reversed_result (codes "ff") []).0

made_reversed_ok :
    (generate_keyshare_v4 world_of_operators any_operator reversed_result (codes "ff") []).0
    ≡ ok made_reversed
unfolding generate_keyshare_v4 rockx_dkg_cli.Cli.KeyShares.unless_blamed
    rockx_dkg_cli.Cli.KeyShares.key_shares_of rockx_dkg_cli.Cli.KeyShares.operator_data
    rockx_dkg_cli.Registry.get_operator_from_registry_by_id rockx_dkg_cli.Net.ask
    rockx_dkg_cli.Registry.registry_answer rockx_dkg_cli.Cli.KeyShares.assemble sort_ids
    rockx_dkg_cli.Cli.KeyShares.place_id to_uint32
made_reversed_ok = refl

two_orders : Reordered shown_result.outputs reversed_result.outputs
unfolding lookup
two_orders = (swapped 2 1 [], λ i. ground arith)

generate_keyshare_v4-payload_example : made.payload ≡ made_reversed.payload
generate_keyshare_v4-payload_example =
    generate_keyshare_v4-payload world_of_operators any_operator shown_result reversed_result
      (codes "ff") [] [] made made_reversed two_orders made_ok made_reversed_ok
