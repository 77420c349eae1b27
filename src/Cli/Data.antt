-- ===== src/Cli/Data.antt =====
-- `get-dkg-results`, `get-keyshares` and `generate-deposit-data`: internal/cli/handle_get_data.go,
-- handle_get_keyshares.go and handle_get_deposit_data.go. The JSON file that each ends with is its result.
pub mod Polling
pub mod Shares
use rockx_dkg_cli.Cli.Keysign.{generate_signature}
use rockx_dkg_cli.Client.{messenger_addr_from_env}
use rockx_dkg_cli.Registry.{OperatorResponse}
use rockx_dkg_cli.Cli.KeyShares.{output_at, KeyShares, generate_keyshare_v4}
use rockx_dkg_cli.Cli.Spec.{SsvSpec, Ranges}
use rockx_dkg_cli.Dkg.{DataStore}
use rockx_dkg_cli.Net.{Result, World, Request, err, Exec, ok, not_signed, panics, ◌>>=◌, lift}
use rockx_dkg_cli.Cli.Results.{
  DkgResult, SignedText, dkg_result_by_request_id, get_signature_from_key_sign, get_validator_pk,
}
use rockx_dkg_cli.Go.Strconv.{ℤ, itoa}
use rockx_dkg_cli.Prelude.{
  ℕ, zero, suc, Option, none, some, List, [], ◌∷◌, ◌++◌, Bytes, codes, GoMap,
}
use rockx_dkg_cli.Go.Hex

abbrev pub ParseStore : Type 0
ParseStore = Bytes → Option (Option DataStore)

unfoldable pub handle_get_data : World → ParseStore → (env_addr request_id : Bytes) → Exec DkgResult
handle_get_data world parse env_addr request_id =
    dkg_result_by_request_id world parse (messenger_addr_from_env env_addr) request_id

-- The flags of `get-keyshares`.
pub record KeySharesFlags : Type 0 where
  pub request_id : Bytes
  pub operator : List Bytes
  pub owner_address : Bytes
  pub owner_nonce : ℤ

abbrev pub or_empty : Option Bytes → Bytes
or_empty none = []
or_empty (some s) = s

-- One try of the loop: what it does with a result, or how it goes on after an error.
unfoldable pub settle :
    Result DkgResult
    → (next : Result (Option DkgResult) × List Request) → List Request
    → Result (Option DkgResult) × List Request
settle (ok r) next sent = (ok (some r), sent)
settle (err e) next sent = next
settle panics next sent = (panics, sent)

-- The loop that waits for a signature; it gives `none` after its last try.
unfoldable pub poll :
    World → ParseStore → ℕ → (messenger_addr request_id : Bytes) → Exec (Option DkgResult)
poll world parse zero messenger_addr request_id sent = (ok none, sent)
poll world parse (suc n) messenger_addr request_id sent =
    let tried = dkg_result_by_request_id world parse messenger_addr request_id sent in
    let next = poll world parse n messenger_addr request_id tried.1 in settle tried.0 next tried.1

unfoldable pub signed_prefix : Option DkgResult → Result Bytes
signed_prefix none = err not_signed
signed_prefix (some r) = get_signature_from_key_sign r

module _ (spec : SsvSpec) (ranges : Ranges) (world : World) (parse : ParseStore) where
  -- The identifier of the signature request is drawn at random.
  unfoldable pub handle_get_keyshares :
      (parse_operator : Bytes → Option OperatorResponse) (env_addr : Bytes)
      → KeySharesFlags
      → (signature_id : Bytes) → Exec KeyShares
  handle_get_keyshares parse_operator env_addr flags signature_id =
      let messenger_addr : Bytes = messenger_addr_from_env env_addr in
      let signing_root : Bytes = flags.owner_address ++ b':' ∷ itoa flags.owner_nonce in
      dkg_result_by_request_id world parse messenger_addr flags.request_id >>= λ keygen_output.
      lift (get_validator_pk keygen_output) >>= λ vk.
      generate_signature spec ranges world env_addr flags.operator (or_empty vk) signing_root
        signature_id
      >>= λ signature_request_id.
          poll world parse 4 messenger_addr (Hex.encode signature_request_id)
          >>= λ signature_result. lift (signed_prefix signature_result) >>= λ owner_prefix.
              generate_keyshare_v4 world parse_operator keygen_output owner_prefix

-- phase0.DepositData: the field that the tool names, and the others.
pub record DepositData : Type 0 where
  pub public_key : Bytes
  pub rest : Bytes

-- The functions of the Ethereum libraries.
pub record DepositLib : Type 0 where
  pub fork_version : Bytes → Bytes
  pub max_effective_balance : ℕ
  pub generate_deposit_data : (pk withdrawal_credentials fork : Bytes) → Result DepositData
  pub message_root : (pk withdrawal_credentials : Bytes) (amount : ℕ) → Bytes
  pub data_root : DepositData → (signature : Bytes) → Bytes

pub record DepositDataJson : Type 0 where
  pub pub_key : Bytes
  pub withdrawal_credentials : Bytes
  pub amount : ℕ
  pub signature : Bytes
  pub deposit_message_root : Bytes
  pub deposit_data_root : Bytes
  pub fork_version : Bytes
  pub network_name : Bytes
  pub deposit_cli_version : Bytes

-- The flags of `generate-deposit-data`.
pub record DepositFlags : Type 0 where
  pub request_id : Bytes
  pub withdrawal_credentials : Bytes
  pub fork_version : Bytes

-- The first key that `range` meets, zero where there is none.
unfoldable pub first_operator : GoMap ℕ SignedText → ℕ
first_operator [] = 0
first_operator ((i, o) ∷ os) = i

-- copy into an array of n bytes that holds zeros
unfoldable pub copy_into : ℕ → Bytes → Bytes
copy_into zero s = []
copy_into (suc n) [] = 0 ∷ copy_into n []
copy_into (suc n) (c ∷ s) = c ∷ copy_into n s

unfoldable pub deposit_data_json : DepositLib → DepositFlags → DkgResult → Result DepositDataJson
deposit_data_json lib flags results =
    let output = output_at results.outputs (first_operator results.outputs) in
    let validator_pk : Bytes = (Hex.decode output.validator_pub_key).bytes in
    let credentials : Bytes = (Hex.decode flags.withdrawal_credentials).bytes in
    let fork : Bytes = lib.fork_version flags.fork_version in
    let amount : ℕ = lib.max_effective_balance in
    let bls_sig : Bytes = copy_into 96 (Hex.decode output.deposit_data_signature).bytes in
    elim (lib.generate_deposit_data validator_pk credentials fork) [
      | err e ↦ err e
      | panics ↦ panics
      | ok deposit_data ↦ ok record {
        pub_key = output.validator_pub_key;
        withdrawal_credentials = flags.withdrawal_credentials;
        amount = amount;
        signature = output.deposit_data_signature;
        deposit_message_root =
            Hex.encode (lib.message_root deposit_data.public_key credentials amount);
        deposit_data_root = Hex.encode (lib.data_root deposit_data bls_sig);
        fork_version = Hex.encode fork;
        network_name = flags.fork_version;
        deposit_cli_version = codes "2.3.0";
      }
    ]

unfoldable pub handle_get_deposit_data :
    World → ParseStore → DepositLib → (env_addr : Bytes) → DepositFlags → Exec DepositDataJson
handle_get_deposit_data world parse lib env_addr flags =
    dkg_result_by_request_id world parse (messenger_addr_from_env env_addr) flags.request_id
    >>= λ results. lift (deposit_data_json lib flags results)
