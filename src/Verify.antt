-- ===== src/Verify.antt =====
-- The verification tool: cmd/verify/main.go. It panics wherever it does not succeed.
pub mod Deposit
mod Tests
use rockx_dkg_cli.Net.{Result, ok, panics, err}
use rockx_dkg_cli.Prelude.{Bool, true, false, Option, none, some, List, ◌∷◌, Bytes}
use rockx_dkg_cli.Go.Hex

-- The functions of ssv-spec and of the BLS library that it calls. `signing_root` is the first result of
-- types.GenerateETHDepositData.
pub record VerifyLib (Pk Sig : Type 0) : Type 0 where
  pub fork_version : Bytes → Bytes
  pub signing_root : (pk withdrawal_credentials fork : Bytes) → Result Bytes
  pub deserialize : Bytes → Option Pk
  pub deserialize_hex_str : Bytes → Option Sig
  pub verify_byte : Sig → Pk → Bytes → Bool

module _ {Pk Sig : Type 0} (lib : VerifyLib Pk Sig) where
  unfoldable pub succeeds : Bool → Result (Unit {0})
  succeeds true = ok tt
  succeeds false = panics

  unfoldable pub with_signature : Bytes → Pk → Option Sig → Result (Unit {0})
  with_signature root pk none = panics
  with_signature root pk (some sig) = succeeds (lib.verify_byte sig pk root)

  unfoldable pub with_public_key : Bytes → Bytes → Option Pk → Result (Unit {0})
  with_public_key root deposit_sig none = panics
  with_public_key root deposit_sig (some pk) =
      with_signature root pk (lib.deserialize_hex_str deposit_sig)

  unfoldable pub with_root : Bytes → Bytes → Result Bytes → Result (Unit {0})
  with_root pk_bytes deposit_sig (ok root) =
      with_public_key root deposit_sig (lib.deserialize pk_bytes)
  with_root pk_bytes deposit_sig (err e) = panics
  with_root pk_bytes deposit_sig panics = panics

  -- The errors of the hexadecimal texts are passed over.
  unfoldable pub verify :
      (network public_key deposit_sig withdrawal_credentials : Bytes) → Result (Unit {0})
  verify network public_key deposit_sig withdrawal_credentials =
      let pk_bytes : Bytes = (Hex.decode public_key).bytes in
      let credentials : Bytes = (Hex.decode withdrawal_credentials).bytes in
      with_root pk_bytes deposit_sig
        (lib.signing_root pk_bytes credentials (lib.fork_version network))

  -- os.Args, the name of the program first. An index out of range panics.
  unfoldable pub verify_main : List Bytes → Result (Unit {0})
  verify_main (program ∷ network ∷ public_key ∷ deposit_sig ∷ credentials ∷ rest) =
      verify network public_key deposit_sig credentials
  verify_main _ = panics
