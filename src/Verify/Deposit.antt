-- ===== src/Verify/Deposit.antt =====
-- The verification tool on the deposit data that the command line tool writes.
use rockx_dkg_cli.Cli.KeyShares.{output_at}
use rockx_dkg_cli.Cli.Results.{DkgResult, OutputText}
use rockx_dkg_cli.Cli.Data.{
  deposit_data_json, DepositLib, DepositFlags, DepositDataJson, first_operator,
}
use rockx_dkg_cli.Net.{ok, Result, err, panics, Result-cases}
use rockx_dkg_cli.Verify.{
  VerifyLib, verify, with_root, with_public_key, with_signature, succeeds, verify_main,
}
use rockx_dkg_cli.Prelude.{
  ◌≡◌, refl, ◌↔◌, true, some, arith, Bytes, ◌⊎◌, inl, inr, Bool, false, Option, none, List, [], ◌∷◌,
  Bool-cases, sym, ap,
}
use rockx_dkg_cli.Go.Hex

abbrev field_of : (DepositDataJson → Bytes) → Result DepositDataJson → Bytes
field_of f (ok json) = f json
field_of f (err e) = []
field_of f panics = []

json_fields :
    (lib : DepositLib) (flags : DepositFlags) (results : DkgResult) (json : DepositDataJson)
    → deposit_data_json lib flags results ≡ ok json
    → let output : OutputText = output_at results.outputs (first_operator results.outputs) in
      (json.network_name ≡ flags.fork_version)
      × (json.pub_key ≡ output.validator_pub_key)
      × (json.signature ≡ output.deposit_data_signature)
      × (json.withdrawal_credentials ≡ flags.withdrawal_credentials)
unfolding deposit_data_json
json_fields lib flags results json h =
    let output : OutputText = output_at results.outputs (first_operator results.outputs) in
    elim (Result-cases (
      lib.generate_deposit_data (Hex.decode output.validator_pub_key).bytes
        (Hex.decode flags.withdrawal_credentials).bytes (lib.fork_version flags.fork_version))) [
          | inl (d, e) ↦
              let written = rw (deposit_data_json, e) at h in
              (
                ap (field_of (λ z. z.network_name)) (sym written),
                ap (field_of (λ z. z.pub_key)) (sym written),
                ap (field_of (λ z. z.signature)) (sym written),
                ap (field_of (λ z. z.withdrawal_credentials)) (sym written),
              )
          | inr (inl (x, e)) ↦
              let written : Path (Result DepositDataJson) (err x) (ok json) =
                rw (deposit_data_json, e) at h in
              ground (arith, written)
          | inr (inr e) ↦
              let written : Path (Result DepositDataJson) panics (ok json) =
                rw (deposit_data_json, e) at h in
              ground (arith, written)
        ]

module _ {Pk Sig : Type 0} (lib : VerifyLib Pk Sig) where
  -- The signature verifies under the key, for the signing root of the key and the credentials.
  pub record Verifies (fork pk_bytes signature credentials : Bytes) : Type 0 where
    pub root : Bytes
    pub pk : Pk
    pub sig : Sig
    pub rooted : lib.signing_root pk_bytes credentials fork ≡ ok root
    pub is_key : lib.deserialize pk_bytes ≡ some pk
    pub is_signature : lib.deserialize_hex_str signature ≡ some sig
    pub verified : lib.verify_byte sig pk root ≡ true

  signature-ok :
      (root : Bytes) (pk : Pk) (o : Option Sig)
      → with_signature lib root pk o ≡ ok tt
      → (sig : Sig) × (o ≡ some sig) × (lib.verify_byte sig pk root ≡ true)
  unfolding with_signature succeeds
  signature-ok root pk none h = ground (arith, h)
  signature-ok root pk (some sig) h = elim (Bool-cases (lib.verify_byte sig pk root)) [
    | inl good ↦ (sig, refl, good)
    | inr bad ↦
        let no_success : Path (Result (Unit {0})) panics (ok tt) = rw bad at h in
        ground (arith, no_success)
  ]

  key-ok :
      (root signature : Bytes) (o : Option Pk)
      → with_public_key lib root signature o ≡ ok tt
      → (pk : Pk) × (sig : Sig) × (o ≡ some pk)
        × (lib.deserialize_hex_str signature ≡ some sig)
        × (lib.verify_byte sig pk root ≡ true)
  unfolding with_public_key
  key-ok root signature none h = ground (arith, h)
  key-ok root signature (some pk) h =
      let (sig, e, good) = signature-ok root pk (lib.deserialize_hex_str signature) h in
      (pk, sig, refl, e, good)

  root-ok :
      (pk_bytes signature credentials fork : Bytes) (r : Result Bytes)
      → lib.signing_root pk_bytes credentials fork ≡ r
      → with_root lib pk_bytes signature r ≡ ok tt
      → Verifies fork pk_bytes signature credentials
  unfolding with_root
  root-ok pk_bytes signature credentials fork (err e) same h = ground (arith, h)
  root-ok pk_bytes signature credentials fork panics same h = ground (arith, h)
  root-ok pk_bytes signature credentials fork (ok root) same h =
      let (pk, sig, a, b, c) = key-ok root signature (lib.deserialize pk_bytes) h in
      record {
        root = root;
        pk = pk;
        sig = sig;
        rooted = same;
        is_key = a;
        is_signature = b;
        verified = c;
      }

  success_ends : (b : Bool) → (succeeds lib b ≡ ok tt) ⊎ (succeeds lib b ≡ panics)
  unfolding succeeds
  success_ends true = inl refl
  success_ends false = inr refl

  signature_ends :
      (root : Bytes) (pk : Pk) (o : Option Sig)
      → (with_signature lib root pk o ≡ ok tt) ⊎ (with_signature lib root pk o ≡ panics)
  unfolding with_signature
  signature_ends root pk none = inr refl
  signature_ends root pk (some sig) = success_ends (lib.verify_byte sig pk root)

  key_ends :
      (root signature : Bytes) (o : Option Pk)
      → (with_public_key lib root signature o ≡ ok tt)
        ⊎ (with_public_key lib root signature o ≡ panics)
  unfolding with_public_key
  key_ends root signature none = inr refl
  key_ends root signature (some pk) = signature_ends root pk (lib.deserialize_hex_str signature)

  root_ends :
      (pk_bytes signature : Bytes) (r : Result Bytes)
      → (with_root lib pk_bytes signature r ≡ ok tt) ⊎ (with_root lib pk_bytes signature r ≡ panics)
  unfolding with_root
  root_ends pk_bytes signature (ok root) = key_ends root signature (lib.deserialize pk_bytes)
  root_ends pk_bytes signature (err e) = inr refl
  root_ends pk_bytes signature panics = inr refl

  -- It succeeds or panics, and ends in no other way.
  verify_ends :
      (network public_key signature credentials : Bytes)
      → (verify lib network public_key signature credentials ≡ ok tt)
        ⊎ (verify lib network public_key signature credentials ≡ panics)
  unfolding verify
  verify_ends network public_key signature credentials =
      root_ends (Hex.decode public_key).bytes signature (
        lib.signing_root (Hex.decode public_key).bytes (Hex.decode credentials).bytes
          (lib.fork_version network))

  verify-ok_iff :
      (network public_key deposit_sig credentials : Bytes)
      → verify lib network public_key deposit_sig credentials ≡ ok tt
        ↔ Verifies
            (lib.fork_version network)
            (Hex.decode public_key).bytes
            deposit_sig
            (Hex.decode credentials).bytes
  unfolding verify
  verify-ok_iff network public_key deposit_sig credentials = (
    λ h.
        root-ok (Hex.decode public_key).bytes deposit_sig (Hex.decode credentials).bytes
          (lib.fork_version network) _ refl h,
    λ v.
        unfold with_root with_public_key with_signature succeeds in
        rw v.rooted (rw v.is_key (rw v.is_signature (rw v.verified refl))),
  )

  -- On the fields of a deposit data file that the command line tool has written, in the order of its
  -- arguments, the tool succeeds exactly where the first operator's signature is a BLS signature, under
  -- the validator key that this operator reports, of the signing root of that key, the credentials of
  -- the flag and the fork of the flag's network. Otherwise it panics.
  pub verify_main-deposit_data_json :
      (deposit_lib : DepositLib) (flags : DepositFlags) (results : DkgResult)
      (json : DepositDataJson) (program : Bytes)
      → deposit_data_json deposit_lib flags results ≡ ok json
      → let args : List Bytes =
          program ∷ json.network_name ∷ json.pub_key ∷ json.signature ∷ json.withdrawal_credentials
          ∷ [] in
        let output : OutputText = output_at results.outputs (first_operator results.outputs) in
        (verify_main lib args ≡ ok tt
          ↔ Verifies
              (lib.fork_version flags.fork_version)
              (Hex.decode output.validator_pub_key).bytes
              output.deposit_data_signature
              (Hex.decode flags.withdrawal_credentials).bytes)
        × ((verify_main lib args ≡ ok tt) ⊎ (verify_main lib args ≡ panics))
  unfolding verify_main
  verify_main-deposit_data_json deposit_lib flags results json program h =
      let (p, q, r, s) = json_fields deposit_lib flags results json h in
      (
        rw (p, q, r, s) (verify-ok_iff flags.fork_version _ _ flags.withdrawal_credentials),
        verify_ends json.network_name json.pub_key json.signature json.withdrawal_credentials,
      )
