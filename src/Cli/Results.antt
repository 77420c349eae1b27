-- ===== src/Cli/Results.antt =====
-- The results of a request as the tool shows them: internal/cli/dkg_result.go, and
-- DKGResultByRequestID of internal/cli/server.go.
pub mod Agreement
pub mod Formatted
use rockx_dkg_cli.Go.Strconv.{itoa, to_int}
use rockx_dkg_cli.Net.{
  World, Result, err, panics, Exec, ok, Answer, request_failed, vk_not_equal, Request, unparsable,
  not_hex, ask, answered, ◌>>=◌, bad_status, lift, failed,
}
use rockx_dkg_cli.Dkg.{DataStore, SignedOutput, BlameOutput, KeySignOutput, Output}
use rockx_dkg_cli.Prelude.{
  ℕ, Option, none, some, List, [], ◌∷◌, ◌++◌, ◌==◌, if◌then◌else◌, Bytes, codes, bytes_eq, GoMap,
  insert, bytes_key, nat_key,
}
use rockx_dkg_cli.Go.Hex

-- Every field is a hexadecimal text.
pub record OutputText : Type 0 where
  pub request_id : Bytes
  pub encrypted_share : Bytes
  pub share_pub_key : Bytes
  pub validator_pub_key : Bytes
  pub deposit_data_signature : Bytes

pub record KeySignText : Type 0 where
  pub request_id : Bytes
  pub validator_pub_key : Bytes
  pub signature : Bytes

pub record SignedText : Type 0 where
  pub key_sign_data : KeySignText
  pub output : OutputText
  pub signer : Bytes
  pub signature : Bytes

pub record DkgResult : Type 0 where
  pub outputs : GoMap ℕ SignedText
  pub blame : Option BlameOutput

abbrev pub no_output : OutputText
no_output = record {
  request_id = [];
  encrypted_share = [];
  share_pub_key = [];
  validator_pub_key = [];
  deposit_data_signature = [];
}

abbrev pub no_key_sign : KeySignText
no_key_sign = record { request_id = []; validator_pub_key = []; signature = [] }

-- What a missing key of the map reads as.
abbrev pub no_signed : SignedText
no_signed = record { key_sign_data = no_key_sign; output = no_output; signer = []; signature = [] }

unfoldable pub agree_with : Bytes → Bytes → Option Bytes → Result (Option Bytes)
agree_with text value none = ok (some value)
agree_with text value (some before) =
    if bytes_eq before value then ok (some value) else err vk_not_equal

unfoldable pub agree : Bytes → Option Bytes → Result (Option Bytes)
agree text before =
    if (Hex.decode text).valid
    then agree_with text (Hex.decode text).bytes before
    else err (not_hex text)

-- The loop of GetValidatorPK and of GetSignatureFromKeySign, over the texts that they read.
unfoldable pub agreed : Option Bytes → List Bytes → Result (Option Bytes)
agreed before [] = ok before
agreed before (text ∷ texts) = elim (agree text before) [
  | ok next ↦ agreed next texts
  | err e ↦ err e
  | panics ↦ panics
]

abbrev pub vk_texts : GoMap ℕ SignedText → List Bytes
vk_texts [] = []
vk_texts ((i, o) ∷ os) = o.output.validator_pub_key ∷ vk_texts os

abbrev pub signature_texts : GoMap ℕ SignedText → List Bytes
signature_texts [] = []
signature_texts ((i, o) ∷ os) = o.key_sign_data.signature ∷ signature_texts os

-- `none` is the nil slice.
unfoldable pub get_validator_pk : DkgResult → Result (Option Bytes)
get_validator_pk r = agreed none (vk_texts r.outputs)

unfoldable pub signature_text : Result (Option Bytes) → Result Bytes
signature_text (ok none) = ok []
signature_text (ok (some sig)) = ok (Hex.encode sig)
signature_text (err e) = err e
signature_text panics = panics

unfoldable pub get_signature_from_key_sign : DkgResult → Result Bytes
get_signature_from_key_sign r = signature_text (agreed none (signature_texts r.outputs))

unfoldable pub keysign_text : SignedOutput → KeySignOutput → SignedText
keysign_text o d = record {
  key_sign_data = record {
    request_id = Hex.encode d.request_id;
    validator_pub_key = Hex.encode d.validator_pk;
    signature = Hex.encode d.signature;
  };
  output = no_output;
  signer = itoa (to_int o.signer);
  signature = Hex.encode o.signature;
}

unfoldable pub keygen_text : SignedOutput → Output → SignedText
keygen_text o d = record {
  key_sign_data = no_key_sign;
  output = record {
    request_id = Hex.encode d.request_id;
    encrypted_share = Hex.encode d.encrypted_share;
    share_pub_key = Hex.encode d.share_pub_key;
    validator_pub_key = Hex.encode d.validator_pub_key;
    deposit_data_signature = Hex.encode d.deposit_data_signature;
  };
  signer = itoa (to_int o.signer);
  signature = Hex.encode o.signature;
}

-- A nil output, or one with neither kind of data, is dereferenced.
unfoldable pub format_output : SignedOutput → Result SignedText
format_output o = elim o.key_sign_data [
  | some d ↦ ok (keysign_text o d)
  | none ↦ elim o.output [ none ↦ panics | some d ↦ ok (keygen_text o d) ]
]

unfoldable pub format_entry : Option SignedOutput → Result SignedText
format_entry none = panics
format_entry (some o) = format_output o

unfoldable pub format_outputs :
    GoMap ℕ SignedText → GoMap ℕ (Option SignedOutput) → Result (GoMap ℕ SignedText)
format_outputs output [] = ok output
format_outputs output ((i, o) ∷ os) = elim (format_entry o) [
  | ok v ↦ format_outputs (insert i v output) os
  | err e ↦ err e
  | panics ↦ panics
]

abbrev of_outputs : Result (GoMap ℕ SignedText) → Result DkgResult
of_outputs (ok outputs) = ok record { outputs = outputs; blame = none }
of_outputs (err e) = err e
of_outputs panics = panics

unfoldable pub format_blame_results : BlameOutput → DkgResult
format_blame_results b = record { outputs = []; blame = some b }

unfoldable pub format_results : DataStore → Result DkgResult
format_results data_store = elim data_store.blame_output [
  | some b ↦ ok (format_blame_results b)
  | none ↦ of_outputs (format_outputs [] data_store.dkg_outputs)
]

-- What a body says: `parse` is json.Unmarshal into a pointer, which the text `null` sets to nil.
unfoldable pub read_results : Option (Option DataStore) → Result DkgResult
read_results none = err unparsable
read_results (some none) = panics
read_results (some (some data_store)) = format_results data_store

unfoldable pub results_of_answer :
    (parse : Bytes → Option (Option DataStore)) → Answer → Result DkgResult
results_of_answer parse failed = err request_failed
results_of_answer parse (answered code body) =
    if code == 200 then read_results (parse body) else err (bad_status code)

unfoldable pub dkg_result_by_request_id :
    World → (parse : Bytes → Option (Option DataStore)) → Bytes → Bytes → Exec DkgResult
dkg_result_by_request_id world parse messenger_addr request_id =
    let req : Request = record {
      url = messenger_addr ++ codes "/data/" ++ request_id;
      payload = none;
    } in
    ask world req >>= λ answer. lift (results_of_answer parse answer)
