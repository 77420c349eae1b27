-- ===== src/Node.antt =====
-- The operator's node: internal/node/server.go and internal/keymanager/keymanager.go.
pub mod Params
pub mod Start
pub mod Results
pub mod Routes
pub mod Tests
use rockx_dkg_cli.Storage.{Kv, Json}
use rockx_dkg_cli.Storage.Keygen.{Bls, KeygenText, KeygenOutput, get_keygen_output}
use rockx_dkg_cli.Net.{Result, err, unparsable, ok, nil_key}
use rockx_dkg_cli.Prelude.{ℕ, Bool, Option, none, some, if◌then◌else◌, Bytes}
use rockx_dkg_cli.Go.Hex

-- What dkg.Node.ProcessMessage does: the node after it, and whether it gave an error.
pub record Processed (N : Type 0) : Type 0 where
  pub node : N
  pub failed_to_process : Bool

-- The handler of POST /consume gives the node after it and the status. `body` is none where reading it
-- fails; `decode` is SSVMessage.Decode and `process` is ProcessMessage.
unfoldable pub process_status : {N : Type 0} → Processed N → N × ℕ
process_status p = (p.node, (if p.failed_to_process then 500 else 200))

unfoldable pub consume_message :
    {N M : Type 0} → (process : M → N → Processed N) → Option M → N → N × ℕ
consume_message process none n = (n, 400)
consume_message process (some msg) n = process_status (process msg n)

unfoldable pub handle_consume :
    {N M : Type 0}
    → (decode : Bytes → Option M) (process : M → N → Processed N) → Option Bytes
    → N
    → N × ℕ
handle_consume decode process none n = (n, 400)
handle_consume decode process (some body) n = consume_message process (decode body) n

unfoldable pub results_reply : {A : Type 0} → Option A → ℕ × Option A
results_reply none = (500, none)
results_reply (some output) = (200, some output)

-- GET /dkg_results/:vk, which passes over an error of the hexadecimal text.
unfoldable pub handle_get_dkg_results :
    {S Sk Pk : Type 0}
    → Bls Sk Pk
    → Kv S
    → Json KeygenText
    → (vk : Bytes) → S
    → ℕ × Option (KeygenOutput Sk Pk)
handle_get_dkg_results bls kv json vk s =
    results_reply (get_keygen_output bls kv json (Hex.decode vk).bytes s)

-- The RSA library: its keys are their encodings, and encryption draws random bytes.
pub record Rsa : Type 0 where
  pub validate : Bytes → Bool
  pub decrypt_pkcs1 : Bytes → Bytes → Option Bytes
  pub encrypt_pkcs1 : (random : Bytes) → Bytes → Bytes → Option Bytes
  pub signing_root : (domain output : Bytes) → Option Bytes
  pub sign_root_with : Bytes → Bytes → Option Bytes

unfoldable pub or_error : Option Bytes → Result Bytes
or_error none = err unparsable
or_error (some s) = ok s

-- `none` is a nil key.
unfoldable pub decrypt : Rsa → Option Bytes → Bytes → Result Bytes
decrypt rsa none cipher = err nil_key
decrypt rsa (some sk) cipher =
    if rsa.validate sk then or_error (rsa.decrypt_pkcs1 sk cipher) else err unparsable

unfoldable pub encrypt : Rsa → (random : Bytes) → Option Bytes → Bytes → Result Bytes
encrypt rsa random none plaintext = err nil_key
encrypt rsa random (some pk) plaintext = or_error (rsa.encrypt_pkcs1 random pk plaintext)

unfoldable pub sign_dkg_output : Rsa → (domain output sk : Bytes) → Result Bytes
sign_dkg_output rsa domain output sk = elim (rsa.signing_root domain output) [
  | none ↦ err unparsable
  | some root ↦ or_error (rsa.sign_root_with sk root)
]
