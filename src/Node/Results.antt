-- ===== src/Node/Results.antt =====
-- The results of a key generation at its node.
use rockx_dkg_cli.Go.Hex.{IsByte}
use rockx_dkg_cli.Storage.Keygen.RoundTrip.{BlsLaw, KeygenJsonLaw, get_keygen_output-save}
use rockx_dkg_cli.Storage.{Kv, Json, KvLaw}
use rockx_dkg_cli.Storage.Keygen.{Bls, KeygenText, KeygenOutput, save_keygen_output}
use rockx_dkg_cli.Node.{handle_get_dkg_results, results_reply}
use rockx_dkg_cli.Prelude.{
  ◌≡◌, refl, ap, ◌∙◌, some, if◌then◌else◌, All, Distinct, bytes_key, nat_key, inl, inr, Bool-cases,
  Bytes, bytes_eq,
}
use rockx_dkg_cli.Go.Hex

-- A saved output is what the node gives for the hexadecimal text of its validator key, and the other
-- keys read as before.
pub handle_get_dkg_results-save :
    {S Sk Pk : Type 0} (bls : Bls Sk Pk) (kv : Kv S) (json : Json KeygenText)
    (output : KeygenOutput Sk Pk) (s s' : S) (vk : Bytes)
    → BlsLaw bls
    → KvLaw kv
    → KeygenJsonLaw json
    → All IsByte output.validator_pk
    → Distinct output.operator_pub_keys
    → All IsByte vk
    → save_keygen_output bls kv json output s ≡ some s'
    → handle_get_dkg_results bls kv json (Hex.encode vk) s' ≡ (
        if bytes_eq output.validator_pk vk
        then (200, some output)
        else handle_get_dkg_results bls kv json (Hex.encode vk) s)
unfolding handle_get_dkg_results results_reply
handle_get_dkg_results-save bls kv json output s s' vk bls_law kv_law json_law bytes d vk_bytes
      saved =
    rw (Hex.decode-encode vk vk_bytes) (
      ap results_reply
        (get_keygen_output-save bls kv json output s s' vk bls_law kv_law json_law bytes d saved)
      ∙ elim (Bool-cases (bytes_eq output.validator_pk vk)) [
        | inl e ↦ rw e refl
        | inr e ↦ rw e refl
      ])
