-- ===== src/Storage/Keygen.antt =====
-- The outputs of key generations in the storage.
pub mod RoundTrip
use rockx_dkg_cli.Storage.{Kv, Json, found, key_not_found, read_failed, Read}
use rockx_dkg_cli.Prelude.{
  ℕ, Option, none, some, [], ◌∷◌, if◌then◌else◌, Bytes, GoMap, insert, bytes_key, nat_key,
}
use rockx_dkg_cli.Go.Hex

-- storage.KeyGenOutput: every key is a hexadecimal text.
pub record KeygenText : Type 0 where
  pub share : Bytes
  pub operator_pub_keys : GoMap ℕ Bytes
  pub validator_pk : Bytes
  pub threshold : ℕ

-- dkg.KeyGenOutput, over the keys of the BLS library.
pub record KeygenOutput (Sk Pk : Type 0) : Type 0 where
  pub share : Sk
  pub operator_pub_keys : GoMap ℕ Pk
  pub validator_pk : Bytes
  pub threshold : ℕ

-- SerializeToHexStr and DeserializeHexStr of secret and public keys.
pub record Bls (Sk Pk : Type 0) : Type 0 where
  pub sk_text : Sk → Bytes
  pub sk_of : Bytes → Option Sk
  pub pk_text : Pk → Bytes
  pub pk_of : Bytes → Option Pk

module _ {Sk Pk : Type 0} (bls : Bls Sk Pk) where
  unfoldable pub pub_key_texts : GoMap ℕ Bytes → GoMap ℕ Pk → GoMap ℕ Bytes
  pub_key_texts texts [] = texts
  pub_key_texts texts ((i, pk) ∷ pks) = pub_key_texts (insert i (bls.pk_text pk) texts) pks

  unfoldable pub keygen_text : KeygenOutput Sk Pk → KeygenText
  keygen_text output = record {
    share = bls.sk_text output.share;
    operator_pub_keys = pub_key_texts [] output.operator_pub_keys;
    validator_pk = Hex.encode output.validator_pk;
    threshold = output.threshold;
  }

  unfoldable pub pub_keys_of : GoMap ℕ Pk → GoMap ℕ Bytes → Option (GoMap ℕ Pk)
  pub_keys_of pks [] = some pks
  pub_keys_of pks ((i, text) ∷ texts) = elim (bls.pk_of text) [
    | none ↦ none
    | some pk ↦ pub_keys_of (insert i pk pks) texts
  ]

  abbrev with_pub_keys : Bytes → ℕ → Sk → Option (GoMap ℕ Pk) → Option (KeygenOutput Sk Pk)
  with_pub_keys vk threshold share none = none
  with_pub_keys vk threshold share (some pks) =
      some (record {
        share = share;
        operator_pub_keys = pks;
        validator_pk = vk;
        threshold = threshold;
      })

  abbrev with_share : Bytes → KeygenText → Option Sk → Option (KeygenOutput Sk Pk)
  with_share vk text none = none
  with_share vk text (some share) =
      with_pub_keys vk text.threshold share (pub_keys_of [] text.operator_pub_keys)

  -- Decode, after the JSON.
  unfoldable pub output_of : KeygenText → Option (KeygenOutput Sk Pk)
  output_of text =
      if (Hex.decode text.validator_pk).valid
      then with_share (Hex.decode text.validator_pk).bytes text (bls.sk_of text.share)
      else none

  unfoldable pub encode_output : Json KeygenText → KeygenOutput Sk Pk → Option Bytes
  encode_output json output = json.marshal (keygen_text output)

  unfoldable pub decode_output : Json KeygenText → Bytes → Option (KeygenOutput Sk Pk)
  decode_output json value = elim (json.unmarshal value) [
    | none ↦ none
    | some text ↦ output_of text
  ]

  -- `none` is an error of the encoding or of the transaction.
  unfoldable pub save_keygen_output :
      {S : Type 0} → Kv S → Json KeygenText → KeygenOutput Sk Pk → S → Option S
  save_keygen_output kv json output s = elim (encode_output json output) [
    | none ↦ none
    | some value ↦ kv.set output.validator_pk value s
  ]

  unfoldable pub output_read : Json KeygenText → Read → Option (KeygenOutput Sk Pk)
  output_read json (found value) = decode_output json value
  output_read json key_not_found = none
  output_read json read_failed = none

  -- `none` is an error of the transaction or of the decoding.
  unfoldable pub get_keygen_output :
      {S : Type 0} → Kv S → Json KeygenText → Bytes → S → Option (KeygenOutput Sk Pk)
  get_keygen_output kv json pk s = output_read json (kv.get pk s)
