-- ===== src/Storage/Keygen/RoundTrip.antt =====
-- What is saved is read back.
use rockx_dkg_cli.Go.Hex.{IsByte}
use rockx_dkg_cli.Storage.{Json, Kv, KvLaw, Read, found}
use rockx_dkg_cli.Storage.Keygen.{
  Bls, save_keygen_output, output_of, pub_keys_of, pub_key_texts, KeygenText, get_keygen_output,
  keygen_text, encode_output, decode_output, KeygenOutput, output_read,
}
use rockx_dkg_cli.Prelude.{
  ℕ, ◌≡◌, refl, ap, ◌∙◌, inl, inr, none, some, [], ◌∷◌, arith, ◌==◌, if◌then◌else◌, Bool-cases,
  Option-cases, All, Bytes, bytes_eq, GoMap, lookup, insert, Distinct, bytes_key, nat_key,
  insert_all, insert_all-append, Bool, true, false,
}
use rockx_dkg_cli.Go.Hex

module _ {V W : Type 0} (f : V → W) where
  abbrev pub mapped : GoMap ℕ V → GoMap ℕ W
  mapped [] = []
  mapped ((i, v) ∷ m) = (i, f v) ∷ mapped m

  lookup-mapped : (k : ℕ) (m : GoMap ℕ V) → lookup k m ≡ none → lookup k (mapped m) ≡ none
  unfolding lookup
  lookup-mapped k [] h = refl
  lookup-mapped k ((i, v) ∷ m) h = elim (Bool-cases (i == k)) [
    | inl same ↦ absurd (ground (arith, h, same))
    | inr other ↦ rw other (lookup-mapped k m (ground (arith, h, other)))
  ]

  mapped-Distinct : (m : GoMap ℕ V) → Distinct m → Distinct (mapped m)
  mapped-Distinct [] d = tt
  mapped-Distinct ((i, v) ∷ m) (fresh, d) = (lookup-mapped i m fresh, mapped-Distinct m d)

module _ {Sk Pk : Type 0} (bls : Bls Sk Pk) where
  pub_key_texts-mapped :
      (texts : GoMap ℕ Bytes) (pks : GoMap ℕ Pk)
      → pub_key_texts bls texts pks ≡ insert_all texts (mapped bls.pk_text pks)
  unfolding pub_key_texts
  pub_key_texts-mapped texts [] = refl
  pub_key_texts-mapped texts ((i, pk) ∷ pks) =
      pub_key_texts-mapped (insert i (bls.pk_text pk) texts) pks

  pub_keys_of-mapped :
      ((k : Pk) → bls.pk_of (bls.pk_text k) ≡ some k)
      → (acc pks : GoMap ℕ Pk)
      → pub_keys_of bls acc (mapped bls.pk_text pks) ≡ some (insert_all acc pks)
  unfolding pub_keys_of
  pub_keys_of-mapped law acc [] = refl
  pub_keys_of-mapped law acc ((i, pk) ∷ pks) =
      rw (pub_keys_of, law pk) (pub_keys_of-mapped law (insert i pk acc) pks)

  -- Serialisation in hexadecimal is read back.
  abbrev pub BlsLaw : Type 0
  BlsLaw =
      ((k : Sk) → bls.sk_of (bls.sk_text k) ≡ some k)
      × ((k : Pk) → bls.pk_of (bls.pk_text k) ≡ some k)

  output_of-keygen_text :
      (output : KeygenOutput Sk Pk)
      → BlsLaw
      → All IsByte output.validator_pk
      → Distinct output.operator_pub_keys
      → output_of bls (keygen_text bls output) ≡ some output
  unfolding output_of keygen_text
  output_of-keygen_text output law bytes d =
      let pks = output.operator_pub_keys in
      let texts = mapped bls.pk_text pks in
      let written : pub_key_texts bls [] pks ≡ texts =
        pub_key_texts-mapped [] pks
        ∙ insert_all-append [] texts (mapped-Distinct bls.pk_text pks d) in
      let read : pub_keys_of bls [] texts ≡ some pks =
        pub_keys_of-mapped law.1 [] pks ∙ ap some (insert_all-append [] pks d) in
      rw (Hex.decode-encode output.validator_pk bytes, law.0 output.share)
        (rw written (rw read refl))

-- json.Unmarshal reads back what json.Marshal wrote.
abbrev pub KeygenJsonLaw : Json KeygenText → Type 0
KeygenJsonLaw json =
    (t : KeygenText) (v : Bytes) → json.marshal t ≡ some v → json.unmarshal v ≡ some t

decode_output-marshalled :
    {Sk Pk : Type 0} (bls : Bls Sk Pk) (json : Json KeygenText) (output : KeygenOutput Sk Pk)
    (value : Bytes)
    → BlsLaw bls
    → KeygenJsonLaw json
    → All IsByte output.validator_pk
    → Distinct output.operator_pub_keys
    → json.marshal (keygen_text bls output) ≡ some value
    → decode_output bls json value ≡ some output
unfolding decode_output
decode_output-marshalled bls json output value bls_law json_law bytes d marshalled =
    rw (decode_output, json_law (keygen_text bls output) value marshalled)
      (output_of-keygen_text bls output bls_law bytes d)

output_read-if :
    {Sk Pk : Type 0} (bls : Bls Sk Pk) (json : Json KeygenText) (b : Bool) (value : Bytes)
    (output : KeygenOutput Sk Pk) (r : Read)
    → decode_output bls json value ≡ some output
    → output_read bls json (if b then found value else r)
      ≡ (if b then some output else output_read bls json r)
unfolding output_read
output_read-if bls json true value output r h = h
output_read-if bls json false value output r h = refl

-- Where the transaction binds its key and no other, and JSON and the texts of the BLS keys are read
-- back, a key generation's output that is saved is what the storage gives for its validator key, and
-- every other validator key gives what it gave before.
pub get_keygen_output-save :
    {S Sk Pk : Type 0} (bls : Bls Sk Pk) (kv : Kv S) (json : Json KeygenText)
    (output : KeygenOutput Sk Pk) (s s' : S) (j : Bytes)
    → BlsLaw bls
    → KvLaw kv
    → KeygenJsonLaw json
    → All IsByte output.validator_pk
    → Distinct output.operator_pub_keys
    → save_keygen_output bls kv json output s ≡ some s'
    → get_keygen_output bls kv json j s'
      ≡ (if bytes_eq output.validator_pk j then some output else get_keygen_output bls kv json j s)
unfolding save_keygen_output get_keygen_output encode_output decode_output
get_keygen_output-save bls kv json output s s' j bls_law kv_law json_law bytes d saved =
    elim (Option-cases (json.marshal (keygen_text bls output))) [
      | inl failed ↦ absurd (ground (arith, saved, failed))
      | inr (value, marshalled) ↦
          let wrote : kv.set output.validator_pk value s ≡ some s' =
            rw (save_keygen_output, marshalled) at saved in
          let decoded : decode_output bls json value ≡ some output =
            decode_output-marshalled bls json output value bls_law json_law bytes d marshalled in
          ap (output_read bls json) (kv_law output.validator_pk j value s s' wrote)
          ∙ output_read-if bls json (bytes_eq output.validator_pk j) value output (kv.get j s)
              decoded
    ]
