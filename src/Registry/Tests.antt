-- ===== src/Registry/Tests.antt =====
-- Runs of the registry's theorems.
use rockx_dkg_cli.Registry.Public.{IsPublic, fetch_operator_by_id-IsPublic}
use rockx_dkg_cli.Registry.HardCoded.{dkg_operators, hard_coded_operators}
use rockx_dkg_cli.Dkg.{Operator}
use rockx_dkg_cli.Registry.RoundTrip.{fetch_operator_by_id-encode}
use rockx_dkg_cli.Registry.Panics.{HasOtherKind, HasBadOwner, fetch_operator_by_id-panics_iff}
use rockx_dkg_cli.Registry.Fetch.{
  fetch_operator_by_id, OperatorLib, rsa, parse_public_key_from_base64, hard_coded_operator_info,
  rsa_sk_from_hex, Table, public_half, public_operator,
}
use rockx_dkg_cli.Net.{World, answered, panics, ok}
use rockx_dkg_cli.Prelude.{
  ◌≡◌, refl, ◌↔◌, ◌⊎◌, none, some, [], ◌∷◌, arith, All, Bytes, codes, bytes_eq, ℕ, lookup,
  bytes_key, nat_key,
}
use rockx_dkg_cli.Go.Hex
use rockx_dkg_cli.Go.Base64
use rockx_dkg_cli.Registry.{registry_url, is_using_hardcoded_operators, OperatorResponse}

-- A registry whose every answer is one operator, and codecs that leave texts as they are.
abbrev pub lib_of : OperatorResponse → OperatorLib
lib_of response = record {
  parse_response = λ body. some response;
  pem_decode = λ pem. some pem;
  parse_pkix_public_key = λ block. some (rsa block);
  parse_pkcs1_private_key = λ key. some key;
}

abbrev pub registry_world : World
registry_world sent req = answered 404 []

abbrev twenty : Bytes
twenty =
    1 ∷ 2 ∷ 3 ∷ 4 ∷ 5 ∷ 6 ∷ 7 ∷ 8 ∷ 9 ∷ 10 ∷ 11 ∷ 12 ∷ 13 ∷ 14 ∷ 15 ∷ 16 ∷ 17 ∷ 18 ∷ 19 ∷ 255 ∷ []

abbrev registered_as_nine : OperatorResponse
registered_as_nine = record {
  id = 9;
  owner = b'0' ∷ b'x' ∷ Hex.encode twenty;
  public_key = Base64.encode (3 ∷ []);
}

twenty-IsByte : All Hex.IsByte twenty
twenty-IsByte = ground arith

fetch_operator_by_id-encode_example :
    fetch_operator_by_id registry_world (lib_of registered_as_nine) [] [] 1 [] ≡ (
      ok record {
        operator_id = 1;
        eth_address = twenty;
        encryption_pub_key = 3 ∷ [];
        encryption_private_key = none;
      },
      record { url = registry_url 1; payload = none } ∷ [],
    )
unfolding is_using_hardcoded_operators bytes_eq
fetch_operator_by_id-encode_example =
    fetch_operator_by_id-encode registry_world (lib_of registered_as_nine) [] [] 1 9 404 [] twenty
      (3 ∷ []) (3 ∷ []) (3 ∷ []) [] refl refl refl twenty-IsByte (omega arith) (omega arith, tt)
      refl refl

abbrev no_owner : OperatorResponse
no_owner = record { id = 1; owner = []; public_key = codes "Aw==" }

fetch_operator_by_id-panics_iff_example :
    (fetch_operator_by_id registry_world (lib_of no_owner) [] [] 1 []).0 ≡ panics
    ↔ HasOtherKind (lib_of no_owner) (codes "Aw==")
      ⊎ (((key : Bytes) × (parse_public_key_from_base64 (lib_of no_owner) (codes "Aw==") ≡ ok key))
          × HasBadOwner [])
unfolding is_using_hardcoded_operators bytes_eq
fetch_operator_by_id-panics_iff_example =
    fetch_operator_by_id-panics_iff registry_world (lib_of no_owner) [] [] 1 404 [] no_owner [] refl
      refl refl

-- One key text for all eight operators: the hexadecimal text of one byte.
abbrev one_key_text : ℕ → Bytes
one_key_text i = codes "03"

abbrev one_key : ℕ → Bytes
one_key i = 3 ∷ []

texts_are_keys : (i : ℕ) → rsa_sk_from_hex (lib_of no_owner) (one_key_text i) ≡ ok (one_key i)
unfolding rsa_sk_from_hex public_half Hex.decode
texts_are_keys i = refl

abbrev eight : Table
eight = (hard_coded_operators (lib_of no_owner) one_key_text one_key (λ i p q. texts_are_keys i)).0

eight_made : dkg_operators (lib_of no_owner) one_key_text ≡ ok eight
eight_made =
    (hard_coded_operators (lib_of no_owner) one_key_text one_key (λ i p q. texts_are_keys i)).1

abbrev first_operator : Operator
first_operator = record {
  operator_id = 1;
  eth_address = (Hex.decode (codes "2d618a45796936b1b7aeb87d01ee70e09254487d")).bytes;
  encryption_pub_key = 3 ∷ [];
  encryption_private_key = none;
}

first_fetched :
    (fetch_operator_by_id registry_world (lib_of no_owner) eight (codes "true") 1 []).0
    ≡ ok first_operator
unfolding fetch_operator_by_id is_using_hardcoded_operators bytes_eq hard_coded_operator_info
    public_operator lookup
first_fetched =
    rw
      ((hard_coded_operators (lib_of no_owner) one_key_text one_key (λ i p q. texts_are_keys i)).2
        1)
      refl

fetch_operator_by_id-IsPublic_example : IsPublic 1 first_operator
fetch_operator_by_id-IsPublic_example =
    fetch_operator_by_id-IsPublic registry_world (lib_of no_owner) one_key_text eight (codes "true")
      1 [] first_operator eight_made first_fetched
