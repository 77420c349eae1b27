-- ===== src/Registry/RoundTrip.antt =====
-- An operator that is registered is fetched as it was registered.
use rockx_dkg_cli.Registry.Address.{eth_address-encode}
use rockx_dkg_cli.Go.Hex.{IsByte}
use rockx_dkg_cli.Registry.Fetch.{
  fetch_operator_by_id, parse_public_key_from_base64, operator_of, keyed_operator, key_of_block,
  OperatorLib, rsa_public_key, owner_address, Table, public_operator, rsa,
}
use rockx_dkg_cli.Prelude.{
  ℕ, ◌≡◌, refl, ◌∙◌, false, Option, none, some, List, [], ◌∷◌, ◌++◌, length, All, Bytes,
}
use rockx_dkg_cli.Go.Hex
use rockx_dkg_cli.Go.Base64
use rockx_dkg_cli.Registry.{
  registry_url, registry_answer, get_operator_from_registry_by_id, OperatorResponse,
  is_using_hardcoded_operators,
}
use rockx_dkg_cli.Net.{ask, World, Request, answered, ok}

registry-answered :
    (world : World) (parse : Bytes → Option OperatorResponse) (i code : ℕ) (body : Bytes)
    (response : OperatorResponse) (sent : List Request)
    → world sent (record { url = registry_url i; payload = none }) ≡ answered code body
    → parse body ≡ some response
    → get_operator_from_registry_by_id world parse i sent
      ≡ (ok response, sent ++ record { url = registry_url i; payload = none } ∷ [])
unfolding get_operator_from_registry_by_id ask registry_answer
registry-answered world parse i code body response sent answers parses =
    rw answers (rw (registry_answer, parses) refl)

-- Away from the hard-coded operators, the answer alone decides.
pub fetch-answered :
    (world : World) (lib : OperatorLib) (table : Table) (hardcoded : Bytes) (i code : ℕ)
    (body : Bytes) (response : OperatorResponse) (sent : List Request)
    → is_using_hardcoded_operators hardcoded ≡ false
    → world sent (record { url = registry_url i; payload = none }) ≡ answered code body
    → lib.parse_response body ≡ some response
    → fetch_operator_by_id world lib table hardcoded i sent
      ≡ (operator_of lib i response, sent ++ record { url = registry_url i; payload = none } ∷ [])
unfolding fetch_operator_by_id
fetch-answered world lib table hardcoded i code body response sent remote answers parses =
    rw remote (
      rw (registry-answered world lib.parse_response i code body response sent answers parses) refl)

key-encode :
    (lib : OperatorLib) (pem block key : Bytes)
    → All IsByte pem
    → lib.pem_decode pem ≡ some block
    → lib.parse_pkix_public_key block ≡ some (rsa key)
    → parse_public_key_from_base64 lib (Base64.encode pem) ≡ ok key
unfolding parse_public_key_from_base64 key_of_block rsa_public_key
key-encode lib pem block key bytes decodes parses =
    rw (parse_public_key_from_base64, Base64.decode-encode pem bytes)
      (rw (key_of_block, decodes) (rw (rsa_public_key, parses) refl))

-- Away from the hard-coded operators, whatever the status and whatever identifier the answer names: where
-- it holds `0x` with the hexadecimal text of a 20-byte address, and the base64 text of the PEM text of an
-- RSA key, the operator has that address, that key, the identifier that was asked for and no private
-- key; and one request is made.
pub fetch_operator_by_id-encode :
    (world : World) (lib : OperatorLib) (table : Table) (hardcoded : Bytes) (i j code : ℕ)
    (body address pem block key : Bytes) (sent : List Request)
    → is_using_hardcoded_operators hardcoded ≡ false
    → world sent (record { url = registry_url i; payload = none }) ≡ answered code body
    → lib.parse_response body
      ≡ some (record {
        id = j;
        owner = b'0' ∷ b'x' ∷ Hex.encode address;
        public_key = Base64.encode pem;
      })
    → All IsByte address
    → length address ≡ 20
    → All IsByte pem
    → lib.pem_decode pem ≡ some block
    → lib.parse_pkix_public_key block ≡ some (rsa key)
    → fetch_operator_by_id world lib table hardcoded i sent ≡ (
      ok record {
        operator_id = i;
        eth_address = address;
        encryption_pub_key = key;
        encryption_private_key = none;
      },
      sent ++ record { url = registry_url i; payload = none } ∷ [],
    )
unfolding operator_of keyed_operator owner_address public_operator
fetch_operator_by_id-encode world lib table hardcoded i j code body address pem block key sent
      remote answers parses bytes size pem_bytes decodes is_rsa =
    fetch-answered world lib table hardcoded i code body _ sent remote answers parses
    ∙ rw (key-encode lib pem block key pem_bytes decodes is_rsa)
        (rw (eth_address-encode address bytes size) refl)
