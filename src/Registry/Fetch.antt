-- ===== src/Registry/Fetch.antt =====
-- From the registry's answer to an operator: FetchOperatorByID and ParsePublicKeyFromBase64 of
-- internal/storage/fetch_operator.go, and the hard-coded operators of internal/storage/storage_utils.go.
use rockx_dkg_cli.Registry.{
  OperatorResponse, is_using_hardcoded_operators, get_operator_from_registry_by_id,
}
use rockx_dkg_cli.Prelude.{
  ℕ, zero, suc, Option, none, some, [], ◌∷◌, if◌then◌else◌, Bytes, GoMap, lookup, bytes_key,
  nat_key,
}
use rockx_dkg_cli.Net.{◌>>=◌, Result, World, ok, err, Exec, panics, not_found, unparsable, lift}
use rockx_dkg_cli.Go.Hex
use rockx_dkg_cli.Go.Base64
use rockx_dkg_cli.Dkg.{Operator}

-- A public key that crypto/x509 has parsed: an RSA key, or one of another kind.
pub data PublicKey : Type 0 where
  rsa : Bytes → PublicKey
  other_kind : PublicKey

-- json.Unmarshal into an operatorResponse; the bytes of the first block that pem.Decode finds;
-- x509.ParsePKIXPublicKey; and the public half of the key that x509.ParsePKCS1PrivateKey gives.
pub record OperatorLib : Type 0 where
  pub parse_response : Bytes → Option OperatorResponse
  pub pem_decode : Bytes → Option Bytes
  pub parse_pkix_public_key : Bytes → Option PublicKey
  pub parse_pkcs1_private_key : Bytes → Option Bytes

-- The type assertion panics on a key of another kind.
unfoldable pub rsa_public_key : Option PublicKey → Result Bytes
rsa_public_key none = err unparsable
rsa_public_key (some (rsa key)) = ok key
rsa_public_key (some other_kind) = panics

unfoldable pub key_of_block : OperatorLib → Option Bytes → Result Bytes
key_of_block lib none = err unparsable
key_of_block lib (some block) = rsa_public_key (lib.parse_pkix_public_key block)

unfoldable pub parse_public_key_from_base64 : OperatorLib → Bytes → Result Bytes
parse_public_key_from_base64 lib text = elim (Base64.decode text) [
  | none ↦ err unparsable
  | some key_bytes ↦ key_of_block lib (lib.pem_decode key_bytes)
]

-- The builtin `copy`: as many bytes as both slices have.
unfoldable pub copy : (destination source : Bytes) → Bytes
copy [] source = []
copy (z ∷ zs) [] = z ∷ zs
copy (z ∷ zs) (b ∷ bs) = b ∷ copy zs bs

unfoldable pub zeros : ℕ → Bytes
zeros zero = []
zeros (suc n) = 0 ∷ zeros n

-- An address has 20 bytes. A text that is not hexadecimal panics.
unfoldable pub eth_address_from_hex : Bytes → Result Bytes
eth_address_from_hex text =
    let d = Hex.decode text in if d.valid then ok (copy (zeros 20) d.bytes) else panics

-- `ethAddressFromHex(operator.Owner[2:])`: a slice panics on a text that is shorter than two bytes.
unfoldable pub owner_address : Bytes → Result Bytes
owner_address [] = panics
owner_address (a ∷ []) = panics
owner_address (a ∷ b ∷ text) = eth_address_from_hex text

unfoldable pub public_operator : ℕ → Bytes → Result Bytes → Result Operator
public_operator i key (ok address) = ok record {
  operator_id = i;
  eth_address = address;
  encryption_pub_key = key;
  encryption_private_key = none;
}
public_operator i key (err e) = err e
public_operator i key panics = panics

-- The key is parsed before the address is.
unfoldable pub keyed_operator : ℕ → Bytes → Result Bytes → Result Operator
keyed_operator i owner (ok key) = public_operator i key (owner_address owner)
keyed_operator i owner (err e) = err e
keyed_operator i owner panics = panics

unfoldable pub operator_of : OperatorLib → ℕ → OperatorResponse → Result Operator
operator_of lib i response =
    keyed_operator i response.owner (parse_public_key_from_base64 lib response.public_key)

-- DKGOperators: an address and the public half of a key for an identifier.
abbrev pub Table : Type 0
Table = GoMap ℕ (Bytes × Bytes)

unfoldable pub public_half : Option Bytes → Result Bytes
public_half none = panics
public_half (some key) = ok key

unfoldable pub rsa_sk_from_hex : OperatorLib → Bytes → Result Bytes
rsa_sk_from_hex lib text =
    let d = Hex.decode text in
    if d.valid then public_half (lib.parse_pkcs1_private_key d.bytes) else panics

unfoldable pub hard_coded_operator_info : ℕ → Option (Bytes × Bytes) → Result Operator
hard_coded_operator_info i none = err not_found
hard_coded_operator_info i (some (address, key)) = public_operator i key (ok address)

-- `hardcoded` is the value of USE_HARDCODED_OPERATORS, and `table` is DKGOperators.
unfoldable pub fetch_operator_by_id :
    World → OperatorLib → (table : Table) (hardcoded : Bytes) → ℕ → Exec Operator
fetch_operator_by_id world lib table hardcoded i =
    if is_using_hardcoded_operators hardcoded
    then lift (hard_coded_operator_info i (lookup i table))
    else (get_operator_from_registry_by_id world lib.parse_response i >>= λ response.
        lift (operator_of lib i response))
