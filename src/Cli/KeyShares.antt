-- ===== src/Cli/KeyShares.antt =====
-- The keyshares file: internal/cli/keyshares.go.
pub mod Sorted
pub mod Order
pub mod Shares
pub mod Fields
use rockx_dkg_cli.Dkg.{BlameOutput}
use rockx_dkg_cli.Registry.{OperatorResponse, get_operator_from_registry_by_id}
use rockx_dkg_cli.Net.{
  World, Result, panics, Exec, ok, pure, lift, err, blame_output, ◌>>=◌, empty_result,
}
use rockx_dkg_cli.Cli.Results.{SignedText, OutputText, no_output, DkgResult}
use rockx_dkg_cli.Prelude.{
  ℕ, ◌-◌, ◌%◌, ◌^◌, false, Option, none, some, List, [], ◌∷◌, ◌++◌, map, leb, if◌then◌else◌, drop,
  Bytes, codes, GoMap, lookup, bytes_key, nat_key,
}
use rockx_dkg_cli.Go.Hex
use rockx_dkg_cli.Go.Base64

pub record OperatorData : Type 0 where
  pub id : ℕ
  pub operator_key : Bytes

pub record KeySharesData : Type 0 where
  pub public_key : Bytes
  pub operators : List OperatorData

pub record ReadablePayload : Type 0 where
  pub public_key : Bytes
  pub operator_ids : List ℕ
  pub shares : Bytes
  pub amount : Bytes
  pub cluster : Bytes

-- The time of creation is not modelled.
pub record KeyShares : Type 0 where
  pub version : Bytes
  pub share_data : KeySharesData
  pub payload : ReadablePayload

-- uint32(u)
unfoldable pub to_uint32 : ℕ → ℕ
to_uint32 n = n % 2 ^ 32

-- Insertion before the first element whose key is not smaller, so that equal keys keep their order.
unfoldable pub place : OperatorData → List OperatorData → List OperatorData
place x [] = x ∷ []
place x (y ∷ ys) = let rest = place x ys in if leb x.id y.id then x ∷ y ∷ ys else y ∷ rest

-- sort.SliceStable of the operators by their identifier.
unfoldable pub sort_operators : List OperatorData → List OperatorData
sort_operators [] = []
sort_operators (x ∷ xs) = place x (sort_operators xs)

unfoldable pub place_id : ℕ → List ℕ → List ℕ
place_id x [] = x ∷ []
place_id x (y ∷ ys) = let rest = place_id x ys in if leb x y then x ∷ y ∷ ys else y ∷ rest

-- sort.SliceStable of the identifiers.
unfoldable pub sort_ids : List ℕ → List ℕ
sort_ids [] = []
sort_ids (x ∷ xs) = place_id x (sort_ids xs)

-- result.Output[id]: zero where the key is missing.
unfoldable pub output_at : GoMap ℕ SignedText → ℕ → OutputText
output_at m i = elim (lookup i m) [ none ↦ no_output | some o ↦ o.output ]

unfoldable pub zero_x : Bytes → Bytes
zero_x text = b'0' ∷ b'x' ∷ text

unfoldable pub public_keys : GoMap ℕ SignedText → List ℕ → List Bytes
public_keys m [] = []
public_keys m (i ∷ ids) = zero_x (output_at m i).share_pub_key ∷ public_keys m ids

unfoldable pub encrypted_keys : GoMap ℕ SignedText → List ℕ → List Bytes
encrypted_keys m [] = []
encrypted_keys m (i ∷ ids) =
    Base64.encode (Hex.decode (output_at m i).encrypted_share).bytes ∷ encrypted_keys m ids

unfoldable pub decode_encrypted_shares : List Bytes → Option (List Bytes)
decode_encrypted_shares [] = some []
decode_encrypted_shares (item ∷ items) =
    let rest = decode_encrypted_shares items in
    elim (Base64.decode item) [
      | none ↦ none
      | some decoded ↦ elim rest [
        | none ↦ none
        | some texts ↦ some (zero_x (Hex.encode decoded) ∷ texts)
      ]
    ]

-- Every text that it is given starts with `0x`.
unfoldable pub to_array_byte_slices : List Bytes → List Bytes
to_array_byte_slices [] = []
to_array_byte_slices (str ∷ input) = (Hex.decode (drop 2 str)).bytes ∷ to_array_byte_slices input

-- bytes.Join with an empty separator
unfoldable pub join : List Bytes → Bytes
join [] = []
join (s ∷ ss) = s ++ join ss

abbrev pub or_nil : Option (List Bytes) → List Bytes
or_nil none = []
or_nil (some texts) = texts

unfoldable pub shares_to_bytes : List Bytes → List Bytes → Bytes → Bytes
shares_to_bytes public_texts private_texts prefix =
    let encrypted_shares = or_nil (decode_encrypted_shares private_texts) in
    zero_x prefix
    ++ Hex.encode
        (join (to_array_byte_slices public_texts) ++ join (to_array_byte_slices encrypted_shares))

abbrev pub amount_text : Bytes
amount_text =
    codes
      "Amount of SSV tokens to be deposited to your validator's cluster balance (mandatory only for 1st validator in a cluster)"

abbrev pub cluster_text : Bytes
cluster_text =
    codes
      "The latest cluster snapshot data, obtained using the cluster-scanner tool. If this is the cluster's 1st validator then use - {0,0,0,0,0,false}"

-- operatorIds[0] panics on an empty list.
unfoldable pub assemble : GoMap ℕ SignedText → Bytes → List OperatorData → List ℕ → Result KeyShares
assemble m owner_prefix operators [] = panics
assemble m owner_prefix operators (i ∷ ids) =
    let public_key : Bytes = zero_x (output_at m i).validator_pub_key in
    ok record {
      version = codes "v4";
      share_data = record { public_key = public_key; operators = operators };
      payload = record {
        public_key = public_key;
        operator_ids = i ∷ ids;
        shares =
            shares_to_bytes (public_keys m (i ∷ ids)) (encrypted_keys m (i ∷ ids)) owner_prefix;
        amount = amount_text;
        cluster = cluster_text;
      };
    }

unfoldable pub unless_blamed : Option BlameOutput → Exec KeyShares → Exec KeyShares
unless_blamed none program = program
unless_blamed (some b) program = lift (err blame_output)

module _ (world : World) (parse : Bytes → Option OperatorResponse) where
  -- The range over the outputs: the operators' data, in its order.
  unfoldable pub operator_data : GoMap ℕ SignedText → Exec (List OperatorData)
  operator_data [] = pure []
  operator_data ((i, o) ∷ os) = get_operator_from_registry_by_id world parse i >>= λ operator.
      operator_data os >>= λ rest.
      pure (record { id = to_uint32 i; operator_key = operator.public_key } ∷ rest)

  unfoldable pub key_shares_of : GoMap ℕ SignedText → Bytes → Exec KeyShares
  key_shares_of [] owner_prefix = lift (err empty_result)
  key_shares_of (o ∷ os) owner_prefix = operator_data (o ∷ os) >>= λ operators. lift (
      assemble (o ∷ os) owner_prefix (sort_operators operators)
        (sort_ids (map (λ p. to_uint32 p.0) (o ∷ os))))

  unfoldable pub generate_keyshare_v4 : DkgResult → Bytes → Exec KeyShares
  generate_keyshare_v4 result owner_prefix =
      unless_blamed result.blame (key_shares_of result.outputs owner_prefix)
