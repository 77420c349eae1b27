-- ===== src/Node/Tests.antt =====
-- Runs of the storage's and the node's theorems, on a store that is an association list.
pub mod Keygen
pub mod Start
use rockx_dkg_cli.Registry.Fetch.{OperatorLib, rsa}
use rockx_dkg_cli.Dkg.{Operator}
use rockx_dkg_cli.Net.{World, ok, answered}
use rockx_dkg_cli.Storage.Operators.{OperatorJsonLaw, get_dkg_operator_again}
use rockx_dkg_cli.Storage.{
  Read, Json, KvLaw, Kv, found, key_not_found, operator_key, get_dkg_operator,
}
use rockx_dkg_cli.Prelude.{
  ◌≡◌, refl, sym, ap, ◌∙◌, Bool, true, false, ◌&&◌, Option, none, some, [], ◌∷◌, if◌then◌else◌,
  Bytes, codes, bytes_eq, GoMap, lookup, insert, lookup-insert, bytes_key, nat_key, inl, inr, arith,
  ◌==◌, Bool-cases, bytes_eq_iff,
}
use rockx_dkg_cli.Node.Start.Fresh.{registry_call}
use rockx_dkg_cli.Go.Hex
use rockx_dkg_cli.Go.Base64

abbrev read_of : Option Bytes → Read
read_of none = key_not_found
read_of (some v) = found v

abbrev pub list_kv : Kv (GoMap Bytes Bytes)
list_kv = record { get = λ k s. read_of (lookup k s); set = λ k v s. some (insert k v s) }

read_of-if :
    (b : Bool) (v : Bytes) (o : Option Bytes)
    → read_of (if b then some v else o) ≡ (if b then found v else read_of o)
read_of-if true v o = refl
read_of-if false v o = refl

list_kv_law : KvLaw list_kv
list_kv_law k j v s s' h =
    ap
      (λ (z : Option (GoMap Bytes Bytes)). elim z [
        | none ↦ key_not_found
        | some m ↦ read_of (lookup j m)
      ])
      (sym h)
    ∙ ap read_of (lookup-insert k j v s)
    ∙ read_of-if (bytes_eq k j) v (lookup j s)

abbrev zero_address : Bytes
zero_address = 0 ∷ 0 ∷ 0 ∷ 0 ∷ 0 ∷ 0 ∷ 0 ∷ 0 ∷ 0 ∷ 0 ∷ 0 ∷ 0 ∷ 0 ∷ 0 ∷ 0 ∷ 0 ∷ 0 ∷ 0 ∷ 0 ∷ 0 ∷ []

abbrev one_key : Operator
one_key = record {
  operator_id = 1;
  eth_address = zero_address;
  encryption_pub_key = 3 ∷ [];
  encryption_private_key = none;
}

abbrev is_plain : Operator → Bool
is_plain o = bytes_eq o.eth_address zero_address && bytes_eq o.encryption_pub_key (3 ∷ [])

plain_fields :
    (o : Operator)
    → is_plain o ≡ true
    → (o.eth_address ≡ zero_address) × (o.encryption_pub_key ≡ 3 ∷ [])
plain_fields o h = (
  (bytes_eq_iff o.eth_address zero_address).0 (ground (arith, h)),
  (bytes_eq_iff o.encryption_pub_key (3 ∷ [])).0 (ground (arith, h)),
)

-- Only operators with one address and one key are written: as their identifier.
abbrev pub operator_json : Json Operator
operator_json = record {
  marshal = λ o. if is_plain o then some (o.operator_id ∷ []) else none;
  unmarshal = λ v. elim v [ [] ↦ none | i ∷ rest ↦ some (record one_key { operator_id = i }) ];
}

operator_json_law : OperatorJsonLaw operator_json
operator_json_law o v keyless h = elim (Bool-cases (is_plain o)) [
  | inr other ↦ absurd (ground (arith, h, other))
  | inl plain ↦
      let (e1, e2) = plain_fields o plain in
      let e : v ≡ o.operator_id ∷ [] = ground (arith, h, plain) in
      rw e (
        sym (λ k. some (record {
          operator_id = o.operator_id;
          eth_address = e1 k;
          encryption_pub_key = e2 k;
          encryption_private_key = keyless k;
        })))
]

abbrev test_lib : OperatorLib
test_lib = record {
  parse_response = λ body. some (record { id = 1; owner = codes "0x"; public_key = codes "Aw==" });
  pem_decode = λ pem. some pem;
  parse_pkix_public_key = λ block. some (rsa block);
  parse_pkcs1_private_key = λ key. some key;
}

abbrev registry_world : World
registry_world sent req = answered 200 []

abbrev own_operator : Operator
own_operator = record one_key { encryption_private_key = some (9 ∷ []) }

abbrev filled_store : GoMap Bytes Bytes
filled_store = (operator_key 1, 1 ∷ []) ∷ []

first_fetch :
    get_dkg_operator list_kv operator_json registry_world test_lib [] [] 1 (9 ∷ []) 1 [] []
    ≡ (ok own_operator, filled_store, registry_call 1 ∷ [])
unfolding get_dkg_operator rockx_dkg_cli.Storage.give_own_key rockx_dkg_cli.Storage.find_operator
    lookup rockx_dkg_cli.Storage.cache rockx_dkg_cli.Registry.Fetch.fetch_operator_by_id
    rockx_dkg_cli.Registry.is_using_hardcoded_operators bytes_eq
    rockx_dkg_cli.Registry.get_operator_from_registry_by_id rockx_dkg_cli.Net.ask
    rockx_dkg_cli.Registry.registry_answer rockx_dkg_cli.Registry.Fetch.operator_of
    rockx_dkg_cli.Registry.Fetch.keyed_operator rockx_dkg_cli.Registry.Fetch.public_operator
    rockx_dkg_cli.Registry.Fetch.owner_address rockx_dkg_cli.Registry.Fetch.eth_address_from_hex
    rockx_dkg_cli.Registry.Fetch.copy rockx_dkg_cli.Registry.Fetch.zeros
    rockx_dkg_cli.Registry.Fetch.parse_public_key_from_base64
    rockx_dkg_cli.Registry.Fetch.key_of_block rockx_dkg_cli.Registry.Fetch.rsa_public_key Hex.decode
    Base64.decode rockx_dkg_cli.Storage.with_own_key insert
first_fetch = refl

get_dkg_operator_again_example :
    (own_operator.encryption_private_key ≡ (if 1 == 1 then some (9 ∷ []) else none))
    × (get_dkg_operator list_kv operator_json registry_world test_lib [] [] 1
          (9 ∷ [])
          1
          filled_store
          []
        ≡ (ok own_operator, filled_store, []))
unfolding lookup
get_dkg_operator_again_example =
    get_dkg_operator_again list_kv operator_json registry_world test_lib [] [] 1 (9 ∷ []) 1 []
      filled_store [] (registry_call 1 ∷ []) [] own_operator list_kv_law operator_json_law refl
      first_fetch

abbrev pub pem_key : Bytes → Option Bytes
pem_key pem = some pem
