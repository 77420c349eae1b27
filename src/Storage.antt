-- ===== src/Storage.antt =====
-- The node's storage: internal/storage/storage.go.
pub mod Operators
pub mod Keygen
use rockx_dkg_cli.Registry.Fetch.{OperatorLib, Table, fetch_operator_by_id}
use rockx_dkg_cli.Dkg.{Operator}
use rockx_dkg_cli.Go.Strconv.{decimal}
use rockx_dkg_cli.Net.{
  Request, World, Exec, Result, err, ok, encode_failed, panics, unparsable, store_failed,
}
use rockx_dkg_cli.Prelude.{
  ℕ, ◌≡◌, Option, none, some, List, ◌++◌, ◌==◌, if◌then◌else◌, Bytes, codes, bytes_eq,
}

-- What a read of the key-value store (badger, an external library) comes to.
pub data Read : Type 0 where
  found : Bytes → Read
  key_not_found read_failed : Read

-- The transactions that the storage makes; `set` gives none on an error.
pub record Kv (S : Type 0) : Type 0 where
  pub get : Bytes → S → Read
  pub set : Bytes → Bytes → S → Option S

-- A transaction that succeeds binds its key, and no other.
abbrev pub KvLaw : {S : Type 0} → Kv S → Type 0
KvLaw {S} kv =
    (k j v : Bytes) (s s' : S)
    → kv.set k v s ≡ some s'
    → kv.get j s' ≡ (if bytes_eq k j then found v else kv.get j s)

-- json.Marshal and json.Unmarshal at one type.
pub record Json (A : Type 0) : Type 0 where
  pub marshal : A → Option Bytes
  pub unmarshal : Bytes → Option A

unfoldable pub operator_key : ℕ → Bytes
operator_key i = codes "operator/" ++ decimal i

-- The result, the store and the requests after a call.
abbrev pub Outcome : Type 0 → Type 0 → Type 0
Outcome S A = Result A × S × List Request

module _ {S : Type 0} (kv : Kv S) where
  abbrev stored : {A : Type 0} → A → S → List Request → Option S → Outcome S A
  stored a s sent none = (err store_failed, s, sent)
  stored a s sent (some s') = (ok a, s', sent)

  unfoldable pub cache : Json Operator → ℕ → S → Result Operator × List Request → Outcome S Operator
  cache json i s (ok o, sent) = elim (json.marshal o) [
    | none ↦ (err encode_failed, s, sent)
    | some value ↦ stored o s sent (kv.set (operator_key i) value s)
  ]
  cache json i s (err e, sent) = (err e, s, sent)
  cache json i s (panics, sent) = (panics, s, sent)

  unfoldable pub read_operator : Json Operator → Bytes → Result Operator
  read_operator json value = elim (json.unmarshal value) [ none ↦ err unparsable | some o ↦ ok o ]

  -- The operator from the store, or fetched and then stored.
  unfoldable pub find_operator :
      Json Operator → (fetch : Exec Operator) → ℕ → S → List Request → Outcome S Operator
  find_operator json fetch i s sent = elim (kv.get (operator_key i) s) [
    | found value ↦ (read_operator json value, s, sent)
    | key_not_found ↦ cache json i s (fetch sent)
    | read_failed ↦ (err store_failed, s, sent)
  ]

-- `operator.EncryptionPrivateKey = s.thisSK` where the operator is this node.
unfoldable pub with_own_key : (this_operator : ℕ) (this_sk : Bytes) → ℕ → Operator → Operator
with_own_key this_operator this_sk i o =
    if i == this_operator then record o { encryption_private_key = some this_sk } else o

unfoldable pub give_own_key :
    {S : Type 0}
    → (this_operator : ℕ) (this_sk : Bytes) → ℕ
    → Outcome S Operator
    → Outcome S Operator
give_own_key this_operator this_sk i (ok o, s, sent) =
    (ok (with_own_key this_operator this_sk i o), s, sent)
give_own_key this_operator this_sk i (err e, s, sent) = (err e, s, sent)
give_own_key this_operator this_sk i (panics, s, sent) = (panics, s, sent)

unfoldable pub get_dkg_operator :
    {S : Type 0}
    → Kv S
    → Json Operator
    → World
    → OperatorLib
    → (table : Table) (hardcoded : Bytes) → (this_operator : ℕ) (this_sk : Bytes) → ℕ
    → S
    → List Request
    → Outcome S Operator
get_dkg_operator kv json world lib table hardcoded this_operator this_sk i s sent =
    give_own_key this_operator this_sk i
      (find_operator kv json (fetch_operator_by_id world lib table hardcoded i) i s sent)
