-- ===== src/Registry/Public.antt =====
-- What every operator is that FetchOperatorByID gives, from the registry or from the table.
use rockx_dkg_cli.Registry.{is_using_hardcoded_operators, get_operator_from_registry_by_id}
use rockx_dkg_cli.Registry.Address.{eth_address-length}
use rockx_dkg_cli.Dkg.{Operator}
use rockx_dkg_cli.Registry.Fetch.{
  Table, public_operator, keyed_operator, fetch_operator_by_id, hard_coded_operator_info,
  owner_address, OperatorLib, operator_of, eth_address_from_hex, rsa_sk_from_hex,
  parse_public_key_from_base64,
}
use rockx_dkg_cli.Prelude.{
  ℕ, ◌≡◌, refl, subst, Option, none, some, List, [], ◌∷◌, arith, length, All, Bytes, GoMap, lookup,
  bytes_key, nat_key, ap, inl, inr, ◌==◌, Bool-cases,
}
use rockx_dkg_cli.Registry.HardCoded.{with_entry, table_of, dkg_operators, hard_coded_addresses}
use rockx_dkg_cli.Net.{Result, ok, err, World, panics, Request, ok-injective, after-ok}

-- An operator under its identifier, with a 20-byte address and without a private key.
pub record IsPublic (i : ℕ) (o : Operator) : Type 0 where
  pub id : o.operator_id ≡ i
  pub address : length o.eth_address ≡ 20
  pub keyless : o.encryption_private_key ≡ none

public_operator-IsPublic :
    (i : ℕ) (key : Bytes) (address : Result Bytes) (o : Operator)
    → ((a : Bytes) → address ≡ ok a → length a ≡ 20)
    → public_operator i key address ≡ ok o
    → IsPublic i o
unfolding public_operator
public_operator-IsPublic i key (ok a) o size h =
    subst (IsPublic i) (ok-injective h)
      (record { id = refl; address = size a refl; keyless = refl })
public_operator-IsPublic i key (err e) o size h = ground (arith, h)
public_operator-IsPublic i key panics o size h = ground (arith, h)

owner-length : (owner address : Bytes) → owner_address owner ≡ ok address → length address ≡ 20
unfolding owner_address
owner-length [] address h = ground (arith, h)
owner-length (a ∷ []) address h = ground (arith, h)
owner-length (a ∷ b ∷ text) address h = eth_address-length text address h

keyed_operator-IsPublic :
    (i : ℕ) (owner : Bytes) (key : Result Bytes) (o : Operator)
    → keyed_operator i owner key ≡ ok o
    → IsPublic i o
unfolding keyed_operator
keyed_operator-IsPublic i owner (ok key) o h =
    public_operator-IsPublic i key (owner_address owner) o (owner-length owner) h
keyed_operator-IsPublic i owner (err e) o h = ground (arith, h)
keyed_operator-IsPublic i owner panics o h = ground (arith, h)

-- The entries of a table have addresses of the right size.
abbrev Sized : Table → Type 0
Sized table = All (λ p. length p.1.0 ≡ 20) table

entry-Sized :
    (i : ℕ) (address key : Result Bytes) (rest : Result Table) (table : Table)
    → ((a : Bytes) → address ≡ ok a → length a ≡ 20)
    → ((t : Table) → rest ≡ ok t → Sized t)
    → with_entry i address key rest ≡ ok table
    → Sized table
entry-Sized i (ok a) (ok k) (ok t) table p q h = subst Sized (ok-injective h) (p a refl, q t refl)
entry-Sized i (ok a) (ok k) (err e) table p q h = ground (arith, h)
entry-Sized i (ok a) (ok k) panics table p q h = ground (arith, h)
entry-Sized i (ok a) (err e) t table p q h = ground (arith, h)
entry-Sized i (ok a) panics t table p q h = ground (arith, h)
entry-Sized i (err e) k t table p q h = ground (arith, h)
entry-Sized i panics k t table p q h = ground (arith, h)

table_of-Sized :
    (lib : OperatorLib) (key_text : ℕ → Bytes) (entries : GoMap ℕ Bytes) (table : Table)
    → table_of lib key_text entries ≡ ok table
    → Sized table
unfolding table_of
table_of-Sized lib key_text [] table h = subst Sized (ok-injective h) tt
table_of-Sized lib key_text ((i, text) ∷ entries) table h =
    entry-Sized i (eth_address_from_hex text) (rsa_sk_from_hex lib (key_text i))
      (table_of lib key_text entries) table (eth_address-length text)
      (table_of-Sized lib key_text entries) h

abbrev first_of : Bytes → Option (Bytes × Bytes) → Bytes
first_of before none = before
first_of before (some pair) = pair.0

found-size :
    (i : ℕ) (table : Table) (address key : Bytes)
    → Sized table
    → lookup i table ≡ some (address, key)
    → length address ≡ 20
unfolding lookup
found-size i [] address key p h = ground (arith, h)
found-size i ((j, (a, k)) ∷ table) address key (p, ps) h = elim (Bool-cases (j == i)) [
  | inl here ↦
      let same : some (a, k) ≡ some (address, key) = rw here at h in
      subst (λ z. length z ≡ 20) (ap (first_of a) same) p
  | inr there ↦ found-size i table address key ps (rw there at h)
]

info-IsPublic :
    (i : ℕ) (entry : Option (Bytes × Bytes)) (o : Operator)
    → ((address key : Bytes) → entry ≡ some (address, key) → length address ≡ 20)
    → hard_coded_operator_info i entry ≡ ok o
    → IsPublic i o
unfolding hard_coded_operator_info
info-IsPublic i none o size h = ground (arith, h)
info-IsPublic i (some (address, key)) o size h =
    public_operator-IsPublic i key (ok address) o
      (λ a e. subst (λ z. length z ≡ 20) (ok-injective e) (size address key refl)) h

-- Whatever the registry answers, and with the table that the program has made at its start: an operator
-- that is fetched has the identifier that was asked for, an address of 20 bytes, and no private key.
pub fetch_operator_by_id-IsPublic :
    (world : World) (lib : OperatorLib) (key_text : ℕ → Bytes) (table : Table) (hardcoded : Bytes)
    (i : ℕ) (sent : List Request) (o : Operator)
    → dkg_operators lib key_text ≡ ok table
    → (fetch_operator_by_id world lib table hardcoded i sent).0 ≡ ok o
    → IsPublic i o
unfolding fetch_operator_by_id operator_of dkg_operators
fetch_operator_by_id-IsPublic world lib key_text table hardcoded i sent o made h =
    elim (Bool-cases (is_using_hardcoded_operators hardcoded)) [
      | inl local ↦
          let given = rw local at h in
          info-IsPublic i (lookup i table) o
            (λ a k e.
              found-size i table a k (table_of-Sized lib key_text hard_coded_addresses table made)
                e)
            given
      | inr remote ↦
          let given = rw remote at h in
          let reply = get_operator_from_registry_by_id world lib.parse_response i sent in
          let (response, p, q) = after-ok _ reply.0 reply.1 o given in
          keyed_operator-IsPublic i response.owner
            (parse_public_key_from_base64 lib response.public_key) o q
    ]
