-- ===== src/Storage/Operators.antt =====
-- Operators in the storage: fetched once, and without their private key.
use rockx_dkg_cli.Registry.Fetch.{
  public_operator, fetch_operator_by_id, operator_of, keyed_operator, OperatorLib,
  hard_coded_operator_info, Table, owner_address, parse_public_key_from_base64,
}
use rockx_dkg_cli.Registry.{
  is_using_hardcoded_operators, OperatorResponse, get_operator_from_registry_by_id,
}
use rockx_dkg_cli.Net.{◌>>=◌, Request, Result, ok, World, err, panics, lift, after-ok, Exec}
use rockx_dkg_cli.Storage.{
  give_own_key, Json, cache, Kv, Outcome, Operator, with_own_key, operator_key, get_dkg_operator,
  find_operator, read_operator, KvLaw, key_not_found, found,
}
use rockx_dkg_cli.Prelude.{
  bytes_key, nat_key, ℕ, ◌≡◌, inl, inr, none, some, List, arith, Bytes, Bool, true, false, Option,
  if◌then◌else◌, Option-cases, ap, subst, ◌∙◌, ◌==◌, beq_refl, refl, sym, Bool-cases, lookup,
}

-- Reading back what was written, for operators without a private key.
abbrev pub OperatorJsonLaw : Json Operator → Type 0
OperatorJsonLaw json =
    (o : Operator) (v : Bytes)
    → o.encryption_private_key ≡ none
    → json.marshal o ≡ some v
    → json.unmarshal v ≡ some o

public_keyless :
    (i : ℕ) (key : Bytes) (address : Result Bytes) (o : Operator)
    → public_operator i key address ≡ ok o
    → o.encryption_private_key ≡ none
unfolding public_operator
public_keyless i key (ok address) o h = ground (arith, h)
public_keyless i key (err e) o h = ground (arith, h)
public_keyless i key panics o h = ground (arith, h)

keyed_keyless :
    (i : ℕ) (owner : Bytes) (key : Result Bytes) (o : Operator)
    → keyed_operator i owner key ≡ ok o
    → o.encryption_private_key ≡ none
unfolding keyed_operator
keyed_keyless i owner (ok key) o h = public_keyless i key (owner_address owner) o h
keyed_keyless i owner (err e) o h = ground (arith, h)
keyed_keyless i owner panics o h = ground (arith, h)

table_keyless :
    (i : ℕ) (entry : Option (Bytes × Bytes)) (o : Operator)
    → hard_coded_operator_info i entry ≡ ok o
    → o.encryption_private_key ≡ none
unfolding hard_coded_operator_info
table_keyless i none o h = ground (arith, h)
table_keyless i (some (address, key)) o h = public_keyless i key (ok address) o h

registry_keyless :
    (lib : OperatorLib) (i : ℕ) (response : OperatorResponse) (o : Operator)
    → operator_of lib i response ≡ ok o
    → o.encryption_private_key ≡ none
unfolding operator_of
registry_keyless lib i response o h =
    keyed_keyless i response.owner (parse_public_key_from_base64 lib response.public_key) o h

chosen_keyless :
    (b : Bool) (world : World) (lib : OperatorLib) (table : Table) (i : ℕ) (sent : List Request)
    (o : Operator)
    → ((if b
          then lift (hard_coded_operator_info i (lookup i table))
          else (get_operator_from_registry_by_id world lib.parse_response i >>= λ response.
              lift (operator_of lib i response)))
        sent).0
      ≡ ok o
    → o.encryption_private_key ≡ none
chosen_keyless true world lib table i sent o h = table_keyless i (lookup i table) o h
chosen_keyless false world lib table i sent o h =
    let reply = get_operator_from_registry_by_id world lib.parse_response i sent in
    let (response, p, q) = after-ok _ reply.0 reply.1 o h in registry_keyless lib i response o q

fetched_keyless :
    (world : World) (lib : OperatorLib) (table : Table) (hardcoded : Bytes) (i : ℕ)
    (sent : List Request) (o : Operator)
    → (fetch_operator_by_id world lib table hardcoded i sent).0 ≡ ok o
    → o.encryption_private_key ≡ none
unfolding fetch_operator_by_id
fetched_keyless world lib table hardcoded i sent o h =
    chosen_keyless (is_using_hardcoded_operators hardcoded) world lib table i sent o h

cache-ok :
    {S : Type 0} (kv : Kv S) (json : Json Operator) (i : ℕ) (s s' : S)
    (r : Result Operator × List Request) (o : Operator) (later : List Request)
    → cache kv json i s r ≡ (ok o, s', later)
    → (v : Bytes) × (r.0 ≡ ok o)
      × (json.marshal o ≡ some v)
      × (kv.set (operator_key i) v s ≡ some s')
unfolding cache
cache-ok {S} kv json i s s' (ok p, sent) o later h = elim (Option-cases (json.marshal p)) [
  | inl failed ↦ ground (arith, h, failed)
  | inr (v, written) ↦ elim (Option-cases (kv.set (operator_key i) v s)) [
    | inl failed ↦ ground (arith, h, written, failed)
    | inr (s1, bound) ↦
        let h2 : Path (Outcome S Operator) (ok p, s1, sent) (ok o, s', later) =
          rw (cache, written, bound) at h in
        let e : p ≡ o = ground (arith, h2) in
        (
          v,
          ap (λ z. z.0) h2,
          subst (λ z. json.marshal z ≡ some v) e written,
          bound ∙ ap (λ z. some z.1) h2,
        )
  ]
]
cache-ok kv json i s s' (err e, sent) o later h = ground (arith, h)
cache-ok kv json i s s' (panics, sent) o later h = ground (arith, h)

pub give_own_key-ok :
    {S : Type 0} (this_operator : ℕ) (this_sk : Bytes) (i : ℕ) (r : Outcome S Operator)
    (o : Operator) (s : S) (sent : List Request)
    → give_own_key this_operator this_sk i r ≡ (ok o, s, sent)
    → (p : Operator) × (r ≡ (ok p, s, sent)) × (o ≡ with_own_key this_operator this_sk i p)
unfolding give_own_key
give_own_key-ok this_operator this_sk i (ok p, s1, sent1) o s sent h =
    (p, ground (arith, h), ground (arith, h))
give_own_key-ok this_operator this_sk i (err e, s1, sent1) o s sent h = ground (arith, h)
give_own_key-ok this_operator this_sk i (panics, s1, sent1) o s sent h = ground (arith, h)

own_key_given :
    (this_operator : ℕ) (this_sk : Bytes) (i : ℕ) (p : Operator)
    → p.encryption_private_key ≡ none
    → (with_own_key this_operator this_sk i p).encryption_private_key
      ≡ (if i == this_operator then some this_sk else none)
unfolding with_own_key
own_key_given this_operator this_sk i p h = elim (Bool-cases (i == this_operator)) [
  | inl same ↦ rw same refl
  | inr other ↦ rw other h
]

find_stored :
    {S : Type 0} (kv : Kv S) (json : Json Operator) (fetch : Exec Operator) (i : ℕ) (s : S)
    (later : List Request) (v : Bytes) (p : Operator)
    → kv.get (operator_key i) s ≡ found v
    → json.unmarshal v ≡ some p
    → find_operator kv json fetch i s later ≡ (ok p, s, later)
unfolding find_operator read_operator
find_stored kv json fetch i s later v p reads law =
    rw (find_operator, reads) (rw (read_operator, law) refl)

-- An operator that is not in the store, and is fetched, written and stored.
pub get_dkg_operator-first :
    {S : Type 0} (kv : Kv S) (json : Json Operator) (world : World) (lib : OperatorLib)
    (table : Table) (hardcoded : Bytes) (this_operator : ℕ) (this_sk : Bytes) (i : ℕ) (s s' : S)
    (sent sent' : List Request) (o : Operator) (v : Bytes)
    → kv.get (operator_key i) s ≡ key_not_found
    → fetch_operator_by_id world lib table hardcoded i sent ≡ (ok o, sent')
    → json.marshal o ≡ some v
    → kv.set (operator_key i) v s ≡ some s'
    → get_dkg_operator kv json world lib table hardcoded this_operator this_sk i s sent
      ≡ (ok (with_own_key this_operator this_sk i o), s', sent')
unfolding get_dkg_operator find_operator cache give_own_key
get_dkg_operator-first kv json world lib table hardcoded this_operator this_sk i s s' sent sent' o v
      missing fetched written bound =
    rw (find_operator, missing) (rw fetched (rw (cache, written, bound) refl))

module _ {S : Type 0} (kv : Kv S) (json : Json Operator) (world : World) (lib : OperatorLib)
    (table : Table) (hardcoded : Bytes) (this_operator : ℕ) (this_sk : Bytes) where
  -- Where a transaction binds its key and no other and the JSON of an operator is read back: an operator
  -- that is not in the store and is fetched is returned with the node's own private key if it is the
  -- node itself, and with none otherwise; and from then on it is found in the store, with the same
  -- result, no request and no change of the store.
  pub get_dkg_operator_again :
      (i : ℕ) (s s' : S) (sent after_fetch later : List Request) (o : Operator)
      → KvLaw kv
      → OperatorJsonLaw json
      → kv.get (operator_key i) s ≡ key_not_found
      → get_dkg_operator kv json world lib table hardcoded this_operator this_sk i s sent
        ≡ (ok o, s', after_fetch)
      → (o.encryption_private_key ≡ (if i == this_operator then some this_sk else none))
        × (get_dkg_operator kv json world lib table hardcoded this_operator this_sk i s' later
            ≡ (ok o, s', later))
  unfolding get_dkg_operator give_own_key find_operator give_own_key-ok
  get_dkg_operator_again i s s' sent after_fetch later o kv_law json_law missing h =
      let fetch = fetch_operator_by_id world lib table hardcoded i in
      let (p, got, own) =
        give_own_key-ok this_operator this_sk i (find_operator kv json fetch i s sent) o s'
          after_fetch h in
      let cached = rw (find_operator, missing) at got in
      let (v, fetched, written, bound) =
        cache-ok kv json i s s' (fetch sent) p after_fetch cached in
      let keyless = fetched_keyless world lib table hardcoded i sent p fetched in
      let reads : kv.get (operator_key i) s' ≡ found v =
        kv_law (operator_key i) (operator_key i) v s s' bound
        ∙ ap (λ b. if b then found v else kv.get (operator_key i) s) (beq_refl (operator_key i)) in
      (
        ap (λ (z : Operator). z.encryption_private_key) own
            ∙ own_key_given this_operator this_sk i p keyless,
        ap (give_own_key this_operator this_sk i)
              (find_stored kv json fetch i s' later v p reads (json_law p v keyless written))
            ∙ ap (λ (z : Operator). (ok z, s', later)) (sym own),
      )
