-- ===== src/Registry/Panics.antt =====
-- On which answers of the registry FetchOperatorByID panics.
use rockx_dkg_cli.Registry.RoundTrip.{fetch-answered}
use rockx_dkg_cli.Net.{Result, panics, err, ok, unparsable, World, Request, answered}
use rockx_dkg_cli.Registry.Fetch.{
  OperatorLib, rsa_public_key, keyed_operator, eth_address_from_hex, parse_public_key_from_base64,
  public_operator, key_of_block, owner_address, other_kind, PublicKey, rsa, operator_of, Table,
  fetch_operator_by_id,
}
use rockx_dkg_cli.Prelude.{
  ℕ, ◌<◌, ◌≡◌, refl, ◌↔◌, ◌⊎◌, inl, inr, false, Option, none, some, [], ◌∷◌, arith, Bool-cases,
  Option-cases, length, drop, Bytes, List,
}
use rockx_dkg_cli.Go.Hex
use rockx_dkg_cli.Go.Base64
use rockx_dkg_cli.Registry.{OperatorResponse, is_using_hardcoded_operators, registry_url}

-- A key that parses and is not an RSA key.
abbrev pub HasOtherKind : OperatorLib → Bytes → Type 0
HasOtherKind lib text =
    (pem block : Bytes) × (Base64.decode text ≡ some pem)
    × (lib.pem_decode pem ≡ some block)
    × (lib.parse_pkix_public_key block ≡ some other_kind)

-- Fewer than two bytes, or no hexadecimal text after the first two.
abbrev pub HasBadOwner : Bytes → Type 0
HasBadOwner owner = (length owner < 2) ⊎ ((Hex.decode (drop 2 owner)).valid ≡ false)

rsa-panics : (o : Option PublicKey) → rsa_public_key o ≡ panics → o ≡ some other_kind
unfolding rsa_public_key
rsa-panics none h = ground (arith, h)
rsa-panics (some (rsa key)) h = ground (arith, h)
rsa-panics (some other_kind) h = refl

block-panics :
    (lib : OperatorLib) (o : Option Bytes)
    → key_of_block lib o ≡ panics
    → (block : Bytes) × (o ≡ some block) × (lib.parse_pkix_public_key block ≡ some other_kind)
unfolding key_of_block
block-panics lib none h = ground (arith, h)
block-panics lib (some block) h = (block, refl, rsa-panics (lib.parse_pkix_public_key block) h)

parse-panics_iff :
    (lib : OperatorLib) (text : Bytes)
    → parse_public_key_from_base64 lib text ≡ panics ↔ HasOtherKind lib text
unfolding parse_public_key_from_base64 key_of_block rsa_public_key
parse-panics_iff lib text = (
  λ h. elim (Option-cases (Base64.decode text)) [
    | inl e ↦
        let e2 : Path (Result Bytes) (err unparsable) panics =
          rw (parse_public_key_from_base64, e) at h in
        ground (arith, e2)
    | inr (pem, e) ↦
        let e2 : key_of_block lib (lib.pem_decode pem) ≡ panics =
          rw (parse_public_key_from_base64, e) at h in
        let (block, p, q) = block-panics lib (lib.pem_decode pem) e2 in (pem, block, e, p, q)
  ],
  λ (pem, block, e, p, q).
      rw (parse_public_key_from_base64, e) (rw (key_of_block, p) (rw (rsa_public_key, q) refl)),
)

address-panics_iff :
    (text : Bytes) → eth_address_from_hex text ≡ panics ↔ (Hex.decode text).valid ≡ false
unfolding eth_address_from_hex
address-panics_iff text = (
  λ h. elim (Bool-cases (Hex.decode text).valid) [
    | inl good ↦ ground (arith, h, good)
    | inr bad ↦ bad
  ],
  λ h. rw h refl,
)

owner-panics_iff : (owner : Bytes) → owner_address owner ≡ panics ↔ HasBadOwner owner
unfolding owner_address
owner-panics_iff [] = (λ h. inl (omega arith), λ h. refl)
owner-panics_iff (a ∷ []) = (λ h. inl (omega arith), λ h. refl)
owner-panics_iff (a ∷ b ∷ text) = (
  λ h. inr ((address-panics_iff text).0 h),
  λ h. elim h [
    | inl short ↦ absurd (omega (arith, short))
    | inr bad ↦ (address-panics_iff text).1 bad
  ],
)

public-panics_iff :
    (i : ℕ) (key : Bytes) (address : Result Bytes)
    → public_operator i key address ≡ panics ↔ address ≡ panics
unfolding public_operator
public-panics_iff i key (ok address) = (λ h. ground (arith, h), λ h. ground (arith, h))
public-panics_iff i key (err e) = (λ h. ground (arith, h), λ h. ground (arith, h))
public-panics_iff i key panics = (λ h. refl, λ h. refl)

keyed-panics_iff :
    (i : ℕ) (owner : Bytes) (key : Result Bytes)
    → keyed_operator i owner key ≡ panics
      ↔ (key ≡ panics) ⊎ (((k : Bytes) × (key ≡ ok k)) × (owner_address owner ≡ panics))
unfolding keyed_operator
keyed-panics_iff i owner (ok key) = (
  λ h. inr ((key, refl), (public-panics_iff i key (owner_address owner)).0 h),
  λ h. elim h [
    | inl e ↦ ground (arith, e)
    | inr (k, e) ↦ (public-panics_iff i key (owner_address owner)).1 e
  ],
)
keyed-panics_iff i owner (err e) = (
  λ h. ground (arith, h),
  λ h. elim h [ inl e ↦ ground (arith, e) | inr ((k, e1), e2) ↦ ground (arith, e1) ],
)
keyed-panics_iff i owner panics = (λ h. inl refl, λ h. refl)

cases_iff : {A B C D E F : Type 0} → A ↔ B ⊎ (C × D) → B ↔ E → D ↔ F → A ↔ E ⊎ (C × F)
cases_iff h e f = (
  λ a. elim (h.0 a) [ inl b ↦ inl (e.0 b) | inr (c, d) ↦ inr (c, f.0 d) ],
  λ z. elim z [ inl x ↦ h.1 (inl (e.1 x)) | inr (c, y) ↦ h.1 (inr (c, f.1 y)) ],
)

-- Away from the hard-coded operators, on any answer whose body parses, whatever its status: the program
-- panics exactly where the answer's key is a key that is not RSA, or where it is an RSA key and the
-- owner is shorter than two bytes or not hexadecimal after them.
pub fetch_operator_by_id-panics_iff :
    (world : World) (lib : OperatorLib) (table : Table) (hardcoded : Bytes) (i code : ℕ)
    (body : Bytes) (response : OperatorResponse) (sent : List Request)
    → is_using_hardcoded_operators hardcoded ≡ false
    → world sent (record { url = registry_url i; payload = none }) ≡ answered code body
    → lib.parse_response body ≡ some response
    → (fetch_operator_by_id world lib table hardcoded i sent).0 ≡ panics
      ↔ HasOtherKind lib response.public_key
        ⊎ (((key : Bytes) × (parse_public_key_from_base64 lib response.public_key ≡ ok key))
            × HasBadOwner response.owner)
unfolding operator_of
fetch_operator_by_id-panics_iff world lib table hardcoded i code body response sent remote answers
      parses =
    rw (fetch-answered world lib table hardcoded i code body response sent remote answers parses) (
      cases_iff
        (keyed-panics_iff i response.owner (parse_public_key_from_base64 lib response.public_key))
        (parse-panics_iff lib response.public_key) (owner-panics_iff response.owner))
