-- ===== src/Node/Params.antt =====
-- The parameters of a node: cmd/node/app_params.go.
use rockx_dkg_cli.Go.Strconv.{parse_uint, decimal, parse_uint-decimal, parse_uint-lt}
use rockx_dkg_cli.Go.Hex.{IsByte}
use rockx_dkg_cli.Net.{Result, err, ok, unparsable, panics, nil_key, Result-cases}
use rockx_dkg_cli.Prelude.{
  ℕ, ◌^◌, ◌<◌, ◌≡◌, refl, ◌≢◌, Option, none, some, [], ◌∷◌, All, Bytes, codes, subst, inl, inr,
  arith, Option-cases,
}
use rockx_dkg_cli.Go.Base64

pub record AppParams : Type 0 where
  pub operator_id : ℕ
  pub http_address : Bytes
  pub operator_private_key : Bytes

-- The environment: an empty text where a variable is not set.
pub record NodeEnv : Type 0 where
  pub node_operator_id : Bytes
  pub node_addr : Bytes
  pub operator_private_key : Bytes

unfoldable pub load_operator_id : Bytes → Result ℕ
load_operator_id value = elim (parse_uint 32 value) [ none ↦ panics | some i ↦ ok i ]

unfoldable pub load_http_address : Bytes → Bytes
load_http_address [] = codes "0.0.0.0:8080"
load_http_address (c ∷ s) = c ∷ s

unfoldable pub key_of_pem : Option Bytes → Result Bytes
key_of_pem none = err unparsable
key_of_pem (some key) = ok key

-- `pem_to_private_key` is types.PemToPrivateKey.
unfoldable pub load_operator_private_key :
    (pem_to_private_key : Bytes → Option Bytes) → Bytes → Result Bytes
load_operator_private_key pem_to_private_key [] = err nil_key
load_operator_private_key pem_to_private_key (c ∷ s) = elim (Base64.decode (c ∷ s)) [
  | none ↦ err unparsable
  | some pem ↦ key_of_pem (pem_to_private_key pem)
]

abbrev with_key : ℕ → Bytes → Result Bytes → Result AppParams
with_key i addr (ok key) =
    ok record { operator_id = i; http_address = addr; operator_private_key = key }
with_key i addr (err e) = err e
with_key i addr panics = panics

unfoldable pub load_from_env :
    (pem_to_private_key : Bytes → Option Bytes) → NodeEnv → Result AppParams
load_from_env pem_to_private_key env = elim (load_operator_id env.node_operator_id) [
  | err e ↦ err e
  | panics ↦ panics
  | ok i ↦
      with_key i (load_http_address env.node_addr)
        (load_operator_private_key pem_to_private_key env.operator_private_key)
]

encode_filled : (pem : Bytes) → pem ≢ [] → Base64.encode pem ≢ []
unfolding Base64.encode
encode_filled [] h = absurd (h refl)
encode_filled (a ∷ []) h = λ e. cc
encode_filled (a ∷ b ∷ []) h = λ e. cc
encode_filled (a ∷ b ∷ c ∷ s) h = λ e. cc

load_filled :
    (pem_to_private_key : Bytes → Option Bytes) (s pem key : Bytes)
    → s ≢ []
    → Base64.decode s ≡ some pem
    → pem_to_private_key pem ≡ some key
    → load_operator_private_key pem_to_private_key s ≡ ok key
unfolding load_operator_private_key key_of_pem
load_filled pem_to_private_key [] pem key filled decoded h = absurd (filled refl)
load_filled pem_to_private_key (c ∷ s) pem key filled decoded h =
    rw (load_operator_private_key, decoded) (rw (key_of_pem, h) refl)

load_id-decimal : (i : ℕ) → i < 2 ^ 32 → load_operator_id (decimal i) ≡ ok i
unfolding load_operator_id
load_id-decimal i bound = rw (load_operator_id, parse_uint-decimal 32 i bound) refl

load_key-encode :
    (pem_to_private_key : Bytes → Option Bytes) (pem key : Bytes)
    → All IsByte pem
    → pem ≢ []
    → pem_to_private_key pem ≡ some key
    → load_operator_private_key pem_to_private_key (Base64.encode pem) ≡ ok key
load_key-encode pem_to_private_key pem key bytes filled h =
    load_filled pem_to_private_key (Base64.encode pem) pem key (encode_filled pem filled)
      (Base64.decode-encode pem bytes) h

-- A node whose environment holds the decimal text of an identifier below 2^32, an address, and the
-- base64 text of a key's PEM text that is not empty starts with that identifier, address and key.
pub load_from_env-encode :
    (pem_to_private_key : Bytes → Option Bytes) (i c : ℕ) (addr pem key : Bytes)
    → i < 2 ^ 32
    → All IsByte pem
    → pem ≢ []
    → pem_to_private_key pem ≡ some key
    → load_from_env pem_to_private_key (record {
      node_operator_id = decimal i;
      node_addr = c ∷ addr;
      operator_private_key = Base64.encode pem;
    })
      ≡ ok record { operator_id = i; http_address = c ∷ addr; operator_private_key = key }
unfolding load_from_env load_operator_id load_http_address
load_from_env-encode pem_to_private_key i c addr pem key bound bytes filled h =
    rw (load_from_env, load_id-decimal i bound)
      (rw (load_key-encode pem_to_private_key pem key bytes filled h) refl)

load_id-lt : (value : Bytes) (i : ℕ) → load_operator_id value ≡ ok i → i < 2 ^ 32
unfolding load_operator_id
load_id-lt value i h = elim (Option-cases (parse_uint 32 value)) [
  | inl e ↦
      let e2 : Path (Result ℕ) panics (ok i) = rw (load_operator_id, e) at h in ground (arith, e2)
  | inr (m, e) ↦
      let e2 : Path (Result ℕ) (ok m) (ok i) = rw (load_operator_id, e) at h in
      let same : m ≡ i = ground (arith, e2) in
      subst (λ z. z < 2 ^ 32) same (parse_uint-lt 32 m value e)
]

with_key-id :
    (i : ℕ) (addr : Bytes) (key : Result Bytes) (params : AppParams)
    → with_key i addr key ≡ ok params
    → i ≡ params.operator_id
with_key-id i addr (ok key) params h = ground (arith, h)
with_key-id i addr (err e) params h = ground (arith, h)
with_key-id i addr panics params h = ground (arith, h)

-- The identifier of a node is a uint32.
pub load_from_env-lt :
    (pem_to_private_key : Bytes → Option Bytes) (env : NodeEnv) (params : AppParams)
    → load_from_env pem_to_private_key env ≡ ok params
    → params.operator_id < 2 ^ 32
unfolding load_from_env
load_from_env-lt pem_to_private_key env params h =
    elim (Result-cases (load_operator_id env.node_operator_id)) [
      | inl (i, e) ↦
          let key = load_operator_private_key pem_to_private_key env.operator_private_key in
          let keyed : with_key i (load_http_address env.node_addr) key ≡ ok params =
            rw (load_from_env, e) at h in
          subst (λ z. z < 2 ^ 32) (with_key-id i (load_http_address env.node_addr) key params keyed)
            (load_id-lt env.node_operator_id i e)
      | inr (inl (x, e)) ↦
          let e2 : Path (Result AppParams) (err x) (ok params) = rw (load_from_env, e) at h in
          ground (arith, e2)
      | inr (inr e) ↦
          let e2 : Path (Result AppParams) panics (ok params) = rw (load_from_env, e) at h in
          ground (arith, e2)
    ]
