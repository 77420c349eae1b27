-- ===== src/Cli/Data/Shares.antt =====
-- What `get-keyshares` makes its file of: internal/cli/handle_get_keyshares.go.
use rockx_dkg_cli.Cli.Keysign.Plan.{generate_signature-ok}
use rockx_dkg_cli.Cli.KeyShares.Fields.{some_outputs, sort_ids-All, cut_keys-Says}
use rockx_dkg_cli.Cli.KeyShares.Sorted.{unblamed, assembled}
use rockx_dkg_cli.Cli.Data.Polling.{data_request, poll-ok}
use rockx_dkg_cli.Client.Registration.{times}
use rockx_dkg_cli.Cli.Results.Agreement.{Says}
use rockx_dkg_cli.Go.Strconv.{itoa}
use rockx_dkg_cli.Client.{messenger_addr_from_env}
use rockx_dkg_cli.Cli.KeyShares.{
  generate_keyshare_v4, KeyShares, zero_x, shares_to_bytes, public_keys, encrypted_keys,
  key_shares_of, to_uint32, output_at, sort_ids,
}
use rockx_dkg_cli.Registry.{OperatorResponse}
use rockx_dkg_cli.Cli.Results.{
  dkg_result_by_request_id, DkgResult, get_validator_pk, get_signature_from_key_sign, vk_texts,
}
use rockx_dkg_cli.Cli.Keysign.{generate_signature}
use rockx_dkg_cli.Cli.Data.{
  poll, ParseStore, handle_get_keyshares, KeySharesFlags, signed_prefix, or_empty,
}
use rockx_dkg_cli.Cli.Spec.{SsvSpec, Ranges}
use rockx_dkg_cli.Prelude.{
  ℕ, ◌^◌, ◌<◌, ◌≡◌, sym, ap, subst, ◌∙◌, Option, none, some, List, ◌∷◌, ◌++◌, map, arith, All,
  Bytes, put,
}
use rockx_dkg_cli.Cli.KeyShares.Fields.{assemble-fields}
use rockx_dkg_cli.Go.Hex
use rockx_dkg_cli.Net.{◌>>=◌, World, Request, Exec, ok, lift, after-ok, after_known}

module _ (world : World) (parse : ParseStore) where
  -- The run that reads the key generation's results.
  abbrev pub fetched : (env_addr : Bytes) → KeySharesFlags → Exec DkgResult
  fetched env_addr flags sent =
      dkg_result_by_request_id world parse (messenger_addr_from_env env_addr) flags.request_id sent

  -- The run that reads the results of that request, after `k` tries.
  abbrev pub reread : (env_addr signature_id : Bytes) (k : ℕ) → Exec DkgResult
  reread env_addr signature_id k sent =
      let addr : Bytes = messenger_addr_from_env env_addr in
      let id : Bytes = Hex.encode signature_id in
      dkg_result_by_request_id world parse addr id (sent ++ times k (data_request addr id))

  -- What is known once the signature's results and the file are there.
  abbrev pub Signed :
      (Bytes → Option OperatorResponse)
      → (env_addr signature_id : Bytes) → List Request
      → DkgResult
      → KeyShares
      → Type 0
  Signed parse_operator env_addr signature_id sent keygen ks =
      (k : ℕ) × (k < 4)
      × (result : DkgResult) × ((reread env_addr signature_id k sent).0 ≡ ok result)
      × (prefix : Bytes) × (get_signature_from_key_sign result ≡ ok prefix)
      × (later : List Request) × ((generate_keyshare_v4 world parse_operator keygen prefix later).0
          ≡ ok ks)

  poll-Signed :
      (parse_operator : Bytes → Option OperatorResponse) (env_addr id : Bytes) (sent : List Request)
      (keygen : DkgResult) (ks : KeyShares) (o : Option DkgResult)
      → (poll world parse 4 (messenger_addr_from_env env_addr) (Hex.encode id) sent).0 ≡ ok o
      → (later : List Request)
      → ((lift (signed_prefix o) >>= λ prefix.
            generate_keyshare_v4 world parse_operator keygen prefix)
          later).0
        ≡ ok ks
      → Signed parse_operator env_addr id sent keygen ks
  unfolding signed_prefix
  poll-Signed parse_operator env_addr id sent keygen ks none p later h = ground (arith, h)
  poll-Signed parse_operator env_addr id sent keygen ks (some result) p later h =
      let (k, lt, found) =
        poll-ok world parse 4 (messenger_addr_from_env env_addr) (Hex.encode id) sent result p in
      let (prefix, q, made) = after-ok _ (get_signature_from_key_sign result) later ks h in
      (k, lt, result, found, prefix, q, later, made)

module _ (spec : SsvSpec) (ranges : Ranges) (world : World) where
  -- The run that asks the operators to sign the owner's address and nonce.
  abbrev pub asked : (env_addr : Bytes) → KeySharesFlags → (vk signature_id : Bytes) → Exec Bytes
  asked env_addr flags vk signature_id sent =
      generate_signature spec ranges world env_addr flags.operator vk
        (flags.owner_address ++ b':' ∷ itoa flags.owner_nonce) signature_id sent

module _ (spec : SsvSpec) (ranges : Ranges) (world : World) (parse : ParseStore) where
  -- What comes after the results of the key generation.
  handle_get_keyshares-steps :
      (parse_operator : Bytes → Option OperatorResponse) (env_addr : Bytes) (flags : KeySharesFlags)
      (signature_id : Bytes) (sent : List Request) (keygen : DkgResult) (ks : KeyShares)
      → (fetched world parse env_addr flags sent).0 ≡ ok keygen
      → (handle_get_keyshares spec ranges world parse parse_operator env_addr flags signature_id
          sent).0
        ≡ ok ks
      → (o : Option Bytes) × (get_validator_pk keygen ≡ ok o)
        × ((asked spec ranges world env_addr flags
              (or_empty o)
              signature_id
              (fetched world parse env_addr flags sent).1).0
            ≡ ok signature_id)
        × Signed world parse parse_operator env_addr signature_id
            (asked spec ranges world env_addr flags
              (or_empty o)
              signature_id
              (fetched world parse env_addr flags sent).1).1
            keygen
            ks
  unfolding handle_get_keyshares
  handle_get_keyshares-steps parse_operator env_addr flags signature_id sent keygen ks got h =
      let addr : Bytes = messenger_addr_from_env env_addr in
      let first = fetched world parse env_addr flags sent in
      let h1 = after_known _ first.0 first.1 keygen ks got h in
      let (o, q, h2) = after-ok _ (get_validator_pk keygen) first.1 ks h1 in
      let sign = asked spec ranges world env_addr flags (or_empty o) signature_id first.1 in
      let (id, r, h3) = after-ok _ sign.0 sign.1 ks h2 in
      let same : id ≡ signature_id =
        generate_signature-ok spec ranges world env_addr flags.operator (or_empty o)
          (flags.owner_address ++ b':' ∷ itoa flags.owner_nonce) signature_id id first.1 r in
      let polled = poll world parse 4 addr (Hex.encode id) sign.1 in
      let (result, t, h4) = after-ok _ polled.0 polled.1 ks h3 in
      (
        o,
        q,
        subst (λ z. sign.0 ≡ ok z) same r,
        subst (λ z. Signed world parse parse_operator env_addr z sign.1 keygen ks) same
            (poll-Signed world parse parse_operator env_addr id sign.1 keygen ks result t polled.1
              h4),
      )

  -- Where `get-keyshares` makes a file, and the identifiers in the results of the key generation
  -- are below 2^32: the key generation ended without blame; all its outputs hold the same validator
  -- key, and the file's public key is a hexadecimal text of it after `0x`; the operators were
  -- asked without an error to sign the owner's address and nonce with that key; one of the four
  -- tries has read a result of that request, which gives the prefix; and the file's shares are made
  -- of the prefix and of the shares under the file's identifiers.
  pub handle_get_keyshares-ok :
      (parse_operator : Bytes → Option OperatorResponse) (env_addr : Bytes) (flags : KeySharesFlags)
      (signature_id : Bytes) (sent : List Request) (keygen : DkgResult) (ks : KeyShares)
      → (fetched world parse env_addr flags sent).0 ≡ ok keygen
      → All (λ p. p.0 < 2 ^ 32) keygen.outputs
      → (handle_get_keyshares spec ranges world parse parse_operator env_addr flags signature_id
          sent).0
        ≡ ok ks
      → (keygen.blame ≡ none)
        × ((vk : Bytes) × All (Says vk) (vk_texts keygen.outputs)
            × ((key : Bytes) × (ks.payload.public_key ≡ zero_x key) × Says vk key)
            × ((asked spec ranges world env_addr flags vk signature_id
                  (fetched world parse env_addr flags sent).1).0
                ≡ ok signature_id)
            × ((k : ℕ) × (k < 4)
                × (result : DkgResult) × ((reread world parse env_addr signature_id k
                      (asked spec ranges world env_addr flags vk signature_id
                        (fetched world parse env_addr flags sent).1).1).0
                    ≡ ok result)
                × (prefix : Bytes) × (get_signature_from_key_sign result ≡ ok prefix)
                × (ks.payload.shares
                    ≡ shares_to_bytes
                        (public_keys keygen.outputs ks.payload.operator_ids)
                        (encrypted_keys keygen.outputs ks.payload.operator_ids)
                        prefix)))
  unfolding generate_keyshare_v4 get_validator_pk
  handle_get_keyshares-ok parse_operator env_addr flags signature_id sent keygen ks got fits h =
      let (o, q, sign, (k, lt, result, read, prefix, u, later, made)) =
        handle_get_keyshares-steps parse_operator env_addr flags signature_id sent keygen ks got
          h in
      let (no_blame, made1) =
        unblamed keygen.blame (key_shares_of world parse_operator keygen.outputs prefix) later ks
          made in
      let (vk, is_vk, says) =
        some_outputs world parse_operator keygen.outputs prefix later ks o made1 q in
      let (operators, put) = assembled world parse_operator keygen prefix later ks made in
      let ids : List ℕ = map (λ p. to_uint32 p.0) keygen.outputs in
      let P : ℕ → Type 0 = λ i. Says vk (output_at keygen.outputs i).validator_pub_key in
      let (key, ids_same, shares) =
        assemble-fields keygen.outputs prefix operators (sort_ids ids) (Says vk) ks
          (sort_ids-All P ids (cut_keys-Says vk keygen.outputs fits says)) put in
      let root : List Request = (fetched world parse env_addr flags sent).1 in
      (
        no_blame,
        (
          vk,
          says,
          key,
          subst
              (λ z.
                (asked spec ranges world env_addr flags (or_empty z) signature_id root).0
                ≡ ok signature_id)
              is_vk sign,
          (
            k,
            lt,
            result,
            subst
                (λ z.
                  (reread world parse env_addr signature_id k
                    (asked spec ranges world env_addr flags (or_empty z) signature_id root).1).0
                  ≡ ok result)
                is_vk read,
            prefix,
            u,
            shares
                ∙ ap
                    (λ z.
                      shares_to_bytes (public_keys keygen.outputs z)
                        (encrypted_keys keygen.outputs z) prefix)
                    (sym ids_same),
          ),
        ),
      )
