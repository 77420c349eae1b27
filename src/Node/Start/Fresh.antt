-- ===== src/Node/Start/Fresh.antt =====
-- A node that is registered with the registry starts.
use rockx_dkg_cli.Registry.RoundTrip.{fetch_operator_by_id-encode}
use rockx_dkg_cli.Go.Strconv.{decimal}
use rockx_dkg_cli.Storage.Operators.{get_dkg_operator-first}
use rockx_dkg_cli.Client.Registration.{try-answered}
use rockx_dkg_cli.Node.Start.Registered.{own_registration}
use rockx_dkg_cli.Node.Params.{AppParams, load_from_env, load_from_env-encode}
use rockx_dkg_cli.Client.{register_operator_node}
use rockx_dkg_cli.Node.Start.{
  this_operator, register_and_serve, StartEnv, serve, start, start_with, Serving,
}
use rockx_dkg_cli.Registry.Fetch.{OperatorLib, Table, fetch_operator_by_id, rsa}
use rockx_dkg_cli.Dkg.{Operator}
use rockx_dkg_cli.Storage.{Kv, Json, operator_key, key_not_found, with_own_key, Outcome}
use rockx_dkg_cli.Prelude.{
  ℕ, ◌%◌, ◌^◌, ◌<◌, ◌≡◌, refl, ◌∙◌, none, some, List, [], ◌∷◌, ◌++◌, arith, Bytes, ◌≢◌, false,
  Option, ==_iff, length, All, ap,
}
use rockx_dkg_cli.Go.Hex
use rockx_dkg_cli.Go.Base64
use rockx_dkg_cli.Registry.{registry_url, is_using_hardcoded_operators}
use rockx_dkg_cli.Net.{answered, Request, World, ok}

abbrev pub registry_call : ℕ → Request
registry_call i = record { url = registry_url i; payload = none }

module _ {S : Type 0} (world : World) (kv : Kv S) (json : Json Operator) (lib : OperatorLib)
    (table : Table) where
  registration-answered :
      (env : StartEnv) (params : AppParams) (o : Operator) (s : S) (sent : List Request)
      (body : Bytes)
      → world sent (own_registration env params) ≡ answered 200 body
      → register_and_serve world env params (ok o, s, sent)
        ≡ (ok record { params = params; operator = o }, s, sent ++ own_registration env params ∷ [])
  unfolding register_and_serve register_operator_node serve
  registration-answered env params o s sent body h =
      rw (try-answered world 2 200 body (own_registration env params) sent h) refl

  this-first :
      (env : StartEnv) (params : AppParams) (s s' : S) (o : Operator) (v : Bytes)
      (sent : List Request)
      → params.operator_id < 2 ^ 32
      → kv.get (operator_key params.operator_id) s ≡ key_not_found
      → fetch_operator_by_id world lib table env.use_hardcoded_operators params.operator_id []
        ≡ (ok o, sent)
      → json.marshal o ≡ some v
      → kv.set (operator_key params.operator_id) v s ≡ some s'
      → this_operator world env kv json lib table params s
        ≡ (ok (record o { encryption_private_key = some params.operator_private_key }), s', sent)
  unfolding this_operator
  this-first env params s s' o v sent below missing fetched written bound =
      let same : params.operator_id % 2 ^ 32 ≡ params.operator_id = omega arith in
      rw same (
        get_dkg_operator-first kv json world lib table env.use_hardcoded_operators
          params.operator_id params.operator_private_key params.operator_id s s' [] sent o v missing
          fetched written bound
        ∙ unfold with_own_key in rw ((==_iff params.operator_id params.operator_id).1 refl) refl)

  -- A node starts, from a store that does not know it, where its environment holds the texts of its
  -- identifier, address and key; the registry is asked and answers with the texts of a 20-byte address
  -- and of an RSA key; the store takes the operator; and the messenger answers its registration with
  -- 200. It has then made these two requests and no other, and serves with its own private key.
  pub start-fresh :
      (env : StartEnv) (pem_to_private_key : Bytes → Option Bytes) (i j c code : ℕ)
      (addr key_pem key body address pem block pub_key v reply : Bytes) (s s' : S)
      → i < 2 ^ 32
      → env.node ≡ record {
        node_operator_id = decimal i;
        node_addr = c ∷ addr;
        operator_private_key = Base64.encode key_pem;
      }
      → All Hex.IsByte key_pem
      → key_pem ≢ []
      → pem_to_private_key key_pem ≡ some key
      → kv.get (operator_key i) s ≡ key_not_found
      → is_using_hardcoded_operators env.use_hardcoded_operators ≡ false
      → world [] (registry_call i) ≡ answered code body
      → lib.parse_response body
        ≡ some (record {
          id = j;
          owner = b'0' ∷ b'x' ∷ Hex.encode address;
          public_key = Base64.encode pem;
        })
      → All Hex.IsByte address
      → length address ≡ 20
      → All Hex.IsByte pem
      → lib.pem_decode pem ≡ some block
      → lib.parse_pkix_public_key block ≡ some (rsa pub_key)
      → let params : AppParams = record {
        operator_id = i;
        http_address = c ∷ addr;
        operator_private_key = key;
      } in
        let o : Operator = record {
          operator_id = i;
          eth_address = address;
          encryption_pub_key = pub_key;
          encryption_private_key = none;
        } in
        json.marshal o ≡ some v
        → kv.set (operator_key i) v s ≡ some s'
        → world (registry_call i ∷ []) (own_registration env params) ≡ answered 200 reply
        → start world env kv json lib table pem_to_private_key (some s) ≡ (
          ok record { params = params; operator = record o { encryption_private_key = some key } },
          some s',
          registry_call i ∷ own_registration env params ∷ [],
        )
  unfolding start start_with
  start-fresh env pem_to_private_key i j c code addr key_pem key body address pem block pub_key v
        reply s s' below texts key_bytes filled is_key missing remote answers parses bytes size
        pem_bytes decodes is_rsa written bound accepted =
      let params : AppParams = record {
        operator_id = i;
        http_address = c ∷ addr;
        operator_private_key = key;
      } in
      let loaded : load_from_env pem_to_private_key env.node ≡ ok params = rw texts (
        load_from_env-encode pem_to_private_key i c addr key_pem key below key_bytes filled
          is_key) in
      let fetched =
        fetch_operator_by_id-encode world lib table env.use_hardcoded_operators i j code body
          address pem block pub_key [] remote answers parses bytes size pem_bytes decodes is_rsa in
      let o : Operator = record {
        operator_id = i;
        eth_address = address;
        encryption_pub_key = pub_key;
        encryption_private_key = none;
      } in
      ap (λ (r : Outcome S Serving). (r.0, some r.1, r.2))
        (ap (start_with world env kv json lib table s) loaded
          ∙ ap (register_and_serve world env params) (
              this-first env params s s' o v (registry_call i ∷ []) below missing fetched written
                bound)
          ∙ registration-answered env params (record o { encryption_private_key = some key }) s'
              (registry_call i ∷ []) reply accepted)
