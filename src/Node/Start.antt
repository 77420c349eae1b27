-- ===== src/Node/Start.antt =====
-- How a node starts: `main` and `thisOperator` of cmd/node/main.go, up to the server that it runs.
pub mod Registered
pub mod Fresh
use rockx_dkg_cli.Storage.{Outcome, Kv, Json, get_dkg_operator}
use rockx_dkg_cli.Net.{World, Result, ok, err, panics, Request}
use rockx_dkg_cli.Prelude.{◌%◌, ◌^◌, Option, none, some, List, [], Bytes}
use rockx_dkg_cli.Node.Params.{AppParams, NodeEnv, load_from_env}
use rockx_dkg_cli.Client.{messenger_addr_from_env, new_messenger_client, register_operator_node}
use rockx_dkg_cli.Registry.Fetch.{OperatorLib, Table}
use rockx_dkg_cli.Go.Strconv.{itoa, to_int}
use rockx_dkg_cli.Dkg.{Operator}

-- The variables that `main` and its calls read; an empty text where one is not set.
pub record StartEnv : Type 0 where
  pub node : NodeEnv
  pub messenger_srv_addr : Bytes
  pub node_broadcast_addr : Bytes
  pub use_hardcoded_operators : Bytes

-- What a node that serves has been made of.
pub record Serving : Type 0 where
  pub params : AppParams
  pub operator : Operator

unfoldable pub serve : AppParams → Operator → Result (Unit {0}) → Result Serving
serve params operator (ok _) = ok record { params = params; operator = operator }
serve params operator (err e) = panics
serve params operator panics = panics

module _ {S : Type 0} (world : World) (env : StartEnv) where
  -- The node registers with the messenger, and serves where that succeeds.
  unfoldable pub register_and_serve : AppParams → Outcome S Operator → Outcome S Serving
  register_and_serve params (ok operator, s, sent) =
      let registered =
        register_operator_node world
          (new_messenger_client (messenger_addr_from_env env.messenger_srv_addr))
          (itoa (to_int params.operator_id)) env.node_broadcast_addr sent in
      (serve params operator registered.0, s, registered.1)
  register_and_serve params (err e, s, sent) = (panics, s, sent)
  register_and_serve params (panics, s, sent) = (panics, s, sent)

  module _ (kv : Kv S) (json : Json Operator) (lib : OperatorLib) (table : Table) where
    -- thisOperator: GetDKGOperator says that the operator exists wherever it gives no error. Its
    -- identifier has passed through a uint32.
    unfoldable pub this_operator : AppParams → S → Outcome S Operator
    this_operator params s =
        get_dkg_operator kv json world lib table env.use_hardcoded_operators params.operator_id
          params.operator_private_key (params.operator_id % 2 ^ 32) s []

    unfoldable pub start_with : S → Result AppParams → Outcome S Serving
    start_with s (ok params) = register_and_serve params (this_operator params s)
    start_with s (err e) = (panics, s, [])
    start_with s panics = (panics, s, [])

    -- The store is opened after the parameters are read; `none` where badger.Open fails.
    unfoldable pub start :
        (pem_to_private_key : Bytes → Option Bytes)
        → (opened : Option S) → Result Serving × Option S × List Request
    start pem_to_private_key none = (panics, none, [])
    start pem_to_private_key (some s) =
        let r = start_with s (load_from_env pem_to_private_key env.node) in (r.0, some r.1, r.2)
