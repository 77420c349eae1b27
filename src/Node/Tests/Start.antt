-- ===== src/Node/Tests/Start.antt =====
-- Runs of the theorems on the start of a node.
use rockx_dkg_cli.Node.Start.Registered.{own_registration, EndsWith, start-ok}
use rockx_dkg_cli.Node.Start.Fresh.{registry_call, start-fresh}
use rockx_dkg_cli.Go.Strconv.{decimal}
use rockx_dkg_cli.Node.Params.{AppParams, load_from_env}
use rockx_dkg_cli.Net.{World, answered, ok}
use rockx_dkg_cli.Node.Start.{StartEnv, Serving, start}
use rockx_dkg_cli.Prelude.{
  ◌≡◌, refl, some, [], ◌∷◌, arith, Bytes, codes, bytes_eq, lookup, insert, bytes_key, nat_key,
}
use rockx_dkg_cli.Node.Tests.{list_kv, operator_json, pem_key}
use rockx_dkg_cli.Storage.{operator_key}
use rockx_dkg_cli.Registry.Tests.{lib_of}
use rockx_dkg_cli.Go.Hex
use rockx_dkg_cli.Go.Base64
use rockx_dkg_cli.Registry.{is_using_hardcoded_operators, OperatorResponse}

abbrev pub welcoming : World
welcoming sent req = answered 200 []

abbrev pub test_env : StartEnv
test_env = record {
  node = record {
    node_operator_id = decimal 1;
    node_addr = codes "a";
    operator_private_key = Base64.encode (9 ∷ []);
  };
  messenger_srv_addr = codes "http://m";
  node_broadcast_addr = codes "http://n";
  use_hardcoded_operators = [];
}

abbrev pub no_address : Bytes
no_address = 0 ∷ 0 ∷ 0 ∷ 0 ∷ 0 ∷ 0 ∷ 0 ∷ 0 ∷ 0 ∷ 0 ∷ 0 ∷ 0 ∷ 0 ∷ 0 ∷ 0 ∷ 0 ∷ 0 ∷ 0 ∷ 0 ∷ 0 ∷ []

abbrev pub registered_one : OperatorResponse
registered_one = record {
  id = 1;
  owner = b'0' ∷ b'x' ∷ Hex.encode no_address;
  public_key = Base64.encode (3 ∷ []);
}

abbrev pub test_params : AppParams
test_params = record { operator_id = 1; http_address = codes "a"; operator_private_key = 9 ∷ [] }

abbrev pub test_serving : Serving
test_serving = record {
  params = test_params;
  operator = record {
    operator_id = 1;
    eth_address = no_address;
    encryption_pub_key = 3 ∷ [];
    encryption_private_key = some (9 ∷ []);
  };
}

fresh_start :
    start welcoming test_env list_kv operator_json (lib_of registered_one) [] pem_key (some []) ≡ (
      ok test_serving,
      some ((operator_key 1, 1 ∷ []) ∷ []),
      registry_call 1 ∷ own_registration test_env test_params ∷ [],
    )
unfolding lookup insert is_using_hardcoded_operators bytes_eq
fresh_start =
    start-fresh welcoming list_kv operator_json (lib_of registered_one) [] test_env pem_key 1 1 97
      200 [] (9 ∷ []) (9 ∷ []) [] no_address (3 ∷ []) (3 ∷ []) (3 ∷ []) (1 ∷ []) [] []
      ((operator_key 1, 1 ∷ []) ∷ []) (omega arith) refl (omega arith, tt) (λ e. cc) refl refl refl
      refl refl (ground arith) refl (omega arith, tt) refl refl refl refl refl

start-fresh_example :
    start welcoming test_env list_kv operator_json (lib_of registered_one) [] pem_key (some []) ≡ (
      ok test_serving,
      some ((operator_key 1, 1 ∷ []) ∷ []),
      registry_call 1 ∷ own_registration test_env test_params ∷ [],
    )
unfolding lookup insert is_using_hardcoded_operators bytes_eq
start-fresh_example =
    start-fresh welcoming list_kv operator_json (lib_of registered_one) [] test_env pem_key 1 1 97
      200 [] (9 ∷ []) (9 ∷ []) [] no_address (3 ∷ []) (3 ∷ []) (3 ∷ []) (1 ∷ []) [] []
      ((operator_key 1, 1 ∷ []) ∷ []) (omega arith) refl (omega arith, tt) (λ e. cc) refl refl refl
      refl refl (ground arith) refl (omega arith, tt) refl refl refl refl refl

start-ok_example :
    (load_from_env pem_key test_env.node ≡ ok test_params)
    × (test_serving.operator.encryption_private_key ≡ some (9 ∷ []))
    × EndsWith welcoming
        (own_registration test_env test_params)
        (registry_call 1 ∷ own_registration test_env test_params ∷ [])
start-ok_example =
    start-ok welcoming test_env list_kv operator_json (lib_of registered_one) [] pem_key (some [])
      (some ((operator_key 1, 1 ∷ []) ∷ [])) test_serving
      (registry_call 1 ∷ own_registration test_env test_params ∷ []) fresh_start
