-- ===== src/Service/Tests/Runs.antt =====
-- Runs of the theorems on the service.
use rockx_dkg_cli.Service.Asking.{keygen_hears}
use rockx_dkg_cli.Messenger.Invariant.Topics.{create-IsConsistent}
use rockx_dkg_cli.Messenger.Contract.Topics.{contains}
use rockx_dkg_cli.Messenger.Incoming.{targets}
use rockx_dkg_cli.Messenger.Contract.Store.{publish_answer}
use rockx_dkg_cli.Messenger.Publish.{handle_stream_dkg_output}
use rockx_dkg_cli.Messenger.System.Keeps.{Meanwhile, and_then, at_once}
use rockx_dkg_cli.Cli.Data.{ParseStore}
use rockx_dkg_cli.Messenger.Invariant.Register.{registration-IsConsistent}
use rockx_dkg_cli.Service.Broadcast.{broadcast_result, broadcast_queued}
use rockx_dkg_cli.Cli.Results.{dkg_result_by_request_id}
use rockx_dkg_cli.Net.Plan.{is_ok}
use rockx_dkg_cli.Service.Results.{service_of, streamed_blame_shown}
use rockx_dkg_cli.Messenger.Contract.Requests.{with_topic}
use rockx_dkg_cli.Cli.Keygen.{handle_keygen}
use rockx_dkg_cli.Go.Strconv.{itoa, to_int}
use rockx_dkg_cli.Messenger.Contract.Joins.{joined_node, holds}
use rockx_dkg_cli.Messenger.Topics.{handle_create_topic, created, enlist_all, enlist, install}
use rockx_dkg_cli.Cli.Spec.{consume_url}
use rockx_dkg_cli.Client.{
  broadcast_dkg_message, stream_dkg_blame, messenger_addr_from_env, stream_dkg_output,
  subscriber_names,
}
use rockx_dkg_cli.Messenger.Tests.Contract.{seven_signs}
use rockx_dkg_cli.Messenger.Invariant.Defs.{init-IsConsistent, IsConsistent}
use rockx_dkg_cli.Storage.{operator_key}
use rockx_dkg_cli.Net.{ok, World}
use rockx_dkg_cli.Registry.Tests.{lib_of}
use rockx_dkg_cli.Node.Tests.Start.{
  test_env, test_params, welcoming, registered_one, test_serving, no_address,
}
use rockx_dkg_cli.Node.Start.Registered.{own_registration}
use rockx_dkg_cli.Messenger.Tests.{decoders, hello, own_key}
use rockx_dkg_cli.Messenger.State.{init, Message, default_topic, topic_at, subscriber_at}
use rockx_dkg_cli.Cli.Tests.Results.{generated}
use rockx_dkg_cli.Service.Tests.Matching.{
  plain_web, fits, taken, after_prefix, plain_law, before_mark, after_mark,
}
use rockx_dkg_cli.Service.Tests.Texts.{plain_json, plain_json_law, words, word, all_words}
use rockx_dkg_cli.Service.Joining.{Hears, serving-Hears}
use rockx_dkg_cli.Dkg.{BlameOutput, SignedOutput, DataStore}
use rockx_dkg_cli.Web.{Web, find_route}
use rockx_dkg_cli.Registry.{is_using_hardcoded_operators}
use rockx_dkg_cli.Messenger.Register.{Registered, handle_node_registration}
use rockx_dkg_cli.Prelude.{
  ℕ, ◌≡◌, refl, Option, some, [], ◌∷◌, arith, Bytes, codes, bytes_eq, GoMap, lookup, insert,
  bytes_key, nat_key, ◌≤◌, ◌<◌, true, not, none, ◌==◌, length, All, keys,
}
use rockx_dkg_cli.Cli.Tests.{
  plain_spec, in_order, keygen_flags, keygen_request, two_operators, keygen_message, keygen_parsed,
  keygen_encoded,
}
use rockx_dkg_cli.Service.{
  serve_http, Web, Json, Registered, BlameOutput, SignedOutput, with_messenger, served, reached,
  dispatch, handle, find_route, method_of, body_of, handle_create_topic, handle_stream_dkg_output,
}
use rockx_dkg_cli.Messenger.System.{boot, System, channel_room, streams_output}
use rockx_dkg_cli.Node.Tests.{list_kv, operator_json, pem_key}
use rockx_dkg_cli.Node.Start.{start}
use rockx_dkg_cli.Node.Start.Fresh.{start-fresh, registry_call}
use rockx_dkg_cli.Go.Hex

abbrev spoken : Option SignedOutput
spoken = some generated

abbrev kept_outputs : GoMap ℕ (Option SignedOutput)
kept_outputs = (1, some generated) ∷ []

abbrev kept_blame : BlameOutput
kept_blame = record { identifier = 9 ∷ []; rest = codes "r" }

abbrev test_addr : Bytes
test_addr = codes "http://m"

abbrev test_web : Web
test_web = plain_web test_addr

abbrev test_json : Json
test_json = plain_json kept_outputs kept_blame

abbrev started : Registered
started = (init, boot.runner)

node_started :
    start
      (with_messenger test_web test_json started welcoming)
      test_env
      list_kv
      operator_json
      (lib_of registered_one)
      []
      pem_key
      (some [])
    ≡ (
      ok test_serving,
      some ((operator_key 1, 1 ∷ []) ∷ []),
      registry_call 1 ∷ own_registration test_env test_params ∷ [],
    )
unfolding lookup insert is_using_hardcoded_operators bytes_eq with_messenger served reached
    serve_http dispatch handle find_route fits taken after_prefix before_mark after_mark
    handle_node_registration init method_of body_of words word all_words
    rockx_dkg_cli.Registry.registry_url rockx_dkg_cli.Client.register_request
    rockx_dkg_cli.Client.new_messenger_client rockx_dkg_cli.Client.messenger_addr_from_env
    rockx_dkg_cli.Go.Strconv.itoa rockx_dkg_cli.Go.Strconv.to_int
    rockx_dkg_cli.Messenger.Register.is_empty
node_started =
    start-fresh (with_messenger test_web test_json started welcoming) list_kv operator_json
      (lib_of registered_one) [] test_env pem_key 1 1 97 200 [] (9 ∷ []) (9 ∷ []) [] no_address
      (3 ∷ []) (3 ∷ []) (3 ∷ []) (1 ∷ []) [] [] ((operator_key 1, 1 ∷ []) ∷ []) (omega arith) refl
      (omega arith, tt) (λ e. cc) refl refl refl refl refl (ground arith) refl (omega arith, tt)
      refl refl refl refl refl

serving-Hears_example :
    Hears decoders 1 7
      (codes "http://n")
      hello
      (served test_web test_json started
        (registry_call 1 ∷ own_registration test_env test_params ∷ [])).0
unfolding rockx_dkg_cli.Client.new_messenger_client rockx_dkg_cli.Client.messenger_addr_from_env
serving-Hears_example =
    serving-Hears test_web test_json (plain_json_law kept_outputs kept_blame) test_addr
      (plain_law test_addr) decoders started welcoming test_env list_kv operator_json
      (lib_of registered_one) [] pem_key (some []) (some ((operator_key 1, 1 ∷ []) ∷ []))
      test_serving (registry_call 1 ∷ own_registration test_env test_params ∷ []) 7 hello refl
      init-IsConsistent node_started (omega arith) refl seven_signs

abbrev sent_outputs : GoMap ℕ SignedOutput
sent_outputs = (1, generated) ∷ []

abbrev always_read : DataStore → ParseStore
always_read d body = some (some d)

abbrev test_world : World
test_world = with_messenger test_web test_json started welcoming

abbrev system_of : Registered → System
system_of st = record boot { messenger = st.0; runner = st.1 }

abbrev after_outputs : System
after_outputs = system_of (
    served test_web test_json started
      (stream_dkg_output test_world test_addr sent_outputs (some (codes "t")) []).1)

-- Another request's results come in between.
abbrev later_system : System → System
later_system w = record w {
  messenger = (handle_stream_dkg_output (codes "ff") (some []) w.messenger).0;
}

other_stream : (w : System) → Meanwhile decoders own_key (Hex.encode (9 ∷ [])) w (later_system w)
unfolding Hex.encode
other_stream w = and_then at_once (streams_output w (codes "ff") (some [])) (ground arith)

abbrev after_blame : System
after_blame = system_of (
    served test_web test_json started
      (stream_dkg_blame test_world test_addr kept_blame (some (codes "t")) []).1)

streamed_blame_shown_example :
    ((stream_dkg_blame test_world test_addr kept_blame (some (codes "t")) []).0 ≡ ok tt)
    × ((dkg_result_by_request_id
          (with_messenger test_web test_json (service_of (later_system after_blame)) welcoming)
          (always_read (record { dkg_outputs = []; blame_output = some kept_blame }))
          test_addr
          (Hex.encode (9 ∷ []))
          []).0
        ≡ ok (record { outputs = []; blame = some kept_blame }))
streamed_blame_shown_example =
    streamed_blame_shown test_web test_json test_addr (plain_law test_addr) started welcoming
      (always_read (record { dkg_outputs = []; blame_output = some kept_blame })) decoders own_key
      (codes "t") kept_blame kept_blame [] after_blame (later_system after_blame) (omega arith, tt)
      (λ e. cc) refl refl refl (other_stream after_blame)

-- A messenger with one node and the topic of a request.
abbrev with_request : Registered
with_request = (
  with_topic (codes "09") (1 ∷ []) (joined_node 1 (codes "http://n") init boot.runner),
  boot.runner,
)

node_joined : IsConsistent (joined_node 1 (codes "http://n") init boot.runner)
node_joined = registration-IsConsistent default_topic _ init boot.runner init-IsConsistent

room_there : length (served test_web test_json with_request []).0.incoming < channel_room
unfolding served handle_create_topic created enlist_all enlist install handle_node_registration init
    rockx_dkg_cli.Messenger.Topics.default_of lookup bytes_eq
    rockx_dkg_cli.Messenger.Register.is_empty itoa to_int rockx_dkg_cli.Messenger.Register.register
    rockx_dkg_cli.Messenger.Register.register_new
room_there = omega arith

broadcast_queued_example :
    let now = (served test_web test_json with_request []).0 in
    let k = Hex.encode (9 ∷ []) in
    let run =
      broadcast_dkg_message
        (with_messenger test_web test_json with_request welcoming)
        test_addr
        (λ s. s)
        (9 ∷ [])
        (some (codes "hi"))
        [] in
    (run.0 ≡ broadcast_result (lookup k now.topics))
    × ((served test_web test_json with_request run.1).0
        ≡ (publish_answer k (codes "hi") now (lookup k now.topics)).0)
    × (length (served test_web test_json with_request run.1).0.incoming ≤ channel_room)
broadcast_queued_example =
    broadcast_queued test_web test_json test_addr (plain_law test_addr) with_request welcoming
      (λ s. s) (9 ∷ []) (codes "hi") [] (omega arith, tt) (create-IsConsistent _ _ node_joined)
      room_there

abbrev tool_web : Web
tool_web = plain_web (messenger_addr_from_env [])

abbrev joined_once : Registered
joined_once = (joined_node 1 (codes "http://n") init boot.runner, boot.runner)

operators_elsewhere : All (λ p. tool_web.target_of (consume_url p.1) ≡ none) two_operators
unfolding after_prefix consume_url messenger_addr_from_env
operators_elsewhere = (refl, (refl, tt))

default_kept : lookup default_topic joined_once.0.topics ≡ some 0
unfolding lookup handle_node_registration init bytes_eq rockx_dkg_cli.Messenger.Register.is_empty
    itoa to_int rockx_dkg_cli.Messenger.Register.register
    rockx_dkg_cli.Messenger.Register.register_new
default_kept = refl

one_known : lookup (itoa (to_int 1)) (topic_at joined_once.0 0).subscribers ≡ some 0
unfolding lookup handle_node_registration init bytes_eq insert itoa to_int
    rockx_dkg_cli.Messenger.Register.is_empty rockx_dkg_cli.Messenger.Register.register
    rockx_dkg_cli.Messenger.Register.register_new
one_known = refl

abbrev keygen_reply : Message
keygen_reply = record { topic = Hex.encode (9 ∷ []); payload = codes "hello" }

keygen_hears_example :
    let run =
      handle_keygen plain_spec in_order
        (with_messenger tool_web test_json joined_once welcoming)
        []
        keygen_flags
        (9 ∷ [])
        [] in
    let m = (served tool_web test_json joined_once run.1).0 in
    (is_ok run.0 ≡ true)
    × (holds (targets decoders m keygen_reply) 0 ≡ not (1 == 7))
    × All
        (λ x. contains (subscriber_names (keys two_operators)) (subscriber_at m x).name ≡ true)
        (targets decoders m keygen_reply)
keygen_hears_example =
    keygen_hears tool_web test_json (plain_json_law kept_outputs kept_blame) []
      (plain_law (messenger_addr_from_env [])) joined_once welcoming (λ sent req. refl) decoders
      plain_spec in_order keygen_flags keygen_request (9 ∷ []) keygen_message 1 7 0 0 keygen_reply
      keygen_parsed keygen_encoded operators_elsewhere (omega arith) (omega arith) node_joined
      default_kept one_known refl refl seven_signs
