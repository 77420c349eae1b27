-- ===== src/Service/Joining.antt =====
-- A node that has started, at the messenger: cmd/node/main.go with the client and the service.
use rockx_dkg_cli.Service.Sound.{served-IsConsistent}
use rockx_dkg_cli.Service.Routes.{serve_http-register}
use rockx_dkg_cli.Service.Clients.{with_messenger-served, register_target}
use rockx_dkg_cli.Messenger.Invariant.Defs.{IsConsistent}
use rockx_dkg_cli.Messenger.Contract.Joins.{holds, joined_hears}
use rockx_dkg_cli.Node.Params.{load_from_env-lt}
use rockx_dkg_cli.Storage.{Kv}
use rockx_dkg_cli.Node.Start.{StartEnv, Serving, start}
use rockx_dkg_cli.Node.Start.Registered.{start-ok}
use rockx_dkg_cli.Registry.Fetch.{OperatorLib, Table}
use rockx_dkg_cli.Dkg.{Operator}
use rockx_dkg_cli.Net.{World, Request, ok}
use rockx_dkg_cli.Client.{register_request, new_messenger_client, messenger_addr_from_env}
use rockx_dkg_cli.Go.Strconv.{itoa, to_int, i63}
use rockx_dkg_cli.Messenger.Contract.Nodes.{expected_status, status_of, registration_status}
use rockx_dkg_cli.Web.{Web, WebLaw}
use rockx_dkg_cli.Messenger.Incoming.{Decoders, targets, signer_of}
use rockx_dkg_cli.Workers.{Runner}
use rockx_dkg_cli.Messenger.State.{
  Messenger, Worker, default_topic, Reply, Message, respond, topic_at, subscriber_at,
}
use rockx_dkg_cli.Messenger.Register.{
  handle_node_registration, is_empty, SubscriberJson, Registered,
}
use rockx_dkg_cli.Prelude.{
  ℕ, ◌≡◌, ◌≢◌, some, [], Bytes, lookup, bytes_key, nat_key, ◌<◌, refl, sym, ◌∙◌, not, Option, none,
  List, ◌∷◌, ◌++◌, arith, ◌==◌, codes, ap, subst,
}
use rockx_dkg_cli.Net.{subscriber_json}
use rockx_dkg_cli.Messenger.Contract.Joins.{joined-topics}
use rockx_dkg_cli.Service.{
  serve_http, Json, handle_node_registration, answer_of, answered, Web, JsonLaw, body_of, World,
  with_messenger, served,
}
use rockx_dkg_cli.Storage

status_of-answer :
    (json : Json) (reply : Reply) (text : Bytes)
    → answer_of json reply ≡ answered 200 text
    → status_of reply ≡ 200
status_of-answer json (respond code body) text h = ground (arith, h)
status_of-answer json Reply.panics text h = ground (arith, h)

expected-ok :
    (n addr : Bytes) (o : Option ℕ)
    → expected_status o (some (record { name = n; srv_addr = addr })) ≡ 200
    → ((t : ℕ) × (o ≡ some t)) × (addr ≢ [])
unfolding is_empty
expected-ok n addr none h = ground (arith, h)
expected-ok n [] (some t) h = ground (arith, h)
expected-ok n (c ∷ addr) (some t) h = ((t, refl), ground arith)

-- A registration that is answered with 200 has found the default topic, and gives an address.
granted :
    (json : Json) (n addr text : Bytes) (m : Messenger) (r : Runner Worker)
    → answer_of json
        (handle_node_registration default_topic
          (some (record { name = n; srv_addr = addr }))
          (m, r)).1
      ≡ answered 200 text
    → ((t : ℕ) × (lookup default_topic m.topics ≡ some t)) × (addr ≢ [])
granted json n addr text m r h =
    let body : Option SubscriberJson = some (record { name = n; srv_addr = addr }) in
    let out = handle_node_registration default_topic body (m, r) in
    expected-ok n addr (lookup default_topic m.topics)
      (sym (registration_status default_topic body m r).0 ∙ status_of-answer json out.1 text h)

-- Where the state has such a topic and subscriber.
abbrev pub Hears : Decoders → (i j : ℕ) → (addr : Bytes) → Message → Messenger → Type 0
Hears d i j addr msg m =
    (t : ℕ) × (lookup default_topic m.topics ≡ some t)
    × (s : ℕ) × (lookup (itoa (to_int i)) (topic_at m t).subscribers ≡ some s)
    × ((subscriber_at m s).srv_addr ≡ addr)
    × (holds (targets d m msg) s ≡ not (i == j))

module _ (web : Web) (json : Json) (json_law : JsonLaw json) (addr : Bytes) (law : WebLaw web addr)
    (d : Decoders) where
  -- A registration that the messenger has answered with 200, as its last request.
  registered-Hears :
      (st : Registered) (others : World) (before : List Request) (i j : ℕ) (node_addr text : Bytes)
      (msg : Message)
      → i < i63
      → j < i63
      → IsConsistent st.0
      → msg.topic ≡ default_topic
      → signer_of d msg.payload ≡ some j
      → with_messenger web json st others before (register_request addr (itoa (to_int i)) node_addr)
        ≡ answered 200 text
      → Hears d i j node_addr msg
          (served web json st (before ++ register_request addr (itoa (to_int i)) node_addr ∷ [])).0
  unfolding register_request body_of
  registered-Hears st others before i j node_addr text msg i_small j_small v on signed h =
      let n : Bytes = itoa (to_int i) in
      let req : Request = register_request addr n node_addr in
      let now : Registered = served web json st before in
      let body : Option SubscriberJson = some (record { name = n; srv_addr = node_addr }) in
      let out = handle_node_registration default_topic body now in
      let (answer, later) =
        with_messenger-served web json st others req
          (codes "/register_node?subscribes_to=" ++ default_topic) before
          (register_target web json addr law) in
      let page : serve_http web json (codes "/register_node?subscribes_to=" ++ default_topic)
            (some (subscriber_json n node_addr)) now
          ≡ (out.0, answer_of json out.1) =
        serve_http-register web addr law json default_topic (subscriber_json n node_addr) now
          (ground arith)
        ∙ rw (json_law.subscriber_read n node_addr) refl in
      let accepted : answer_of json out.1 ≡ answered 200 text =
        sym (ap (λ z. z.1) page) ∙ sym answer ∙ h in
      let ((t, found), filled) = granted json n node_addr text now.0 now.1 accepted in
      let (s, known, at_addr, hears) =
        joined_hears d i j t node_addr now.0 now.1 msg i_small j_small filled
          (served-IsConsistent web json before st v) found on signed in
      subst (λ (z : Registered). Hears d i j node_addr msg z.0) (sym (later ∙ ap (λ z. z.0) page))
        (t, joined-topics i t node_addr now.0 now.1 i_small filled found, s, known, at_addr, hears)

  -- A node that serves is heard by the messenger that it has registered with: where its environment names
  -- that messenger, which was well-formed before, then after the node's requests the default topic
  -- is there, and holds one subscriber under the node's identifier, with the node's address; a message of
  -- the default topic that another identifier below 2^63 has signed is sent on to it, and its own are
  -- not.
  pub serving-Hears :
      {S : Type 0} (st : Registered) (others : World) (env : StartEnv) (kv : Kv S)
      (operator_json : Storage.Json Operator) (lib : OperatorLib) (table : Table)
      (pem_to_private_key : Bytes → Option Bytes) (opened s' : Option S) (n : Serving)
      (sent : List Request) (j : ℕ) (msg : Message)
      → new_messenger_client (messenger_addr_from_env env.messenger_srv_addr) ≡ addr
      → IsConsistent st.0
      → start
          (with_messenger web json st others)
          env
          kv
          operator_json
          lib
          table
          pem_to_private_key
          opened
        ≡ (ok n, s', sent)
      → j < i63
      → msg.topic ≡ default_topic
      → signer_of d msg.payload ≡ some j
      → Hears d n.params.operator_id j env.node_broadcast_addr msg (served web json st sent).0
  serving-Hears {S} st others env kv operator_json lib table pem_to_private_key opened s' n sent j
        msg at_addr v started j_small on signed =
      let (loaded, own, last) =
        start-ok (with_messenger web json st others) env kv operator_json lib table
          pem_to_private_key opened s' n sent started in
      let small : n.params.operator_id < i63 =
        omega (arith, load_from_env-lt pem_to_private_key env.node n.params loaded) in
      let id : Bytes = itoa (to_int n.params.operator_id) in
      let own_addr : Bytes =
        new_messenger_client (messenger_addr_from_env env.messenger_srv_addr) in
      let answer : with_messenger web json st others last.before
            (register_request addr id env.node_broadcast_addr)
          ≡ answered 200 last.body =
        subst
          (λ a.
            with_messenger web json st others last.before
              (register_request a id env.node_broadcast_addr)
            ≡ answered 200 last.body)
          at_addr last.answer in
      let hears =
        registered-Hears st others last.before n.params.operator_id j env.node_broadcast_addr
          last.body msg small j_small v on signed answer in
      subst
        (λ z. Hears d n.params.operator_id j env.node_broadcast_addr msg (served web json st z).0)
        (ap (λ a. last.before ++ register_request a id env.node_broadcast_addr ∷ []) (sym at_addr)
          ∙ sym last.all)
        hears
