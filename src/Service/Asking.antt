-- ===== src/Service/Asking.antt =====
-- The tool's requests at the messenger: handle_keygen.go with HandleCreateTopic.
use rockx_dkg_cli.Cli.Keygen.Plan.{handle_keygen-follow}
use rockx_dkg_cli.Messenger.Contract.Topics.{contains}
use rockx_dkg_cli.Messenger.Contract.Joins.{holds}
use rockx_dkg_cli.Messenger.Invariant.Defs.{IsConsistent}
use rockx_dkg_cli.Cli.Keygen.{
  KeygenFlags, KeygenRequest, parse_keygen_request, init_msg_for_keygen, handle_keygen,
}
use rockx_dkg_cli.Go.Strconv.{i63, itoa, to_int}
use rockx_dkg_cli.Messenger.Incoming.{Decoders, signer_of, targets}
use rockx_dkg_cli.Service.Routes.{serve_http-topics}
use rockx_dkg_cli.Service.Clients.{with_messenger-served, topics_target}
use rockx_dkg_cli.Client.{subscriber_names, messenger_addr_from_env}
use rockx_dkg_cli.Messenger.State.{
  Messenger, default_topic, Body, respond, topic_at, Message, subscriber_at,
}
use rockx_dkg_cli.Messenger.Register.{Registered}
use rockx_dkg_cli.Net.{Request, World, topic_json, answered, ok, Result}
use rockx_dkg_cli.Cli.Spec.{consume_url, SsvSpec, Ranges}
use rockx_dkg_cli.Messenger.Topics.{
  handle_create_topic, enlist_all, created, install, TopicJson, enlist, Enlisted,
}
use rockx_dkg_cli.Web.{Web, WebLaw}
use rockx_dkg_cli.Prelude.{
  ℕ, ◌≡◌, refl, ap, ◌∙◌, true, none, some, List, [], ◌∷◌, ◌++◌, append_assoc, append-nil, arith,
  All, Bytes, codes, GoMap, lookup, bytes_key, nat_key, ◌<◌, sym, subst, not, ◌==◌, keys,
}
use rockx_dkg_cli.Service.{
  Json, serve_http, handle_create_topic, Web, Request, Registered, served, reached, JsonLaw,
  with_messenger, body_of, reply, answer_of,
}
use rockx_dkg_cli.Cli.Sends.{topic_request, consume_plan}
use rockx_dkg_cli.Net.Plan.{follow, accepted, is_ok, shown}
use rockx_dkg_cli.Messenger.Contract.Requests.{with_topic, default_found, topic_hears}
use rockx_dkg_cli.Go.Hex

install-respond :
    (name : Bytes) (m : Messenger) (e : Enlisted)
    → (b : Body) × ((install name m e).1 ≡ respond 200 b)
unfolding install
install-respond name m (h, subs) = (_, refl)

-- Where the default topic is there, a topic is created.
create-respond :
    (body : TopicJson) (m : Messenger) (t : ℕ)
    → lookup default_topic m.topics ≡ some t
    → (b : Body) × ((handle_create_topic (some body) m).1 ≡ respond 200 b)
unfolding handle_create_topic enlist_all created
create-respond body m t found =
    let (b, good) = install-respond body.topic_name m (
      enlist (topic_at m t) body.topic_name m.topic_heap.next body.subscribers
        (m.subscriber_heap, [])) in
    (b, rw (handle_create_topic, default_found m t found) good)

module _ (web : Web) (json : Json) where
  -- Requests that go to other servers.
  abbrev pub Elsewhere : List Request → Type 0
  Elsewhere plan = All (λ r. web.target_of r.url ≡ none) plan

  consume-Elsewhere :
      (msg : Bytes) (ops : GoMap ℕ Bytes)
      → All (λ p. web.target_of (consume_url p.1) ≡ none) ops
      → Elsewhere (consume_plan msg ops)
  consume-Elsewhere msg [] h = tt
  consume-Elsewhere msg ((i, addr) ∷ ops) (h, hs) = (h, consume-Elsewhere msg ops hs)

  served-Elsewhere :
      (plan : List Request) (st : Registered) → Elsewhere plan → served web json st plan ≡ st
  unfolding served reached
  served-Elsewhere [] st h = refl
  served-Elsewhere (r ∷ plan) st (h, hs) = rw h (served-Elsewhere plan st hs)

  module _ (st : Registered) (others : World)
      (all_accept : (sent : List Request) (req : Request) → accepted (others sent req) ≡ true) where
    follow-Elsewhere :
        (plan sent : List Request)
        → Elsewhere plan
        → follow (with_messenger web json st others) plan sent ≡ (true, sent ++ plan)
    unfolding follow with_messenger
    follow-Elsewhere [] sent h = ground (arith, append-nil sent)
    follow-Elsewhere (req ∷ plan) sent (h, hs) =
        rw (h, all_accept sent req)
          (follow-Elsewhere plan (sent ++ req ∷ []) hs
            ∙ ap (λ z. (true, z)) (append_assoc sent (req ∷ []) plan))

    module _ (json_law : JsonLaw json) (addr : Bytes) (law : WebLaw web addr) where
      -- A plan that posts a topic first, and then goes to other servers.
      topic_plan :
          (name : Bytes) (ids : List ℕ) (plan : List Request) (t : ℕ)
          → lookup default_topic st.0.topics ≡ some t
          → Elsewhere plan
          → (follow (with_messenger web json st others) (topic_request addr name ids ∷ plan) []
              ≡ (true, topic_request addr name ids ∷ plan))
            × ((served web json st (topic_request addr name ids ∷ plan)).0
                ≡ with_topic name ids st.0)
      unfolding follow body_of served
      topic_plan name ids plan t found h =
          let body : TopicJson = record { topic_name = name; subscribers = subscriber_names ids } in
          let req : Request = topic_request addr name ids in
          let (b, good) = create-respond body st.0 t found in
          let (answer, later) =
            with_messenger-served web json st others req (codes "/topics") []
              (topics_target web json addr law) in
          let page : serve_http web json (codes "/topics")
                (some (topic_json name (subscriber_names ids))) st
              ≡ ((with_topic name ids st.0, st.1), answered 200 (json.page_text (reply b))) =
            serve_http-topics web addr law json (topic_json name (subscriber_names ids)) st
            ∙ rw (json_law.topic_read name (subscriber_names ids))
                (ap (λ z. ((with_topic name ids st.0, st.1), answer_of json z)) good) in
          (
            rw (answer ∙ ap (λ z. z.1) page) (follow-Elsewhere plan (req ∷ []) h),
            ap (λ (z : Registered). z.0) (served-Elsewhere plan _ h ∙ later ∙ ap (λ z. z.0) page),
          )

module _ (web : Web) (json : Json) (json_law : JsonLaw json) (env_addr : Bytes)
    (law : WebLaw web (messenger_addr_from_env env_addr)) (st : Registered) (others : World)
    (all_accept : (sent : List Request) (req : Request) → accepted (others sent req) ≡ true)
    (d : Decoders) where
  -- A program that posts a topic for some operators, and then only requests to other servers.
  asked_hears {ℓ} :
      {A : Type ℓ} (run : Result A × List Request) (name : Bytes) (ids : List ℕ)
      (plan : List Request) (i j s t : ℕ) (msg : Message)
      → i < i63
      → j < i63
      → IsConsistent st.0
      → lookup default_topic st.0.topics ≡ some t
      → lookup (itoa (to_int i)) (topic_at st.0 t).subscribers ≡ some s
      → holds ids i ≡ true
      → msg.topic ≡ name
      → signer_of d msg.payload ≡ some j
      → Elsewhere web json plan
      → shown run
        ≡ follow
            (with_messenger web json st others)
            (topic_request (messenger_addr_from_env env_addr) name ids ∷ plan)
            []
      → let m = (served web json st run.1).0 in
        (is_ok run.0 ≡ true)
        × (holds (targets d m msg) s ≡ not (i == j))
        × All
            (λ x. contains (subscriber_names ids) (subscriber_at m x).name ≡ true)
            (targets d m msg)
  asked_hears run name ids plan i j s t msg i_small j_small v found known member on signed h e =
      let (ran, made) =
        topic_plan web json st others all_accept json_law (messenger_addr_from_env env_addr) law
          name ids plan t found h in
      let shows = e ∙ ran in
      let (reach, listed) =
        topic_hears d name ids i j s t st.0 msg i_small j_small v found known member on signed in
      let after : (served web json st run.1).0 ≡ with_topic name ids st.0 =
        ap (λ z. (served web json st z.1).0) shows ∙ made in
      (
        ap (λ z. z.0) shows,
        subst (λ (m : Messenger). holds (targets d m msg) s ≡ not (i == j)) (sym after) reach,
        subst
            (λ (m : Messenger).
              All (λ x. contains (subscriber_names ids) (subscriber_at m x).name ≡ true)
                (targets d m msg))
            (sym after) listed,
      )

  -- `keygen` at a well-formed messenger that has the default topic, where the flags parse, the message
  -- is encoded, no operator's URL is the messenger's, and every other server answers with 200: it succeeds; and
  -- after it a message under the text of its identifier that an operator below 2^63 has signed is
  -- sent on to each operator of the request below 2^63 that is registered, except the signer, and to
  -- nobody who is not among the request's operators.
  pub keygen_hears :
      (spec : SsvSpec) (ranges : Ranges) (flags : KeygenFlags) (request : KeygenRequest)
      (request_id init_msg : Bytes) (i j s t : ℕ) (msg : Message)
      → parse_keygen_request flags ≡ ok request
      → init_msg_for_keygen spec ranges request request_id ≡ ok init_msg
      → All (λ p. web.target_of (consume_url p.1) ≡ none) (ranges 2 request.operators)
      → i < i63
      → j < i63
      → IsConsistent st.0
      → lookup default_topic st.0.topics ≡ some t
      → lookup (itoa (to_int i)) (topic_at st.0 t).subscribers ≡ some s
      → holds (keys (ranges 0 request.operators)) i ≡ true
      → msg.topic ≡ Hex.encode request_id
      → signer_of d msg.payload ≡ some j
      → let run =
          handle_keygen spec ranges
            (with_messenger web json st others)
            env_addr
            flags
            request_id
            [] in
        let m = (served web json st run.1).0 in
        (is_ok run.0 ≡ true)
        × (holds (targets d m msg) s ≡ not (i == j))
        × All
            (λ x.
              contains
                (subscriber_names (keys (ranges 0 request.operators)))
                (subscriber_at m x).name
              ≡ true)
            (targets d m msg)
  keygen_hears spec ranges flags request request_id init_msg i j s t msg parsed encoded away i_small
        j_small v found known member on signed =
      asked_hears
        (handle_keygen spec ranges (with_messenger web json st others) env_addr flags request_id [])
        (Hex.encode request_id) (keys (ranges 0 request.operators))
        (consume_plan init_msg (ranges 2 request.operators)) i j s t msg i_small j_small v found
        known member on signed
        (consume-Elsewhere web json init_msg (ranges 2 request.operators) away)
        (handle_keygen-follow spec ranges (with_messenger web json st others) env_addr flags request
          request_id init_msg parsed encoded)
