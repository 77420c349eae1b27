-- ===== src/Service/Routes.antt =====
-- Where the requests of the clients go: the routes of cmd/messenger/main.go that they meet.
use rockx_dkg_cli.Messenger.Topics.{handle_create_topic}
use rockx_dkg_cli.Messenger.Publish.{
  handle_publish, handle_stream_dkg_blame, handle_stream_dkg_output, handle_get_data,
}
use rockx_dkg_cli.Messenger.Register.{Registered, handle_node_registration}
use rockx_dkg_cli.Net.{Payload}
use rockx_dkg_cli.Web.{route, Web, WebLaw, find_route, IsSegment, IsPlain, is_plain}
use rockx_dkg_cli.Prelude.{
  ◌≡◌, refl, inl, inr, false, none, some, ◌++◌, arith, if◌then◌else◌, Bool-cases, Bytes, codes,
  bytes_eq, true, All-append,
}
use rockx_dkg_cli.Web.Plain.{segment-IsPlain}
use rockx_dkg_cli.Service.{
  Json, set_routes, data_pattern, show_data, add_topic, join_node, take_message, take_output,
  take_blame, find_route, post, get, serve_http, dispatch, handle, method_of, Payload, body_of,
  Registered, answer_of, handle_stream_dkg_output, handle_stream_dkg_blame,
}

module _ (web : Web) (addr : Bytes) (law : WebLaw web addr) where
  -- The route of a POST, whose patterns have no parameter.
  posting_route :
      (p : Bytes)
      → find_route web set_routes post p ≡ (
          if bytes_eq (codes "/topics") p
          then some (route post (codes "/topics") add_topic)
          else if bytes_eq (codes "/register_node") p
          then some (route post (codes "/register_node") join_node)
          else if bytes_eq (codes "/publish") p
          then some (route post (codes "/publish") take_message)
          else if bytes_eq (codes "/stream/dkgoutput") p
          then some (route post (codes "/stream/dkgoutput") take_output)
          else if bytes_eq (codes "/stream/dkgblame") p
          then some (route post (codes "/stream/dkgblame") take_blame)
          else none)
  unfolding find_route
  posting_route p =
      rw
        (
          law.static_matches (codes "/topics") p (ground arith),
          law.static_matches (codes "/register_node") p (ground arith),
          law.static_matches (codes "/publish") p (ground arith),
          law.static_matches (codes "/stream/dkgoutput") p (ground arith),
          law.static_matches (codes "/stream/dkgblame") p (ground arith),
        )
        refl

  other_start :
      (p : Bytes) → web.matches (codes "/topics/:topic_name") (codes "/data/" ++ p) ≡ false
  other_start p =
      elim (Bool-cases (web.matches (codes "/topics/:topic_name") (codes "/data/" ++ p))) [
        | inr other ↦ other
        | inl fits ↦
            let (rest, e) =
              law.param_prefix (codes "/topics/") (codes "topic_name") (codes "/data/" ++ p)
                (ground arith) (ground arith) fits in
            ground (arith, e)
      ]

  data_route :
      (id : Bytes)
      → IsSegment id
      → find_route web set_routes get (codes "/data/" ++ id)
        ≡ some (route get data_pattern show_data)
  unfolding find_route bytes_eq
  data_route id segment =
      rw
        (
          law.static_matches (codes "/ping") (codes "/data/" ++ id) (ground arith),
          law.static_matches (codes "/metrics") (codes "/data/" ++ id) (ground arith),
          law.static_matches (codes "/topics") (codes "/data/" ++ id) (ground arith),
          other_start id,
          law.param_matches (codes "/data/") (codes "request_id") id (ground arith) (ground arith)
              segment,
        )
        refl

  data_path-IsPlain : (id : Bytes) → IsSegment id → IsPlain (codes "/data/" ++ id)
  data_path-IsPlain id segment =
      All-append (λ c. is_plain c ≡ true) (codes "/data/") id (ground arith)
        (segment-IsPlain id segment.1)

  module _ (json : Json) where
    -- GET /data/<id>
    pub serve_http-data :
        (id : Bytes) (st : Registered)
        → IsSegment id
        → serve_http web json (codes "/data/" ++ id) none st
          ≡ (st, answer_of json (handle_get_data id st.0))
    unfolding serve_http dispatch handle method_of body_of
    serve_http-data id st segment =
        rw
          (
            law.bare_path (codes "/data/" ++ id) (data_path-IsPlain id segment),
            data_route id segment,
            dispatch,
            handle,
            law.bare_path (codes "/data/" ++ id) (data_path-IsPlain id segment),
            law.param_value (codes "/data/") (codes "request_id") id (ground arith) (ground arith)
                segment,
          )
          refl

    -- POST /topics
    pub serve_http-topics :
        (p : Payload) (st : Registered)
        → let out = handle_create_topic (json.read_topic (body_of json (some p))) st.0 in
          serve_http web json (codes "/topics") (some p) st ≡ ((out.0, st.1), answer_of json out.1)
    unfolding serve_http dispatch handle method_of bytes_eq
    serve_http-topics p st =
        rw (law.bare_path (codes "/topics") (ground arith), posting_route (codes "/topics")) refl

    -- POST /register_node?subscribes_to=<topic>
    pub serve_http-register :
        (topic : Bytes) (p : Payload) (st : Registered)
        → IsPlain topic
        → let out =
            handle_node_registration topic (json.read_subscriber (body_of json (some p))) st in
          serve_http web json (codes "/register_node?subscribes_to=" ++ topic) (some p) st
          ≡ (out.0, answer_of json out.1)
    unfolding serve_http dispatch handle method_of bytes_eq
    serve_http-register topic p st plain =
        rw
          (
            law.query_path (codes "/register_node") (codes "subscribes_to") topic (ground arith)
                (ground arith) plain,
            posting_route (codes "/register_node"),
            law.query_value (codes "/register_node") (codes "subscribes_to") topic (ground arith)
                (ground arith) plain,
          )
          refl

    -- POST /stream/dkgoutput?request_id=<id>
    pub serve_http-stream_output :
        (id : Bytes) (p : Payload) (st : Registered)
        → IsPlain id
        → let out = handle_stream_dkg_output id (json.read_outputs (body_of json (some p))) st.0 in
          serve_http web json (codes "/stream/dkgoutput?request_id=" ++ id) (some p) st
          ≡ ((out.0, st.1), answer_of json out.1)
    unfolding serve_http dispatch handle method_of bytes_eq
    serve_http-stream_output id p st plain =
        rw
          (
            law.query_path (codes "/stream/dkgoutput") (codes "request_id") id (ground arith)
                (ground arith) plain,
            posting_route (codes "/stream/dkgoutput"),
            law.query_value (codes "/stream/dkgoutput") (codes "request_id") id (ground arith)
                (ground arith) plain,
          )
          refl

    -- POST /stream/dkgblame?request_id=<id>
    pub serve_http-stream_blame :
        (id : Bytes) (p : Payload) (st : Registered)
        → IsPlain id
        → let out = handle_stream_dkg_blame id (json.read_blame (body_of json (some p))) st.0 in
          serve_http web json (codes "/stream/dkgblame?request_id=" ++ id) (some p) st
          ≡ ((out.0, st.1), answer_of json out.1)
    unfolding serve_http dispatch handle method_of bytes_eq
    serve_http-stream_blame id p st plain =
        rw
          (
            law.query_path (codes "/stream/dkgblame") (codes "request_id") id (ground arith)
                (ground arith) plain,
            posting_route (codes "/stream/dkgblame"),
            law.query_value (codes "/stream/dkgblame") (codes "request_id") id (ground arith)
                (ground arith) plain,
          )
          refl

    -- POST /publish?topic_name=<topic>
    pub serve_http-publish :
        (topic : Bytes) (p : Payload) (st : Registered)
        → IsPlain topic
        → let out = handle_publish topic (some (body_of json (some p))) st.0 in
          serve_http web json (codes "/publish?topic_name=" ++ topic) (some p) st
          ≡ ((out.0, st.1), answer_of json out.1)
    unfolding serve_http dispatch handle method_of bytes_eq
    serve_http-publish topic p st plain =
        rw
          (
            law.query_path (codes "/publish") (codes "topic_name") topic (ground arith)
                (ground arith) plain,
            posting_route (codes "/publish"),
            law.query_value (codes "/publish") (codes "topic_name") topic (ground arith)
                (ground arith) plain,
          )
          refl
