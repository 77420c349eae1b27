-- ===== src/Service.antt =====
-- The messenger as an HTTP server: setRoutes of cmd/messenger/main.go, HandlePing of
-- internal/ping/ping.go, and the requests of the messenger's clients as it serves them.
pub mod Routes
pub mod Clients
pub mod Stored
pub mod Results
pub mod Sound
pub mod Joining
pub mod Asking
pub mod Broadcast
pub mod Tests
use rockx_dkg_cli.Dkg.{SignedOutput, BlameOutput}
use rockx_dkg_cli.Prelude.{ℕ, ◌≡◌, Option, none, some, List, [], ◌∷◌, Bytes, codes, GoMap}
use rockx_dkg_cli.Messenger.Topics
use rockx_dkg_cli.Messenger.Topics.{
  delete_topic, TopicJson, handle_create_topic, get_topics, get_topic,
}
use rockx_dkg_cli.Messenger.Register.{SubscriberJson, Registered, handle_node_registration}
use rockx_dkg_cli.Messenger.Publish.{
  handle_publish, handle_get_data, handle_stream_dkg_output, handle_stream_dkg_blame,
}
use rockx_dkg_cli.Messenger.State.{Body, Reply, respond, panics}
use rockx_dkg_cli.Net.{
  World, Request, Answer, answered, Payload, raw, topic_json, subscriber_json, results_json,
  blame_json,
}
use rockx_dkg_cli.Web.{Web, Route, Method, get, post, delete, find_route, route}

-- The handlers of the routes. `metrics` is promhttp's.
pub data Endpoint : Type 0 where
  ping metrics version list_topics add_topic show_topic drop_topic : Endpoint
  join_node take_message take_output take_blame show_data : Endpoint

abbrev topic_pattern : Bytes
topic_pattern = codes "/topics/:topic_name"

abbrev pub data_pattern : Bytes
data_pattern = codes "/data/:request_id"

abbrev pub set_routes : List (Route Endpoint)
set_routes =
    route get (codes "/ping") ping
    ∷ route get (codes "/metrics") metrics
    ∷ route get (codes "/topics") list_topics
    ∷ route post (codes "/topics") add_topic
    ∷ route get topic_pattern show_topic
    ∷ route delete topic_pattern drop_topic
    ∷ route post (codes "/register_node") join_node
    ∷ route post (codes "/publish") take_message
    ∷ route post (codes "/stream/dkgoutput") take_output
    ∷ route post (codes "/stream/dkgblame") take_blame
    ∷ route get data_pattern show_data
    ∷ route get (codes "/version") version
    ∷ []

-- What a page shows, besides the bodies of the messenger's own handlers.
pub data Page : Type 0 where
  reply : Body → Page
  pong metrics_page version_page : Page

-- encoding/json: the texts of what is posted, what is read from a text, and the texts of pages.
pub record Json : Type 0 where
  pub topic_text : Bytes → List Bytes → Bytes
  pub subscriber_text : Bytes → Bytes → Bytes
  pub read_topic : Bytes → Option TopicJson
  pub read_subscriber : Bytes → Option SubscriberJson
  pub read_outputs : Bytes → Option (GoMap ℕ (Option SignedOutput))
  pub read_blame : Bytes → Option (Option BlameOutput)
  pub page_text : Page → Bytes

-- json.Unmarshal reads back what json.Marshal has written.
pub record JsonLaw (json : Json) : Type 0 where
  pub topic_read :
      (n : Bytes) (ss : List Bytes)
      → json.read_topic (json.topic_text n ss) ≡ some (record { topic_name = n; subscribers = ss })
  pub subscriber_read :
      (n addr : Bytes)
      → json.read_subscriber (json.subscriber_text n addr)
        ≡ some (record { name = n; srv_addr = addr })

-- The bytes of a request's body. A GET has none.
unfoldable pub body_of : Json → Option Payload → Bytes
body_of json none = []
body_of json (some (raw bytes)) = bytes
body_of json (some (topic_json n ss)) = json.topic_text n ss
body_of json (some (subscriber_json n addr)) = json.subscriber_text n addr
body_of json (some (results_json text)) = text
body_of json (some (blame_json text)) = text

-- The clients make GET and POST requests only.
unfoldable pub method_of : Option Payload → Method
method_of none = get
method_of (some p) = post

-- gin.Default recovers from a panic and answers 500.
abbrev pub answer_of : Json → Reply → Answer
answer_of json (respond code body) = answered code (json.page_text (reply body))
answer_of json panics = answered 500 []

abbrev pub page : Json → Page → Answer
page json p = answered 200 (json.page_text p)

module _ (web : Web) (json : Json) where
  -- The handler of a route, with what it reads from the target and the body. The send of `publish`
  -- waits for room in the channel, and AddJob for room in the runner's.
  unfoldable pub handle : Route Endpoint → (target body : Bytes) → Registered → Registered × Answer
  handle r target body (m, runner) =
      let arg : Bytes = web.param r.pattern (web.path_of target) in
      let id : Bytes = web.query target (codes "request_id") in
      elim r.endpoint [
        | ping ↦ ((m, runner), page json pong)
        | metrics ↦ ((m, runner), page json metrics_page)
        | version ↦ ((m, runner), page json version_page)
        | list_topics ↦ ((m, runner), answer_of json (get_topics m))
        | add_topic ↦
            let out = handle_create_topic (json.read_topic body) m in
            ((out.0, runner), answer_of json out.1)
        | show_topic ↦ ((m, runner), answer_of json (get_topic arg m))
        | drop_topic ↦ let out = delete_topic arg m in ((out.0, runner), answer_of json out.1)
        | join_node ↦
            let out =
              handle_node_registration (web.query target (codes "subscribes_to"))
                (json.read_subscriber body) (m, runner) in
            (out.0, answer_of json out.1)
        | take_message ↦
            let out = handle_publish (web.query target (codes "topic_name")) (some body) m in
            ((out.0, runner), answer_of json out.1)
        | take_output ↦
            let out = handle_stream_dkg_output id (json.read_outputs body) m in
            ((out.0, runner), answer_of json out.1)
        | take_blame ↦
            let out = handle_stream_dkg_blame id (json.read_blame body) m in
            ((out.0, runner), answer_of json out.1)
        | show_data ↦ ((m, runner), answer_of json (handle_get_data arg m))
      ]

  -- gin answers 404 where no route fits.
  unfoldable pub dispatch :
      Option (Route Endpoint) → (target body : Bytes) → Registered → Registered × Answer
  dispatch none target body st = (st, answered 404 [])
  dispatch (some r) target body st = handle r target body st

  -- A request that is delivered to this server.
  unfoldable pub serve_http : (target : Bytes) → Option Payload → Registered → Registered × Answer
  serve_http target payload st =
      dispatch (find_route web set_routes (method_of payload) (web.path_of target)) target
        (body_of json payload) st

  -- The requests for other servers do not reach it.
  unfoldable pub reached : Option Bytes → Option Payload → Registered → Registered
  reached none payload st = st
  reached (some target) payload st = (serve_http target payload st).0

  -- The messenger after some requests of one client.
  unfoldable pub served : Registered → List Request → Registered
  served st [] = st
  served st (req ∷ reqs) = served (reached (web.target_of req.url) req.payload st) reqs

  abbrev reply_of : Option Bytes → Answer → Option Payload → Registered → Answer
  reply_of none other payload st = other
  reply_of (some target) other payload st = (serve_http target payload st).1

  -- The world of a client: this messenger, and the other servers.
  unfoldable pub with_messenger : Registered → (others : World) → World
  with_messenger st others sent req =
      reply_of (web.target_of req.url) (others sent req) req.payload (served st sent)
