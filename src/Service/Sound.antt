-- ===== src/Service/Sound.antt =====
-- Whatever requests the messenger serves, its state stays well-formed.
use rockx_dkg_cli.Messenger.Invariant.Register.{registration-IsConsistent}
use rockx_dkg_cli.Messenger.Invariant.Publish.{
  delete-IsConsistent, handle_publish-IsConsistent, stream_output-IsConsistent,
  stream_blame-IsConsistent,
}
use rockx_dkg_cli.Messenger.Invariant.Topics.{create-IsConsistent}
use rockx_dkg_cli.Messenger.Register.{Registered}
use rockx_dkg_cli.Net.{Request, Payload}
use rockx_dkg_cli.Web.{Web, Method, Route, find_route}
use rockx_dkg_cli.Prelude.{Option, none, some, List, [], ◌∷◌, Bytes, codes}
use rockx_dkg_cli.Messenger.Invariant.Defs.{IsConsistent}
use rockx_dkg_cli.Service.{
  Json, Endpoint, ping, metrics, version, Web, served, dispatch, reached, handle, Request,
  serve_http, Method, Route, Registered, find_route, set_routes, method_of, body_of, list_topics,
  add_topic, show_topic, drop_topic, join_node, take_message, take_output, take_blame, show_data,
}

module _ (web : Web) (json : Json) where
  handle-IsConsistent :
      (e : Endpoint) (pattern target body : Bytes) (method : Method) (st : Registered)
      → IsConsistent st.0
      → IsConsistent
          (handle web json
            (record { method = method; pattern = pattern; endpoint = e })
            target
            body
            st).0.0
  unfolding handle
  handle-IsConsistent ping p t b k (m, r) v = v
  handle-IsConsistent metrics p t b k (m, r) v = v
  handle-IsConsistent version p t b k (m, r) v = v
  handle-IsConsistent list_topics p t b k (m, r) v = v
  handle-IsConsistent add_topic p t b k (m, r) v = create-IsConsistent (json.read_topic b) m v
  handle-IsConsistent show_topic p t b k (m, r) v = v
  handle-IsConsistent drop_topic p t b k (m, r) v =
      delete-IsConsistent (web.param p (web.path_of t)) m v
  handle-IsConsistent join_node p t b k (m, r) v =
      registration-IsConsistent (web.query t (codes "subscribes_to")) (json.read_subscriber b) m r v
  handle-IsConsistent take_message p t b k (m, r) v =
      handle_publish-IsConsistent (web.query t (codes "topic_name")) (some b) m v
  handle-IsConsistent take_output p t b k (m, r) v =
      stream_output-IsConsistent (web.query t (codes "request_id")) (json.read_outputs b) m v
  handle-IsConsistent take_blame p t b k (m, r) v =
      stream_blame-IsConsistent (web.query t (codes "request_id")) (json.read_blame b) m v
  handle-IsConsistent show_data p t b k (m, r) v = v

  dispatch-IsConsistent :
      (found : Option (Route Endpoint)) (target body : Bytes) (st : Registered)
      → IsConsistent st.0
      → IsConsistent (dispatch web json found target body st).0.0
  unfolding dispatch
  dispatch-IsConsistent none t b st v = v
  dispatch-IsConsistent (some r) t b st v =
      handle-IsConsistent r.endpoint r.pattern t b r.method st v

  reached-IsConsistent :
      (target : Option Bytes) (payload : Option Payload) (st : Registered)
      → IsConsistent st.0
      → IsConsistent (reached web json target payload st).0
  unfolding reached serve_http
  reached-IsConsistent none payload st v = v
  reached-IsConsistent (some target) payload st v =
      dispatch-IsConsistent (find_route web set_routes (method_of payload) (web.path_of target))
        target (body_of json payload) st v

  pub served-IsConsistent :
      (sent : List Request) (st : Registered)
      → IsConsistent st.0
      → IsConsistent (served web json st sent).0
  unfolding served
  served-IsConsistent [] st v = v
  served-IsConsistent (req ∷ sent) st v =
      served-IsConsistent sent _ (reached-IsConsistent (web.target_of req.url) req.payload st v)
