-- ===== src/Service/Stored.antt =====
-- Results in the messenger's store: the stream handlers and GET /data of
-- internal/messenger/dkg_network_handlers.go, as the clients' requests meet them.
use rockx_dkg_cli.Messenger.Publish.{
  handle_get_data, handle_stream_dkg_output, handle_stream_dkg_blame,
}
use rockx_dkg_cli.Service.Routes.{
  serve_http-data, serve_http-stream_output, serve_http-stream_blame,
}
use rockx_dkg_cli.Service.Clients.{with_messenger-served, data_target, stream_target, posted}
use rockx_dkg_cli.Cli.Results.{
  dkg_result_by_request_id, format_results, results_of_answer, read_results,
}
use rockx_dkg_cli.Messenger.State.{store_body, Messenger, empty}
use rockx_dkg_cli.Messenger.Register.{Registered}
use rockx_dkg_cli.Net.{World, ask, Request, results_json, ok, answered, blame_json}
use rockx_dkg_cli.Client.{stream}
use rockx_dkg_cli.Dkg.{DataStore, SignedOutput, BlameOutput}
use rockx_dkg_cli.Cli.Data.{ParseStore}
use rockx_dkg_cli.Web.{Web, WebLaw, IsSegment, IsPlain}
use rockx_dkg_cli.Prelude.{
  ℕ, ◌≡◌, refl, Option, none, some, List, [], ◌++◌, Bytes, codes, GoMap, lookup, bytes_key, nat_key,
  ap, ◌∙◌, insert, beq_refl, lookup-insert,
}
use rockx_dkg_cli.Service.{
  Json, Web, SignedOutput, reply, Registered, with_messenger, served, answer_of, body_of,
  handle_stream_dkg_output, serve_http,
}

module _ (web : Web) (json : Json) (addr : Bytes) (law : WebLaw web addr) (st : Registered)
    (others : World) where
  -- A stream of outputs is accepted, and stored.
  pub streamed_output :
      (id text : Bytes) (outputs : GoMap ℕ (Option SignedOutput)) (sent : List Request)
      → IsPlain id
      → json.read_outputs text ≡ some outputs
      → (sent' : List Request) × (stream
            (with_messenger web json st others)
            addr
            (codes "dkgoutput")
            id
            (results_json text)
            sent
          ≡ (ok tt, sent'))
        × (lookup id (served web json st sent').0.store
            ≡ some (record { dkg_outputs = outputs; blame_output = none }))
  unfolding stream body_of handle_stream_dkg_output
  streamed_output id text outputs sent plain read =
      let before : Registered = served web json st sent in
      let d : DataStore = record { dkg_outputs = outputs; blame_output = none } in
      let after : Registered = (record before.0 { store = insert id d before.0.store }, before.1) in
      let page : serve_http web json (codes "/stream/dkgoutput?request_id=" ++ id)
            (some (results_json text)) before
          ≡ (after, answered 200 (json.page_text (reply empty))) =
        serve_http-stream_output web addr law json id (results_json text) before plain
        ∙ rw read refl in
      let (sent', kept) =
        posted web json st others _ (codes "/stream/dkgoutput?request_id=" ++ id) _
          (results_json text) sent after (stream_target web json addr law (codes "dkgoutput") id)
          page in
      (
        _,
        sent',
        ap (λ z. lookup id z.0.store) kept
            ∙ (lookup-insert id id d before.0.store ∙ rw (beq_refl id) refl),
      )

  -- A stream of a blame is accepted, and stored.
  pub streamed_blame :
      (id text : Bytes) (blame : BlameOutput) (sent : List Request)
      → IsPlain id
      → json.read_blame text ≡ some (some blame)
      → (sent' : List Request) × (stream
            (with_messenger web json st others)
            addr
            (codes "dkgblame")
            id
            (blame_json text)
            sent
          ≡ (ok tt, sent'))
        × (lookup id (served web json st sent').0.store
            ≡ some (record { dkg_outputs = []; blame_output = some blame }))
  unfolding stream body_of handle_stream_dkg_blame
  streamed_blame id text blame sent plain read =
      let before : Registered = served web json st sent in
      let d : DataStore = record { dkg_outputs = []; blame_output = some blame } in
      let after : Registered = (record before.0 { store = insert id d before.0.store }, before.1) in
      let page : serve_http web json (codes "/stream/dkgblame?request_id=" ++ id)
            (some (blame_json text)) before
          ≡ (after, answered 200 (json.page_text (reply empty))) =
        serve_http-stream_blame web addr law json id (blame_json text) before plain
        ∙ rw read refl in
      let (sent', kept) =
        posted web json st others _ (codes "/stream/dkgblame?request_id=" ++ id) _ (blame_json text)
          sent after (stream_target web json addr law (codes "dkgblame") id) page in
      (
        _,
        sent',
        ap (λ z. lookup id z.0.store) kept
            ∙ (lookup-insert id id d before.0.store ∙ rw (beq_refl id) refl),
      )

module _ (web : Web) (json : Json) (addr : Bytes) (law : WebLaw web addr) (st : Registered)
    (others : World) (parse : ParseStore) where
  read_page :
      (id : Bytes) (m : Messenger) (s : DataStore)
      → parse (json.page_text (reply (store_body s))) ≡ some (some s)
      → lookup id m.store ≡ some s
      → results_of_answer parse (answer_of json (handle_get_data id m)) ≡ format_results s
  unfolding handle_get_data results_of_answer read_results
  read_page id m s reads e = rw (handle_get_data, e) (rw reads refl)

  -- The tool's request shows what the messenger has stored.
  pub fetch-stored :
      (id : Bytes) (s : DataStore) (sent : List Request)
      → IsSegment id
      → parse (json.page_text (reply (store_body s))) ≡ some (some s)
      → lookup id (served web json st sent).0.store ≡ some s
      → (dkg_result_by_request_id (with_messenger web json st others) parse addr id sent).0
        ≡ format_results s
  unfolding dkg_result_by_request_id ask
  fetch-stored id s sent segment reads e =
      let (answer, later) =
        with_messenger-served web json st others
          (record { url = addr ++ codes "/data/" ++ id; payload = none }) (codes "/data/" ++ id)
          sent (data_target web json addr law id) in
      let page = serve_http-data web addr law json id (served web json st sent) segment in
      ap (results_of_answer parse) (answer ∙ ap (λ z. z.1) page)
      ∙ read_page id (served web json st sent).0 s reads e
