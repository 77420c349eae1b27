-- ===== src/Service/Results.antt =====
-- Results on their way from a node to the tool: StreamDKGOutput and StreamDKGBlame of
-- internal/messenger/client.go, the messenger, and DKGResultByRequestID of internal/cli/server.go.
use rockx_dkg_cli.Messenger.State.{store_body}
use rockx_dkg_cli.Messenger.Incoming.{Decoders}
use rockx_dkg_cli.Cli.Results.{dkg_result_by_request_id, format_results, format_blame_results}
use rockx_dkg_cli.Messenger.Register.{Registered}
use rockx_dkg_cli.Web.Plain.{segment-IsPlain, encode-IsSegment}
use rockx_dkg_cli.Messenger.System.{System}
use rockx_dkg_cli.Messenger.System.Keeps.{Meanwhile, Meanwhile-store}
use rockx_dkg_cli.Net.{World, Request, ok}
use rockx_dkg_cli.Client.{request_id_of, stream_dkg_blame}
use rockx_dkg_cli.Dkg.{DataStore, SignedOutput, BlameOutput}
use rockx_dkg_cli.Go.Hex.{IsByte}
use rockx_dkg_cli.Cli.Data.{ParseStore}
use rockx_dkg_cli.Web.{Web, WebLaw, IsSegment}
use rockx_dkg_cli.Prelude.{
  ℕ, ◌≡◌, ◌≢◌, some, List, [], All, Bytes, GoMap, lookup, bytes_key, nat_key, ap, ◌∙◌,
}
use rockx_dkg_cli.Service.{Json, Web, SignedOutput, Registered, with_messenger, served, reply}
use rockx_dkg_cli.Go.Hex
use rockx_dkg_cli.Service.Stored.{fetch-stored, streamed_blame}

-- Every output of the map carries the identifier.
abbrev pub Carries : Bytes → GoMap ℕ SignedOutput → Type 0
Carries id outputs = All (λ p. (b : Bytes) → request_id_of b p.1 ≡ Hex.encode id) outputs

-- Two systems' messengers and runners, as the services of two clients.
abbrev pub service_of : System → Registered
service_of w = (w.messenger, w.runner)

module _ (web : Web) (json : Json) (addr : Bytes) (law : WebLaw web addr) (st : Registered)
    (others : World) (parse : ParseStore) (d : Decoders) (retry_key : Bytes → Bytes) where
  -- What was stored is shown later.
  shown_later :
      (id : Bytes) (s : DataStore) (w w' : System) (after : Registered)
      → IsSegment id
      → parse (json.page_text (reply (store_body s))) ≡ some (some s)
      → lookup id after.0.store ≡ some s
      → service_of w ≡ after
      → Meanwhile d retry_key id w w'
      → (dkg_result_by_request_id
          (with_messenger web json (service_of w') others)
          parse
          addr
          id
          []).0
        ≡ format_results s
  unfolding served
  shown_later id s w w' after segment reads kept same meanwhile =
      fetch-stored web json addr law (service_of w') others parse id s [] segment reads
        (Meanwhile-store d retry_key id meanwhile ∙ ap (λ z. lookup id z.0.store) same ∙ kept)

  -- At any state of the messenger, after any requests of a node: where the identifier of the blame that
  -- the node streams is not empty, and the messenger reads its JSON as a blame, the stream succeeds; and then,
  -- whatever steps the messenger takes except streams for the same identifier, the tool that asks for
  -- it shows that blame and no outputs, also where outputs were stored before.
  pub streamed_blame_shown :
      (text : Bytes) (blame read_back : BlameOutput) (sent : List Request) (w w' : System)
      → All IsByte blame.identifier
      → blame.identifier ≢ []
      → json.read_blame text ≡ some (some read_back)
      → parse (
          json.page_text
            (reply (store_body (record { dkg_outputs = []; blame_output = some read_back }))))
        ≡ some (some (record { dkg_outputs = []; blame_output = some read_back }))
      → service_of w
        ≡ served web json st
            (stream_dkg_blame (with_messenger web json st others) addr blame (some text) sent).1
      → Meanwhile d retry_key (Hex.encode blame.identifier) w w'
      → ((stream_dkg_blame (with_messenger web json st others) addr blame (some text) sent).0
          ≡ ok tt)
        × ((dkg_result_by_request_id
              (with_messenger web json (service_of w') others)
              parse
              addr
              (Hex.encode blame.identifier)
              []).0
            ≡ ok (record { outputs = []; blame = some read_back }))
  unfolding stream_dkg_blame format_results format_blame_results
  streamed_blame_shown text blame read_back sent w w' bytes filled read reads same meanwhile =
      let segment = encode-IsSegment blame.identifier bytes filled in
      let (sent', ran, kept) =
        streamed_blame web json addr law st others (Hex.encode blame.identifier) text read_back sent
          (segment-IsPlain _ segment.1) read in
      (
        ap (λ z. z.0) ran,
        shown_later (Hex.encode blame.identifier)
            (record { dkg_outputs = []; blame_output = some read_back }) w w'
            (served web json st sent') segment reads kept
            (same ∙ ap (λ z. served web json st z.1) ran) meanwhile,
      )
