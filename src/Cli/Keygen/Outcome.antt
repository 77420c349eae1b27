-- ===== src/Cli/Keygen/Outcome.antt =====
-- How a run of `keygen` ends.
use rockx_dkg_cli.Cli.Keygen.Plan.{handle_keygen-follow}
use rockx_dkg_cli.Net.Plan.{accepted, shown, follow_prefix, follow_all}
use rockx_dkg_cli.Client.{messenger_addr_from_env}
use rockx_dkg_cli.Cli.Sends.{topic_request, consume_plan}
use rockx_dkg_cli.Net.{World, Request, ok}
use rockx_dkg_cli.Cli.Keygen.{
  KeygenRequest, KeygenFlags, parse_keygen_request, init_msg_for_keygen, handle_keygen,
}
use rockx_dkg_cli.Cli.Spec.{Ranges, SsvSpec}
use rockx_dkg_cli.Prelude.{◌≡◌, ap, ◌∙◌, true, List, [], ◌∷◌, ◌++◌, Bytes, keys}
use rockx_dkg_cli.Go.Hex

abbrev pub keygen_plan : Ranges → Bytes → KeygenRequest → (request_id msg : Bytes) → List Request
keygen_plan ranges env_addr request request_id msg =
    topic_request (messenger_addr_from_env env_addr) (Hex.encode request_id)
      (keys (ranges 0 request.operators))
    ∷ consume_plan msg (ranges 2 request.operators)

module _ (spec : SsvSpec) (ranges : Ranges) (world : World) (env_addr : Bytes) where
  -- Where the request parses, its init message is encoded, and every request is answered with 200,
  -- `keygen` succeeds, and has made the request for the topic and one to each operator.
  pub handle_keygen-accepted :
      (flags : KeygenFlags) (request : KeygenRequest) (request_id msg : Bytes)
      → parse_keygen_request flags ≡ ok request
      → init_msg_for_keygen spec ranges request request_id ≡ ok msg
      → ((sent : List Request) (req : Request) → accepted (world sent req) ≡ true)
      → shown (handle_keygen spec ranges world env_addr flags request_id [])
        ≡ (true, keygen_plan ranges env_addr request request_id msg)
  handle_keygen-accepted flags request request_id msg parsed encoded granted =
      handle_keygen-follow spec ranges world env_addr flags request request_id msg parsed encoded
      ∙ follow_all world (keygen_plan ranges env_addr request request_id msg) [] granted

  -- Where the request parses and its init message is encoded, whatever the answers are, the requests of
  -- `keygen` are the first ones of its plan, the request for the topic and one to each operator: no
  -- operator is sent the message before the topic is requested.
  pub handle_keygen-prefix :
      (flags : KeygenFlags) (request : KeygenRequest) (request_id msg : Bytes)
      → parse_keygen_request flags ≡ ok request
      → init_msg_for_keygen spec ranges request request_id ≡ ok msg
      → (made left : List Request) × ((shown
            (handle_keygen spec ranges world env_addr flags request_id [])).1
          ≡ made)
        × (made ++ left ≡ keygen_plan ranges env_addr request request_id msg)
  handle_keygen-prefix flags request request_id msg parsed encoded =
      let plan = keygen_plan ranges env_addr request request_id msg in
      let (made, left, p, q) = follow_prefix world plan [] in
      (
        made,
        left,
        ap (λ z. z.1)
              (handle_keygen-follow spec ranges world env_addr flags request request_id msg parsed
                encoded)
            ∙ p,
        q,
      )
