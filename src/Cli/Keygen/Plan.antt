-- ===== src/Cli/Keygen/Plan.antt =====
-- The requests of `keygen`.
use rockx_dkg_cli.Cli.Sends.{topic_request, consume_plan, client_addr, send_all-follow}
use rockx_dkg_cli.Net.{◌>>=◌}
use rockx_dkg_cli.Client.{create_topic, subscriber_names, messenger_addr_from_env}
use rockx_dkg_cli.Net.Plan.{follow, shown, follow-post}
use rockx_dkg_cli.Net.{topic_json, World, ok, Exec, lift}
use rockx_dkg_cli.Cli.Keygen.{
  handle_keygen, run_keygen, all_operators, KeygenFlags, KeygenRequest, parse_keygen_request,
  init_msg_for_keygen,
}
use rockx_dkg_cli.Cli.Spec.{send_all, SsvSpec, Ranges}
use rockx_dkg_cli.Prelude.{◌≡◌, [], ◌∷◌, ◌++◌, Bytes, codes, keys}
use rockx_dkg_cli.Go.Hex

-- Where the request parses and its init message is encoded, `keygen` posts the topic to the
-- messenger first, then the one message to each operator in the order of its range; it stops at the
-- first request that is not answered with 200, and succeeds if there is none.
pub handle_keygen-follow :
    (spec : SsvSpec) (ranges : Ranges) (world : World) (env_addr : Bytes) (flags : KeygenFlags)
    (request : KeygenRequest) (request_id msg : Bytes)
    → parse_keygen_request flags ≡ ok request
    → init_msg_for_keygen spec ranges request request_id ≡ ok msg
    → shown (handle_keygen spec ranges world env_addr flags request_id [])
      ≡ follow world
          (topic_request
              (messenger_addr_from_env env_addr)
              (Hex.encode request_id)
              (keys (ranges 0 request.operators))
            ∷ consume_plan msg (ranges 2 request.operators))
          []
unfolding handle_keygen run_keygen create_topic all_operators
handle_keygen-follow spec ranges world env_addr flags request request_id msg parsed encoded =
    let after_topic : Exec (Unit {0}) =
      lift (init_msg_for_keygen spec ranges request request_id) >>= λ m.
      send_all world (ranges 2 request.operators) m in
    rw (parsed, client_addr env_addr)
      (follow-post world (messenger_addr_from_env env_addr ++ codes "/topics")
        (topic_json (Hex.encode request_id) (subscriber_names (keys (ranges 0 request.operators))))
        after_topic (consume_plan msg (ranges 2 request.operators)) []
        (λ s. rw encoded (send_all-follow world (ranges 2 request.operators) msg s)))
