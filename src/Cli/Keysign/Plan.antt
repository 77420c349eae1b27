-- ===== src/Cli/Keysign/Plan.antt =====
-- The requests of GenerateSignature.
use rockx_dkg_cli.Cli.Sends.{topic_request, consume_plan, send_all-follow, client_addr}
use rockx_dkg_cli.Cli.Operators.{parse_operator_list}
use rockx_dkg_cli.Client.{
  create_topic, messenger_addr_from_env, subscriber_names, new_messenger_client,
}
use rockx_dkg_cli.Net.Plan.{follow, shown, follow-post}
use rockx_dkg_cli.Net.{
  ◌>>=◌, pure, World, Request, ok, topic_json, Result, after, err, panics, after-ok, ok-injective,
}
use rockx_dkg_cli.Cli.Spec.{send_all, SsvSpec, Ranges}
use rockx_dkg_cli.Cli.Keysign.{generate_signature, sign_with, init_msg_for_keysign}
use rockx_dkg_cli.Prelude.{ℕ, ◌≡◌, List, [], ◌∷◌, ◌++◌, Bytes, codes, GoMap, keys, refl, ◌∙◌, sym}
use rockx_dkg_cli.Go.Hex

shown-then :
    (id : Bytes) (r : Result (Unit {0})) (sent : List Request)
    → shown (after (λ _. pure id) r sent) ≡ shown (r, sent)
shown-then id (ok t) sent = refl
shown-then id (err e) sent = refl
shown-then id panics sent = refl

send_then-follow :
    (world : World) (id : Bytes) (ops : GoMap ℕ Bytes) (msg : Bytes) (sent : List Request)
    → shown ((send_all world ops msg >>= λ _. pure id) sent)
      ≡ follow world (consume_plan msg ops) sent
send_then-follow world id ops msg sent =
    let r = send_all world ops msg sent in
    shown-then id r.0 r.1 ∙ send_all-follow world ops msg sent

-- Where the message is encoded and the operators parse, GenerateSignature posts the topic to the
-- messenger first, then the one message to each operator in the order of its range; it stops at the
-- first request that is not answered with 200, and succeeds if there is none.
pub generate_signature-follow :
    (spec : SsvSpec) (ranges : Ranges) (world : World) (env_addr : Bytes) (flags : List Bytes)
    (vk signing_root request_id msg : Bytes) (operators : GoMap ℕ Bytes)
    → init_msg_for_keysign spec ranges request_id (spec.key_sign vk signing_root) ≡ ok msg
    → parse_operator_list flags ≡ ok operators
    → shown (generate_signature spec ranges world env_addr flags vk signing_root request_id [])
      ≡ follow world
          (topic_request
              (messenger_addr_from_env env_addr)
              (Hex.encode request_id)
              (keys (ranges 0 operators))
            ∷ consume_plan msg (ranges 1 operators))
          []
unfolding generate_signature sign_with create_topic
generate_signature-follow spec ranges world env_addr flags vk signing_root request_id msg operators
      encoded parsed =
    rw (encoded, parsed, client_addr env_addr)
      (follow-post world (messenger_addr_from_env env_addr ++ codes "/topics")
        (topic_json (Hex.encode request_id) (subscriber_names (keys (ranges 0 operators))))
        (send_all world (ranges 1 operators) msg >>= λ _. pure request_id)
        (consume_plan msg (ranges 1 operators)) []
        (send_then-follow world request_id (ranges 1 operators) msg))

-- A request for signatures that succeeds keeps its identifier.
pub generate_signature-ok :
    (spec : SsvSpec) (ranges : Ranges) (world : World) (env_addr : Bytes) (flags : List Bytes)
    (vk root id id2 : Bytes) (sent : List Request)
    → (generate_signature spec ranges world env_addr flags vk root id sent).0 ≡ ok id2
    → id2 ≡ id
unfolding generate_signature sign_with
generate_signature-ok spec ranges world env_addr flags vk root id id2 sent h =
    let (msg, p, h1) =
      after-ok _ (init_msg_for_keysign spec ranges id (spec.key_sign vk root)) sent id2 h in
    let (operators, q, h2) = after-ok _ (parse_operator_list flags) sent id2 h1 in
    let created =
      create_topic world (new_messenger_client (messenger_addr_from_env env_addr)) (Hex.encode id)
        (keys (ranges 0 operators)) sent in
    let (u, r, h3) = after-ok _ created.0 created.1 id2 h2 in
    let posted = send_all world (ranges 1 operators) msg created.1 in
    let (v, s, h4) = after-ok _ posted.0 posted.1 id2 h3 in sym (ok-injective h4)
