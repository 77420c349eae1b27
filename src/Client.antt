-- ===== src/Client.antt =====
-- The messenger's client: internal/messenger/client.go, and MessengerAddrFromEnv.
pub mod Registration
pub mod Tests
use rockx_dkg_cli.Go.Hex
use rockx_dkg_cli.Messenger.State.{default_topic}
use rockx_dkg_cli.Go.Strconv.{itoa, to_int}
use rockx_dkg_cli.Dkg.{BlameOutput, SignedOutput}
use rockx_dkg_cli.Prelude.{
  ℕ, zero, suc, Option, none, some, List, [], ◌∷◌, ◌++◌, ◌==◌, if◌then◌else◌, Bytes, codes, GoMap,
}
use rockx_dkg_cli.Net.{
  Request, Answer, failed, answered, World, Exec, Result, ok, err, panics, lift, post, Payload, raw,
  topic_json, subscriber_json, results_json, blame_json, ◌>>=◌, ask, too_many_tries, request_failed,
  unparsable, encode_failed, bad_status,
}

-- MESSENGER_SRV_ADDR is an argument.
unfoldable pub messenger_addr_from_env : Bytes → Bytes
messenger_addr_from_env [] = codes "http://0.0.0.0:3000"
messenger_addr_from_env (c ∷ s) = c ∷ s

-- The address of the client that NewMessengerClient makes.
unfoldable pub new_messenger_client : Bytes → Bytes
new_messenger_client [] = codes "https://dkg-messenger.rockx.com"
new_messenger_client (c ∷ s) = c ∷ s

-- The identifiers that a topic names its subscribers by.
unfoldable pub subscriber_names : List ℕ → List Bytes
subscriber_names [] = []
subscriber_names (i ∷ ids) = itoa (to_int i) ∷ subscriber_names ids

unfoldable pub request_id_of : Bytes → SignedOutput → Bytes
request_id_of before output = elim output.output [
  | some d ↦ Hex.encode d.request_id
  | none ↦ elim output.key_sign_data [ some d ↦ Hex.encode d.request_id | none ↦ before ]
]

-- The loop of StreamDKGOutput: the last output that has an identifier gives it.
unfoldable pub last_request_id : Bytes → GoMap ℕ SignedOutput → Bytes
last_request_id before [] = before
last_request_id before ((i, output) ∷ outputs) =
    last_request_id (request_id_of before output) outputs

unfoldable pub register_request : Bytes → Bytes → Bytes → Request
register_request srv_addr id addr = record {
  url = srv_addr ++ codes "/register_node?subscribes_to=" ++ default_topic;
  payload = some (subscriber_json id addr);
}

module _ (world : World) (srv_addr : Bytes) where
  unfoldable pub publish : Bytes → Bytes → Exec (Unit {0})
  publish topic_name bytes =
      post world (srv_addr ++ codes "/publish?topic_name=" ++ topic_name) (raw bytes)

  unfoldable pub stream : Bytes → Bytes → Payload → Exec (Unit {0})
  stream urlparam request_id payload =
      post world (srv_addr ++ codes "/stream/" ++ urlparam ++ codes "?request_id=" ++ request_id)
        payload

  -- The JSON texts of the blame and of the outputs are arguments, `none` where Marshal fails.
  unfoldable pub stream_dkg_blame : BlameOutput → Option Bytes → Exec (Unit {0})
  stream_dkg_blame blame none = lift (err encode_failed)
  stream_dkg_blame blame (some text) =
      stream (codes "dkgblame") (Hex.encode blame.identifier) (blame_json text)

  unfoldable pub stream_dkg_output : GoMap ℕ SignedOutput → Option Bytes → Exec (Unit {0})
  stream_dkg_output output none = lift (err encode_failed)
  stream_dkg_output output (some text) =
      stream (codes "dkgoutput") (last_request_id [] output) (results_json text)

  -- The encoded message, `none` where Encode fails, and the encoding of the SSV message around it.
  unfoldable pub broadcast_dkg_message :
      (ssv_encode : Bytes → Bytes) → Bytes → Option Bytes → Exec (Unit {0})
  broadcast_dkg_message ssv_encode identifier none = lift (err encode_failed)
  broadcast_dkg_message ssv_encode identifier (some msg) =
      publish (Hex.encode identifier) (ssv_encode msg)

  unfoldable pub create_topic : Bytes → List ℕ → Exec (Unit {0})
  create_topic request_id l =
      post world (srv_addr ++ codes "/topics") (topic_json request_id (subscriber_names l))

  abbrev read_topic {ℓ} : {A : Type ℓ} → (Bytes → Option A) → Answer → Result A
  read_topic parse failed = err request_failed
  read_topic parse (answered code body) =
      if code == 200
      then elim (parse body) [ none ↦ err unparsable | some topic ↦ ok topic ]
      else err (bad_status code)

  -- `parse` is json.Unmarshal into a Topic.
  unfoldable pub get_topic {ℓ} : {A : Type ℓ} → (parse : Bytes → Option A) → Bytes → Exec A
  get_topic parse topic_name =
      let req : Request = record {
        url = srv_addr ++ codes "/topics/" ++ topic_name;
        payload = none;
      } in
      ask world req >>= λ answer. lift (read_topic parse answer)

abbrev pub after_try :
    Answer → Result (Unit {0}) × List Request → List Request → Result (Unit {0}) × List Request
after_try failed next sent = next
after_try (answered code body) next sent = (if code == 200 then ok tt else panics, sent)

module _ (world : World) where
  -- The loop of RegisterOperatorNode. On a status other than 200 it calls `err.Error()` where `err`
  -- is nil.
  unfoldable pub register_tries : ℕ → Request → Exec (Unit {0})
  register_tries zero req sent = (err too_many_tries, sent)
  register_tries (suc n) req sent =
      let next = register_tries n req (sent ++ req ∷ []) in
      after_try (world sent req) next (sent ++ req ∷ [])

  unfoldable pub register_operator_node : Bytes → Bytes → Bytes → Exec (Unit {0})
  register_operator_node srv_addr id addr = register_tries 3 (register_request srv_addr id addr)
