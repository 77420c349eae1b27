-- ===== src/Cli/Sends.antt =====
-- What the commands send, as lists of requests: the reference that their programs are compared with.
-- POST <addr>/consume of the same message to every operator, in order.
use rockx_dkg_cli.Net.Plan.{follow, shown, follow-post}
use rockx_dkg_cli.Client.{new_messenger_client, messenger_addr_from_env, subscriber_names}
use rockx_dkg_cli.Cli.Spec.{send_all, consume_url, send_msg}
use rockx_dkg_cli.Net.{Request, topic_json, raw, World}
use rockx_dkg_cli.Prelude.{ℕ, ◌≡◌, refl, some, List, [], ◌∷◌, ◌++◌, Bytes, codes, GoMap}

abbrev pub consume_plan : Bytes → GoMap ℕ Bytes → List Request
consume_plan msg [] = []
consume_plan msg ((i, addr) ∷ ops) =
    record { url = consume_url addr; payload = some (raw msg) } ∷ consume_plan msg ops

-- POST <messenger>/topics of a topic for some operators.
abbrev pub topic_request : Bytes → Bytes → List ℕ → Request
topic_request messenger name ids = record {
  url = messenger ++ codes "/topics";
  payload = some (topic_json name (subscriber_names ids));
}

pub send_all-follow :
    (world : World) (ops : GoMap ℕ Bytes) (msg : Bytes) (sent : List Request)
    → shown (send_all world ops msg sent) ≡ follow world (consume_plan msg ops) sent
unfolding send_all follow send_msg
send_all-follow world [] msg sent = refl
send_all-follow world ((i, addr) ∷ ops) msg sent =
    follow-post world (consume_url addr) (raw msg) (send_all world ops msg) (consume_plan msg ops)
      sent (send_all-follow world ops msg)

-- An empty MESSENGER_SRV_ADDR never reaches the client's own default.
pub client_addr :
    (e : Bytes) → new_messenger_client (messenger_addr_from_env e) ≡ messenger_addr_from_env e
unfolding new_messenger_client messenger_addr_from_env
client_addr [] = refl
client_addr (c ∷ s) = refl
