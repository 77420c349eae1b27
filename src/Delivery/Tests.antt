-- ===== src/Delivery/Tests.antt =====
-- A run of the theorem on a message on its way to a node.
use rockx_dkg_cli.Node.Tests.Keygen.{store_node}
use rockx_dkg_cli.Web.{Web}
use rockx_dkg_cli.Node.Routes.{DkgNode}
use rockx_dkg_cli.Service.Tests.Matching.{plain_law, plain_web}
use rockx_dkg_cli.Delivery.{handed, exchange}
use rockx_dkg_cli.Delivery.Rounds.{exchange_lem}
use rockx_dkg_cli.Node.{Processed, handle_consume, consume_message, process_status}
use rockx_dkg_cli.Messenger.State.{default_topic, Message, Subscriber}
use rockx_dkg_cli.Prelude.{
  ℕ, ◌+◌, ◌≡◌, refl, inr, true, none, [], ◌∷◌, arith, ltb, Bytes, codes, bytes_eq, lookup, has,
  bytes_key, nat_key, GoMap,
}
use Prim.Native.Nat.{min}

-- A node that counts what it is handed, and processes nothing before the third time.
abbrev counts : Bytes → ℕ → Processed ℕ
counts msg n = record { node = n + 1; failed_to_process = ltb n 2 }

abbrev counting_node : DkgNode ℕ Bytes (GoMap Bytes Bytes) ℕ ℕ
counting_node = store_node (λ n. []) counts

abbrev web_of_two : Web
web_of_two = plain_web (codes "http://two")

abbrev as_key : Bytes → Bytes
as_key b = b

abbrev ping : Message
ping = record { topic = default_topic; payload = codes "ping" }

abbrev follower : Subscriber
follower = record {
  name = codes "2";
  srv_addr = codes "http://two";
  subscribes_to = (default_topic, 0) ∷ [];
  outgoing = [];
  retry_data = [];
}

follows_ping : has default_topic follower.subscribes_to ≡ true
unfolding lookup bytes_eq
follows_ping = refl

new_to_it : lookup (codes "ping") follower.retry_data ≡ none
unfolding lookup
new_to_it = refl

exchange_lem_example :
    ((exchange as_key web_of_two counting_node (12 + 0) ping follower 0).posts ≡ min (2 + 1) 11)
    × ((exchange as_key web_of_two counting_node (12 + 0) ping follower 0).node
        ≡ handed as_key web_of_two counting_node (min (2 + 1) 11) ping 0)
unfolding handle_consume consume_message process_status handed
exchange_lem_example =
    exchange_lem as_key web_of_two counting_node 2 0 ping follower 0
      (plain_law (codes "http://two")) follows_ping new_to_it (refl, (refl, tt))
      (inr (omega arith, refl))
