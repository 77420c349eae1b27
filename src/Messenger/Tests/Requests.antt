-- ===== src/Messenger/Tests/Requests.antt =====
-- Runs of the theorems on registered nodes and on the topics of requests.
use rockx_dkg_cli.Messenger.Register.{handle_node_registration}
use rockx_dkg_cli.Go.Strconv.{itoa, to_int}
use rockx_dkg_cli.Messenger.State.{Message, init, topic_at}
use rockx_dkg_cli.Prelude.{◌≡◌, refl, some, codes, bytes_eq, lookup, bytes_key, nat_key, insert}
use rockx_dkg_cli.Messenger.Tests.{joined}

abbrev pub request_message : Message
request_message = record { topic = codes "ab"; payload = codes "hello" }

pub two_known : lookup (itoa (to_int 2)) (topic_at joined.0 0).subscribers ≡ some 0
unfolding lookup handle_node_registration init bytes_eq rockx_dkg_cli.Messenger.Register.is_empty
    rockx_dkg_cli.Messenger.Register.register rockx_dkg_cli.Messenger.Register.register_new insert
    itoa to_int
two_known = refl
