-- ===== src/Messenger/Tests/Rest.antt =====
-- Runs of the theorems on the messenger that is left alone.
use rockx_dkg_cli.Messenger.Publish.{handle_publish, publish}
use rockx_dkg_cli.Messenger.Incoming.{targets}
use rockx_dkg_cli.Messenger.System.Rest.Ends.{comes_to_rest}
use rockx_dkg_cli.Workers.{new_runner, add_job}
use rockx_dkg_cli.Messenger.Register.{handle_node_registration, is_empty, register, register_new}
use rockx_dkg_cli.Messenger.State.{init, default_topic, process_outgoing, process_incoming}
use rockx_dkg_cli.Prelude.{
  ◌+◌, ◌≤◌, refl, [], ◌∷◌, codes, bytes_eq, lookup, insert, bytes_key, nat_key,
}
use rockx_dkg_cli.Messenger.Tests.{decoders, own_key, after_publish, two_steps}
use rockx_dkg_cli.Messenger.System.Rest.{Alone, work_left, goes_on, still}
use rockx_dkg_cli.Messenger.System.{starts, receives, System, fanning, Router, boot}

abbrev pub after_start : System
after_start = record after_publish {
  router = Router.waiting;
  runner = record {
    incoming_jobs = record { id = codes "SUBSCRIBER__2"; fn = process_outgoing 0 } ∷ [];
    jobs = (codes "TOPIC__default", 0) ∷ [];
    contexts = 1;
    cancelled = [];
    started = process_incoming ∷ [];
  };
}

abbrev pub after_receipt : System
after_receipt = record after_start {
  messenger = record after_start.messenger { incoming = [] };
  router =
      fanning (record { topic = default_topic; payload = codes "hi" })
        (targets decoders after_start.messenger
          (record { topic = default_topic; payload = codes "hi" }));
}

pub two_own_steps : Alone decoders own_key after_publish 2 after_receipt
unfolding handle_node_registration lookup init bytes_eq is_empty register register_new add_job boot
    new_runner rockx_dkg_cli.Workers.run_once handle_publish publish
    rockx_dkg_cli.Messenger.System.launch rockx_dkg_cli.Prelude.insert
    rockx_dkg_cli.Messenger.Incoming.panics_on rockx_dkg_cli.Messenger.Incoming.reading
    rockx_dkg_cli.Messenger.Incoming.read_signed
two_own_steps =
    goes_on (goes_on still (starts after_publish _ _ _ refl refl) refl)
      (receives after_start _ _ refl refl refl) refl

comes_to_rest_example : 2 + work_left own_key after_receipt ≤ work_left own_key after_publish
comes_to_rest_example =
    comes_to_rest decoders own_key after_publish after_receipt 2 two_steps two_own_steps
