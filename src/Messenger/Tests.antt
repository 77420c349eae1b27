-- ===== src/Messenger/Tests.antt =====
-- Runs of the messenger's theorems on concrete states.
pub mod Contract
pub mod Requests
pub mod Rest
pub mod Arrives
use rockx_dkg_cli.Messenger.System.Started.Steps.{Reach-IsOrderly}
use rockx_dkg_cli.Messenger.System.Started.{IsOrderly}
use rockx_dkg_cli.Messenger.System.Sound.Steps.{Reach-IsSound}
use rockx_dkg_cli.Messenger.System.Arise.{jam_arises}
use rockx_dkg_cli.Messenger.System.Jam.{IsJammed, Elsewhere}
use rockx_dkg_cli.Messenger.Register.{
  SubscriberJson, Registered, handle_node_registration, register_body, register, register_new,
  is_empty,
}
use rockx_dkg_cli.Messenger.System.{
  Sender, Reach, System, boot, requeueing, fanning, next, here, registers, publishes, channel_room,
}
use rockx_dkg_cli.Messenger.Outgoing.{account}
use rockx_dkg_cli.Messenger.Publish.{handle_publish, publish}
use rockx_dkg_cli.Workers.{new_runner, add_job, jobs_room}
use rockx_dkg_cli.Messenger.State.{default_topic, Message, Subscriber, init}
use rockx_dkg_cli.Messenger.Incoming.{Decoders}
use rockx_dkg_cli.Messenger.System.Sound.Defs.{IsSound}
use rockx_dkg_cli.Messenger.System.Stall.{IsStalled, Reach-IsStalled}
use rockx_dkg_cli.Prelude.{
  ℕ, zero, suc, ◌≤◌, ◌≡◌, refl, true, some, List, [], ◌∷◌, arith, length, All, Bytes, codes,
  bytes_eq, lookup, has, bytes_key, nat_key,
}

abbrev pub decoders : Decoders
decoders = record {
  ssv_message = λ b. some b;
  signed_message = λ b. some (7, some b);
  protocol_msg = λ b. some 1;
}

-- A retry key of a message, for the tests: the message itself.
abbrev pub own_key : Bytes → Bytes
own_key b = b

abbrev node_two : SubscriberJson
node_two = record { name = codes "2"; srv_addr = codes "http://two" }

abbrev pub joined : Registered
joined = (handle_node_registration default_topic (some node_two) (init, boot.runner)).0

abbrev after_join : System
after_join = record boot { messenger = joined.0; runner = joined.1 }

abbrev pub after_publish : System
after_publish = record after_join {
  messenger = (handle_publish default_topic (some (codes "hi")) after_join.messenger).0;
}

join_room : length joined.1.incoming_jobs ≤ jobs_room
unfolding handle_node_registration init boot register_body register register_new add_job is_empty
    lookup new_runner bytes_eq
join_room = omega arith

publish_room :
    length (handle_publish default_topic (some (codes "hi")) after_join.messenger).0.incoming
    ≤ channel_room
unfolding handle_publish publish handle_node_registration init boot register_body register
    register_new add_job is_empty lookup new_runner bytes_eq
publish_room = omega arith

pub two_steps : Reach decoders own_key boot after_publish
unfolding boot init
two_steps =
    next (next here (registers boot default_topic (some node_two) join_room))
      (publishes after_join default_topic (some (codes "hi")) publish_room)

Reach-IsOrderly_example : IsOrderly after_publish
Reach-IsOrderly_example = Reach-IsOrderly decoders own_key two_steps

Reach-IsSound_example : IsSound after_publish
Reach-IsSound_example = Reach-IsSound decoders own_key two_steps

abbrev copies : ℕ → Message → List Message
copies zero msg = []
copies (suc n) msg = msg ∷ copies n msg

abbrev pub hello : Message
hello = record { topic = default_topic; payload = codes "hello" }

-- A subscriber of the default topic whose channel is full.
abbrev crowded : Subscriber
crowded = record {
  name = codes "2";
  srv_addr = codes "http://two";
  subscribes_to = (default_topic, 0) ∷ [];
  outgoing = copies 50 hello;
  retry_data = [];
}

abbrev crowded_system : Sender → System
crowded_system c = record {
  messenger = record init { subscriber_heap = record { cell = λ s. crowded; next = 1 } };
  runner = new_runner;
  router = fanning hello (0 ∷ []);
  sender = λ s. c;
}

no_jobs : (c : Sender) → All (Elsewhere 0) (crowded_system c).runner.incoming_jobs
unfolding new_runner
no_jobs c = tt

first_account : account (lookup (codes "hello") crowded.retry_data) ≡ some 0
unfolding account lookup
first_account = refl

crowded_follows : has default_topic crowded.subscribes_to ≡ true
unfolding lookup bytes_eq
crowded_follows = refl

jam_arises_example :
    (u : System) × Reach decoders own_key (crowded_system Sender.waiting) u × IsJammed 0 hello u
jam_arises_example =
    jam_arises decoders own_key (crowded_system Sender.waiting) 0 0 500 hello hello
      (copies 49 hello) [] (omega arith) (no_jobs Sender.waiting) refl refl refl refl first_account
      crowded_follows (omega arith)

crowded-IsJammed : IsJammed 0 hello (crowded_system (requeueing hello))
crowded-IsJammed = record {
  exists = omega arith;
  held = refl;
  full = refl;
  jobs = no_jobs (requeueing hello);
}

Reach-IsStalled_example : IsStalled 0 hello hello [] (crowded_system (requeueing hello))
Reach-IsStalled_example =
    Reach-IsStalled 0 hello hello [] decoders own_key here
      (record { jammed = crowded-IsJammed; blocked = refl })
