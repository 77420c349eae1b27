-- ===== src/Messenger/System.antt =====
-- The messenger at work: the HTTP handlers, the runner, the worker of the incoming channel and one
-- worker for each subscriber, as steps in any order. A handler is one step. A send on a full channel
-- waits, so its step has room for a premise. The answer of a subscriber's node is the step's choice.
-- A panic of a worker ends the service, so the receipt of a message has its absence for a premise.
pub mod Grows
pub mod Sound
pub mod Jam
pub mod Stall
pub mod Arise
pub mod Rest
pub mod Keeps
pub mod Started
pub mod Arrival
use rockx_dkg_cli.Prelude.{
  ℕ, ◌≤◌, ◌<◌, ◌≡◌, Option, some, List, [], ◌∷◌, ◌++◌, ◌==◌, if◌then◌else◌, length, Bytes, codes,
  GoMap, put, false,
}
use rockx_dkg_cli.Dkg.{SignedOutput, BlameOutput}
use rockx_dkg_cli.Workers.{Runner, Job, jobs_room, run_once, new_runner, add_job}
use rockx_dkg_cli.Messenger.State.{
  Messenger, Message, Subscriber, Worker, process_incoming, process_outgoing, subscriber_at, init,
}
use rockx_dkg_cli.Messenger.Publish.{
  handle_publish, handle_stream_dkg_output, handle_stream_dkg_blame,
}
use rockx_dkg_cli.Messenger.Topics.{TopicJson, handle_create_topic, delete_topic}
use rockx_dkg_cli.Messenger.Register.{SubscriberJson, handle_node_registration}
use rockx_dkg_cli.Messenger.Incoming.{Decoders, targets, panics_on}
use rockx_dkg_cli.Messenger.Outgoing.{PostResult, Round, round}

-- make(chan *Message, 50), of the messenger and of each subscriber
abbrev pub channel_room : ℕ
channel_room = 50

-- ProcessIncomingMessageWorker: not started, at its receive, or with sends to make.
pub data Router : Type 0 where
  off waiting : Router
  fanning : Message → List ℕ → Router

-- ProcessOutgoingMessageWorker: not started, at its receive, or at the send that puts a message back.
pub data Sender : Type 0 where
  off waiting : Sender
  requeueing : Message → Sender

pub record System : Type 0 where
  pub messenger : Messenger
  pub runner : Runner Worker
  pub router : Router
  pub sender : ℕ → Sender

abbrev pub queue_of : System → ℕ → List Message
queue_of w s = (subscriber_at w.messenger s).outgoing

-- `main`: the runner has the job of the incoming channel, and nothing runs yet.
unfoldable pub boot : System
boot = record {
  messenger = init;
  runner = add_job (record { id = codes "TOPIC__default"; fn = process_incoming }) new_runner;
  router = Router.off;
  sender = λ s. Sender.off;
}

abbrev pub set_sender : ℕ → Sender → System → System
set_sender s c w = record w { sender = λ j. if s == j then c else w.sender j }

-- Replaces a subscriber object.
abbrev pub set_subscriber : ℕ → Subscriber → Messenger → Messenger
set_subscriber s sub m = record m { subscriber_heap = put m.subscriber_heap s sub }

abbrev pub push : ℕ → Message → Messenger → Messenger
push s msg m =
    set_subscriber s
      (record (subscriber_at m s) { outgoing = (subscriber_at m s).outgoing ++ msg ∷ [] }) m

unfoldable pub launch : Worker → System → System
launch process_incoming w = record w { router = Router.waiting }
launch (process_outgoing s) w = set_sender s Sender.waiting w

abbrev next_sender : Round → Message → Sender
next_sender r msg = if r.again then requeueing msg else Sender.waiting

unfoldable pub answer : (Bytes → Bytes) → ℕ → Message → List Message → PostResult → System → System
answer retry_key s msg rest result w =
    let r : Round =
      round retry_key (record (subscriber_at w.messenger s) { outgoing = rest }) msg result in
    set_sender s (next_sender r msg)
      (record w { messenger = set_subscriber s r.subscriber w.messenger })

module _ (d : Decoders) (retry_key : Bytes → Bytes) where
  pub data Step : System → System → Type 0 where
    publishes :
        (w : System) (topic : Bytes) (body : Option Bytes)
        → length (handle_publish topic body w.messenger).0.incoming ≤ channel_room
        → Step w (record w { messenger = (handle_publish topic body w.messenger).0 })
    creates :
        (w : System) (body : Option TopicJson)
        → Step w (record w { messenger = (handle_create_topic body w.messenger).0 })
    deletes :
        (w : System) (topic : Bytes)
        → Step w (record w { messenger = (delete_topic topic w.messenger).0 })
    streams_output :
        (w : System) (request_id : Bytes) (body : Option (GoMap ℕ (Option SignedOutput)))
        → Step w (record w { messenger = (handle_stream_dkg_output request_id body w.messenger).0 })
    streams_blame :
        (w : System) (request_id : Bytes) (body : Option (Option BlameOutput))
        → Step w (record w { messenger = (handle_stream_dkg_blame request_id body w.messenger).0 })
    registers :
        (w : System) (topic : Bytes) (body : Option SubscriberJson)
        → length (handle_node_registration topic body (w.messenger, w.runner)).0.1.incoming_jobs
          ≤ jobs_room
        → Step w (record w {
          messenger = (handle_node_registration topic body (w.messenger, w.runner)).0.0;
          runner = (handle_node_registration topic body (w.messenger, w.runner)).0.1;
        })
    starts :
        (w : System) (j : Job Worker) (rest : List (Job Worker)) (r : Runner Worker)
        → w.runner.incoming_jobs ≡ j ∷ rest
        → run_once w.runner ≡ some r
        → Step w (launch j.fn (record w { runner = r }))
    receives :
        (w : System) (msg : Message) (rest : List Message)
        → w.router ≡ Router.waiting
        → w.messenger.incoming ≡ msg ∷ rest
        → panics_on d w.messenger msg ≡ false
        → Step w (record w {
          messenger = record w.messenger { incoming = rest };
          router = fanning msg (targets d w.messenger msg);
        })
    forwards :
        (w : System) (msg : Message) (s : ℕ) (ss : List ℕ)
        → w.router ≡ fanning msg (s ∷ ss)
        → length (queue_of w s) < channel_room
        → Step w (record w { messenger = push s msg w.messenger; router = fanning msg ss })
    finishes :
        (w : System) (msg : Message)
        → w.router ≡ fanning msg []
        → Step w (record w { router = Router.waiting })
    posts :
        (w : System) (s : ℕ) (msg : Message) (rest : List Message) (result : PostResult)
        → w.sender s ≡ Sender.waiting
        → queue_of w s ≡ msg ∷ rest
        → Step w (answer retry_key s msg rest result w)
    requeues :
        (w : System) (s : ℕ) (msg : Message)
        → w.sender s ≡ requeueing msg
        → length (queue_of w s) < channel_room
        → Step w (set_sender s Sender.waiting (record w { messenger = push s msg w.messenger }))

  pub data Reach (w : System) : System → Type 0 where
    here : Reach w w
    next : {u v : System} → Reach w u → Step u v → Reach w v
