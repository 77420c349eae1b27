-- ===== src/Messenger/State.antt =====
-- The state of the messenger: internal/messenger/messenger.go, errors.go, cmd/messenger/main.go.
use rockx_dkg_cli.Prelude.{ℕ, List, [], ◌∷◌, GoMap, Bytes, codes, map, Heap}
use rockx_dkg_cli.Dkg.{DataStore}

abbrev pub default_topic : Bytes
default_topic = codes "default"

pub record Message : Type 0 where
  pub topic : Bytes
  pub payload : Bytes

-- `subscribes_to` and `Topic.subscribers` hold pointers, so references into the two heaps.
pub record Subscriber : Type 0 where
  pub name : Bytes
  pub srv_addr : Bytes
  pub subscribes_to : GoMap Bytes ℕ
  pub outgoing : List Message
  pub retry_data : GoMap Bytes ℕ

pub record Topic : Type 0 where
  pub name : Bytes
  pub subscribers : GoMap Bytes ℕ

-- `incoming` is a channel, oldest first. The two heaps hold the objects behind the pointers.
pub record Messenger : Type 0 where
  pub topics : GoMap Bytes ℕ
  pub store : GoMap Bytes DataStore
  pub incoming : List Message
  pub topic_heap : Heap Topic
  pub subscriber_heap : Heap Subscriber

pub data Error : Type 0 where
  topic_not_found : Bytes → Error
  unreadable_body unparsable_body empty_name_or_addr : Error

-- The jobs of the runner: m.ProcessIncomingMessageWorker, and the worker of one subscriber.
pub data Worker : Type 0 where
  process_incoming : Worker
  process_outgoing : ℕ → Worker

-- What a client sees of a topic: the JSON of `Topic` leaves the channels and maps out.
pub record TopicView : Type 0 where
  pub name : Bytes
  pub subscribers : GoMap Bytes (Bytes × Bytes)

pub data Body : Type 0 where
  empty : Body
  failure : Error → Body
  published : Bytes → Body
  topic_body : TopicView → Body
  topics_body : GoMap Bytes TopicView → Body
  store_body : DataStore → Body

-- A handler answers with a status and a body, or dereferences a nil pointer.
pub data Reply : Type 0 where
  respond : ℕ → Body → Reply
  panics : Reply

abbrev pub topic_at : Messenger → ℕ → Topic
topic_at m t = m.topic_heap.cell t

abbrev pub subscriber_at : Messenger → ℕ → Subscriber
subscriber_at m s = m.subscriber_heap.cell s

abbrev blank_subscriber : Subscriber
blank_subscriber = record {
  name = [];
  srv_addr = [];
  subscribes_to = [];
  outgoing = [];
  retry_data = [];
}

-- The topic that the service starts with; also what a cell holds before its allocation.
abbrev pub first_topic : Topic
first_topic = record { name = default_topic; subscribers = [] }

-- The messenger that `main` builds: the default topic alone, and no data.
unfoldable pub init : Messenger
init = record {
  topics = (default_topic, 0) ∷ [];
  store = [];
  incoming = [];
  topic_heap = record { cell = λ _. first_topic; next = 1 };
  subscriber_heap = record { cell = λ _. blank_subscriber; next = 0 };
}

view_subscriber : Heap Subscriber → Bytes × ℕ → Bytes × (Bytes × Bytes)
view_subscriber h (n, s) = (n, ((h.cell s).name, (h.cell s).srv_addr))

unfoldable pub view_topic : Heap Subscriber → Topic → TopicView
unfolding view_subscriber
view_topic h t = record { name = t.name; subscribers = map (view_subscriber h) t.subscribers }
