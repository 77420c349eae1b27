-- ===== src/Messenger/Topics.antt =====
-- The handlers of topic_handlers.go.
use rockx_dkg_cli.Prelude.{
  bytes_key, ℕ, List, [], ◌∷◌, Option, none, some, GoMap, lookup, insert, remove, Bytes, map, Heap,
  put, alloc,
}
use rockx_dkg_cli.Messenger.State.{
  Messenger, Topic, Subscriber, unparsable_body, Reply, respond, panics, empty, failure, topic_body,
  topics_body, topic_at, default_topic, view_topic,
}

pub record TopicJson : Type 0 where
  pub topic_name : Bytes
  pub subscribers : List Bytes

-- The heap of subscribers and the subscribers of the topic that is being made.
abbrev pub Enlisted : Type 0
Enlisted = Heap Subscriber × GoMap Bytes ℕ

abbrev pub subscribe : Bytes → ℕ → Subscriber → Subscriber
subscribe topic t s = record s { subscribes_to = insert topic t s.subscribes_to }

-- The body of the loop, for a name that the default topic has.
unfoldable pub enlist_found : Bytes → ℕ → Bytes → ℕ → Enlisted → Enlisted
enlist_found topic t sub s (h, subs) = (put h s (subscribe topic t (h.cell s)), insert sub s subs)

unfoldable pub enlist_one : Topic → Bytes → ℕ → Bytes → Enlisted → Enlisted
enlist_one default topic t sub e = elim (lookup sub default.subscribers) [
  | none ↦ e
  | some s ↦ enlist_found topic t sub s e
]

unfoldable pub enlist : Topic → Bytes → ℕ → List Bytes → Enlisted → Enlisted
enlist default topic t [] e = e
enlist default topic t (sub ∷ subs) e =
    enlist default topic t subs (enlist_one default topic t sub e)

-- With no default topic the first round dereferences nil.
unfoldable pub enlist_all : Option Topic → Bytes → ℕ → List Bytes → Enlisted → Option Enlisted
enlist_all (some default) topic t subs e = some (enlist default topic t subs e)
enlist_all none topic t [] e = some e
enlist_all none topic t (sub ∷ subs) e = none

unfoldable pub default_of : Messenger → Option Topic
default_of m = elim (lookup default_topic m.topics) [ none ↦ none | some t ↦ some (topic_at m t) ]

unfoldable pub install : Bytes → Messenger → Enlisted → Messenger × Reply
install topic_name m (h, subs) =
    let topic : Topic = record { name = topic_name; subscribers = subs } in
    (
      record m {
        topic_heap = alloc m.topic_heap topic;
        subscriber_heap = h;
        topics = insert topic_name m.topic_heap.next m.topics;
      },
      respond 200 (topic_body (view_topic h topic)),
    )

unfoldable pub created : Bytes → Messenger → Option Enlisted → Messenger × Reply
created topic_name m none = (m, panics)
created topic_name m (some e) = install topic_name m e

-- The body is what gin makes of it, `none` on its error.
unfoldable pub handle_create_topic : Option TopicJson → Messenger → Messenger × Reply
handle_create_topic none m = (m, respond 400 (failure unparsable_body))
handle_create_topic (some json) m = created json.topic_name m (
    enlist_all (default_of m) json.topic_name m.topic_heap.next json.subscribers
      (m.subscriber_heap, []))

unfoldable pub get_topics : Messenger → Reply
get_topics m =
    respond 200
      (topics_body (map (λ p. (p.0, view_topic m.subscriber_heap (topic_at m p.1))) m.topics))

unfoldable pub get_topic : Bytes → Messenger → Reply
get_topic topic_name m = elim (lookup topic_name m.topics) [
  | none ↦ respond 404 empty
  | some t ↦ respond 200 (topic_body (view_topic m.subscriber_heap (topic_at m t)))
]

-- The topic is deleted under its own name; a handler that writes nothing answers 200.
unfoldable pub delete_topic : Bytes → Messenger → Messenger × Reply
delete_topic topic_name m = elim (lookup topic_name m.topics) [
  | none ↦ (m, respond 404 empty)
  | some t ↦ (record m { topics = remove (topic_at m t).name m.topics }, respond 200 empty)
]
