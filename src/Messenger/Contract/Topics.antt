-- ===== src/Messenger/Contract/Topics.antt =====
-- POST, GET and DELETE of topics.
use rockx_dkg_cli.Messenger.Invariant.Topics.{enlist-Enlists, start-Enlists}
use rockx_dkg_cli.Messenger.State.{subscriber_at, Subscriber}
use rockx_dkg_cli.Messenger.Invariant.Defs.{IsConsistent}
use rockx_dkg_cli.Prelude.{
  ℕ, ◌≡◌, ◌≢◌, inl, inr, Bool, false, ◌||◌, Option, none, some, List, [], ◌∷◌, arith, if◌then◌else◌,
  Option-cases, Bytes, bytes_eq, bytes_eq_iff, lookup, lookup-insert, bytes_key, refl, ◌↔◌,
  lookup-remove, true, nat_key, ◌==◌, has,
}
use rockx_dkg_cli.Messenger.State.{Messenger, Topic, topic_at, panics, respond, empty, Reply}
use rockx_dkg_cli.Messenger.Topics.{
  Enlisted, TopicJson, enlist_found, enlist_one, enlist, enlist_all, created, default_of, install,
  handle_create_topic, get_topic, delete_topic,
}

unfoldable pub contains : List Bytes → Bytes → Bool
contains [] n = false
contains (x ∷ xs) n = bytes_eq x n || contains xs n

-- What a map holds that is made from the names listed, in front of what it held before.
abbrev chosen : Bool → Option ℕ → Option ℕ → Option ℕ
chosen listed (some s) before = if listed then some s else before
chosen listed none before = before

one_listed :
    (d : Topic) (topic : Bytes) (t : ℕ) (sub n : Bytes) (e : Enlisted)
    → lookup n (enlist_one d topic t sub e).1
      ≡ chosen (bytes_eq sub n) (lookup n d.subscribers) (lookup n e.1)
one_listed d topic t sub n (h, subs) = elim (Option-cases (lookup sub d.subscribers)) [
  | inl f ↦ unfold enlist_one in rw (f, enlist_one) (ground (arith, bytes_eq_iff sub n))
  | inr (s, f) ↦
      unfold enlist_one enlist_found in
      rw (f, enlist_one, lookup-insert) (ground (arith, bytes_eq_iff sub n))
]

lookup-enlist :
    (d : Topic) (topic : Bytes) (t : ℕ) (n : Bytes) (subs : List Bytes) (e : Enlisted)
    → lookup n (enlist d topic t subs e).1
      ≡ chosen (contains subs n) (lookup n d.subscribers) (lookup n e.1)
unfolding enlist contains
lookup-enlist d topic t n [] e = ground arith
lookup-enlist d topic t n (sub ∷ subs) e = ground (
  arith,
  lookup-enlist d topic t n subs (enlist_one d topic t sub e),
  one_listed d topic t sub n e,
)

-- All of a subscriber but the topics that it follows, which only grow.
abbrev pub Keeps : Subscriber → Subscriber → Type 0
Keeps a b =
    (b.name ≡ a.name)
    × (b.srv_addr ≡ a.srv_addr)
    × (b.outgoing ≡ a.outgoing)
    × (b.retry_data ≡ a.retry_data)
    × ((k : Bytes) → has k a.subscribes_to ≡ true → has k b.subscribes_to ≡ true)

kept_by :
    (d : Topic) (json : TopicJson) (m : Messenger) (s : ℕ)
    → Keeps (subscriber_at m s) (
        (enlist d json.topic_name m.topic_heap.next json.subscribers (m.subscriber_heap, [])).0.cell
          s)
kept_by d json m s =
    let k =
      (enlist-Enlists d json.topic_name m.topic_heap.next _ json.subscribers _
          (start-Enlists d json.topic_name m.subscriber_heap)).kept
        s in
    (k.name, k.srv_addr, k.outgoing, k.retry_data, k.more)

lookup-nil : (n : Bytes) → lookup {V = ℕ} n [] ≡ none
unfolding lookup
lookup-nil n = refl

-- While the default topic is there, the new topic is a new object, found under its name, and holds
-- exactly the listed names that the default topic knows, with the same subscribers. Every other topic
-- object stays as it is, under every other name the same one is found, and each subscriber keeps its
-- name, its address, its queue, its retry counts and the topics that it follows. Nothing waits on the incoming channel or is stored
-- that did not before.
pub create_topic_lem :
    (m : Messenger) (d : Topic) (json : TopicJson)
    → default_of m ≡ some d
    → let m' = (handle_create_topic (some json) m).0 in
      (t : ℕ) × (t ≡ m.topic_heap.next)
      × ((topic_at m' t).name ≡ json.topic_name)
      × ((n : Bytes)
          → lookup n (topic_at m' t).subscribers
            ≡ (if contains json.subscribers n then lookup n d.subscribers else none))
      × ((k : Bytes)
          → lookup k m'.topics ≡ (if bytes_eq json.topic_name k then some t else lookup k m.topics))
      × ((u : ℕ) → topic_at m' u ≡ (if t == u then topic_at m' t else topic_at m u))
      × ((s : ℕ) → Keeps (subscriber_at m s) (subscriber_at m' s))
      × (m'.incoming ≡ m.incoming)
      × (m'.store ≡ m.store)
unfolding handle_create_topic enlist_all created install
create_topic_lem m d json e =
    rw (e, enlist_all)
      (
        m.topic_heap.next,
        refl,
        ground arith,
        λ n. ground (
          arith,
          lookup-enlist d json.topic_name m.topic_heap.next n json.subscribers
              (m.subscriber_heap, []),
          lookup-nil n,
        ),
        λ k. lookup-insert json.topic_name k m.topic_heap.next m.topics,
        λ u. ground arith,
        λ s. kept_by d json m s,
        refl,
        refl,
      )

abbrev pub is_panic : Reply → Bool
is_panic (respond code body) = false
is_panic panics = true

created_panics :
    (k : Bytes) (t : ℕ) (m : Messenger) (o : Option Topic) (subs : List Bytes)
    → let r = created k m (enlist_all o k t subs (m.subscriber_heap, [])) in
      ((r.1 ≡ panics) ↔ ((o ≡ none) × (subs ≢ []))) × (r.0 ≡ (if is_panic r.1 then m else r.0))
unfolding enlist_all created install
created_panics k t m none [] = ((λ p. cc, λ q. absurd (q.1 refl)), refl)
created_panics k t m none (sub ∷ subs) = ((λ p. (refl, λ q. cc), λ q. refl), refl)
created_panics k t m (some d) subs = ((λ p. cc, λ q. cc (q.0)), refl)

-- Creating a topic panics exactly where there is no default topic and a name is listed; the state is
-- then as it was.
create_topic_panics :
    (m : Messenger) (json : TopicJson)
    → let r = handle_create_topic (some json) m in
      ((r.1 ≡ panics) ↔ ((default_of m ≡ none) × (json.subscribers ≢ [])))
      × (r.0 ≡ (if is_panic r.1 then m else r.0))
unfolding handle_create_topic
create_topic_panics m json =
    created_panics json.topic_name m.topic_heap.next m (default_of m) json.subscribers

-- In a well-formed state a deleted topic is gone, and every other topic answers as before.
pub get_topic-delete_topic :
    (m : Messenger) (k j : Bytes)
    → IsConsistent m
    → get_topic j (delete_topic k m).0 ≡ (if bytes_eq k j then respond 404 empty else get_topic j m)
unfolding get_topic
get_topic-delete_topic m k j v = elim (Option-cases (lookup k m.topics)) [
  | inl e ↦ unfold delete_topic in rw (e, delete_topic) (ground (arith, bytes_eq_iff k j))
  | inr (t, e) ↦
      unfold delete_topic in
      rw (e, delete_topic, (v.topic_named k t e).0) (ground (arith, lookup-remove k j m.topics))
]
