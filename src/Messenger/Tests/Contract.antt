-- ===== src/Messenger/Tests/Contract.antt =====
-- Runs of the theorems on the handlers and on the workers.
use rockx_dkg_cli.Messenger.Contract.Topics.{Keeps}
use rockx_dkg_cli.Messenger.Invariant.Routing.{targets_fan_out}
use rockx_dkg_cli.Messenger.Invariant.Register.{registration-IsConsistent}
use rockx_dkg_cli.Go.Strconv.{itoa, to_int}
use rockx_dkg_cli.Dkg.{BlameOutput}
use rockx_dkg_cli.Messenger.Contract.Topics.{contains, create_topic_lem, get_topic-delete_topic}
use Prim.Native.Nat.{min}
use rockx_dkg_cli.Messenger.Contract.Nodes.{
  status_of, register_again, expected_status, registration_status,
}
use rockx_dkg_cli.Messenger.Outgoing.{answered}
use rockx_dkg_cli.Messenger.Tests.{decoders, own_key, node_two, joined, hello, crowded}
use rockx_dkg_cli.Messenger.Invariant.Defs.{IsConsistent, init-IsConsistent}
use rockx_dkg_cli.Messenger.Incoming.{signer_of, targets}
use rockx_dkg_cli.Messenger.Register.{register, handle_node_registration}
use rockx_dkg_cli.Messenger.System.{boot}
use rockx_dkg_cli.Messenger.Outgoing.Retries.{
  Wanted, posts_for, Turn, budget, posts-eq-min, posts-le-budget,
}
use rockx_dkg_cli.Messenger.State.{
  topic_at, Subscriber, default_topic, init, respond, subscriber_at, empty,
}
use rockx_dkg_cli.Messenger.Topics.{
  TopicJson, handle_create_topic, default_of, get_topic, delete_topic,
}
use rockx_dkg_cli.Prelude.{
  ℕ, zero, suc, ◌≤◌, ◌≡◌, refl, none, some, List, [], ◌∷◌, map, ◌==◌, if◌then◌else◌, length, All,
  Bytes, codes, bytes_eq, lookup, remove, bytes_key, nat_key, insert,
}

pub joined_IsConsistent : IsConsistent joined.0
unfolding boot init
joined_IsConsistent =
    registration-IsConsistent default_topic (some node_two) init boot.runner init-IsConsistent

pub default_found : lookup default_topic joined.0.topics ≡ some 0
unfolding lookup handle_node_registration init bytes_eq rockx_dkg_cli.Messenger.Register.is_empty
    register rockx_dkg_cli.Messenger.Register.register_new
default_found = refl

pub seven_signs : signer_of decoders (codes "hello") ≡ some 7
unfolding signer_of rockx_dkg_cli.Messenger.Incoming.reading
    rockx_dkg_cli.Messenger.Incoming.read_signed
seven_signs = refl

targets_fan_out_example :
    targets decoders joined.0 hello
    ≡ map (λ p. p.1) (remove (itoa (to_int 7)) (topic_at joined.0 0).subscribers)
targets_fan_out_example =
    targets_fan_out decoders joined.0 hello 0 7 joined_IsConsistent default_found seven_signs

abbrev refused_turn : Turn
refused_turn = record {
  subscribes_to = (default_topic, 0) ∷ [];
  message = hello;
  result = answered 500;
}

abbrev turns : ℕ → List Turn
turns zero = []
turns (suc n) = refused_turn ∷ turns n

turns-Wanted : (n : ℕ) → All (Wanted own_key (codes "hello")) (turns n)
unfolding lookup bytes_eq
turns-Wanted zero = tt
turns-Wanted (suc n) = ((refl, refl), turns-Wanted n)

abbrev fresh : Subscriber
fresh = record crowded { outgoing = [] }

posts-le-budget_example :
    posts_for own_key (codes "hello") (turns 20) fresh
    ≤ budget (lookup (codes "hello") fresh.retry_data)
posts-le-budget_example = posts-le-budget own_key (codes "hello") (turns 20) fresh

posts-eq-min_example :
    posts_for own_key (codes "hello") (turns 20) fresh
    ≡ min (length (turns 20)) (budget (lookup (codes "hello") fresh.retry_data))
posts-eq-min_example = posts-eq-min own_key (codes "hello") (turns 20) fresh (turns-Wanted 20)

abbrev pair_topic : TopicJson
pair_topic = record { topic_name = codes "r1"; subscribers = codes "2" ∷ codes "9" ∷ [] }

default_there : default_of joined.0 ≡ some (topic_at joined.0 0)
unfolding default_of lookup handle_node_registration init bytes_eq
    rockx_dkg_cli.Messenger.Register.is_empty register rockx_dkg_cli.Messenger.Register.register_new
default_there = refl

create_topic_lem_example :
    let m' = (handle_create_topic (some pair_topic) joined.0).0 in
    (t : ℕ) × (t ≡ joined.0.topic_heap.next)
    × ((topic_at m' t).name ≡ codes "r1")
    × ((n : Bytes)
        → lookup n (topic_at m' t).subscribers ≡ (
            if contains pair_topic.subscribers n
            then lookup n (topic_at joined.0 0).subscribers
            else none))
    × ((k : Bytes)
        → lookup k m'.topics
          ≡ (if bytes_eq (codes "r1") k then some t else lookup k joined.0.topics))
    × ((u : ℕ) → topic_at m' u ≡ (if t == u then topic_at m' t else topic_at joined.0 u))
    × ((s : ℕ) → Keeps (subscriber_at joined.0 s) (subscriber_at m' s))
    × (m'.incoming ≡ joined.0.incoming)
    × (m'.store ≡ joined.0.store)
create_topic_lem_example = create_topic_lem joined.0 (topic_at joined.0 0) pair_topic default_there

get_topic-delete_topic_example : get_topic default_topic (delete_topic default_topic joined.0).0 ≡ (
    if bytes_eq default_topic default_topic
    then respond 404 empty
    else get_topic default_topic joined.0)
get_topic-delete_topic_example =
    get_topic-delete_topic joined.0 default_topic default_topic joined_IsConsistent

registration_status_example :
    let res = handle_node_registration (codes "other") (some node_two) (joined.0, joined.1) in
    (status_of res.1 ≡ expected_status (lookup (codes "other") joined.0.topics) (some node_two))
    × (res.0 ≡ (if status_of res.1 == 200 then res.0 else (joined.0, joined.1)))
registration_status_example = registration_status (codes "other") (some node_two) joined.0 joined.1

two_known : lookup (codes "2") (topic_at joined.0 0).subscribers ≡ some 0
unfolding lookup handle_node_registration init bytes_eq rockx_dkg_cli.Messenger.Register.is_empty
    register rockx_dkg_cli.Messenger.Register.register_new rockx_dkg_cli.Prelude.insert
two_known = refl

register_again_example :
    let res = register default_topic 0 (codes "2") (codes "http://new") (joined.0, joined.1) in
    (res.1 ≡ joined.1)
    × ((j : ℕ)
        → subscriber_at res.0 j ≡ (
            if 0 == j
            then record (subscriber_at joined.0 0) { srv_addr = codes "http://new" }
            else subscriber_at joined.0 j))
    × ((u : ℕ) (i : Bytes)
        → lookup i (topic_at res.0 u).subscribers ≡ lookup i (topic_at joined.0 u).subscribers)
    × ((u : ℕ) → (topic_at res.0 u).name ≡ (topic_at joined.0 u).name)
    × (res.0.subscriber_heap.next ≡ joined.0.subscriber_heap.next)
    × (res.0.topic_heap.next ≡ joined.0.topic_heap.next)
    × (record res.0 { subscriber_heap = joined.0.subscriber_heap; topic_heap = joined.0.topic_heap }
        ≡ joined.0)
register_again_example =
    register_again default_topic (codes "2") (codes "http://new") 0 0 joined.0 joined.1 two_known

abbrev some_blame : BlameOutput
some_blame = record { identifier = 171 ∷ []; rest = [] }
