-- ===== src/Messenger/System/Rest/Fan.antt =====
-- How many subscribers a message is sent on to.
use rockx_dkg_cli.Messenger.State.{Subscriber, Messenger, Topic, Message, topic_at}
use rockx_dkg_cli.Messenger.Incoming.{Decoders, recipients, signed_targets, targets, signer_of}
use rockx_dkg_cli.Messenger.System.Rest.{width, topic_sizes}
use rockx_dkg_cli.Prelude.{
  ℕ, ◌≤◌, ◌≡◌, ap, inl, inr, Option, none, some, [], ◌∷◌, arith, Bool-cases, Option-cases, length,
  Bytes, bytes_eq, GoMap, lookup, Heap, bytes_key, nat_key,
}

length-recipients :
    (h : Heap Subscriber) (o : Bytes) (subs : GoMap Bytes ℕ)
    → length (recipients h o subs) ≤ length subs
unfolding recipients
length-recipients h o [] = omega arith
length-recipients h o ((n, s) ∷ subs) = ground (arith, length-recipients h o subs)

lookup-width :
    (size : ℕ → ℕ) (k : Bytes) (t : ℕ) (topics : GoMap Bytes ℕ)
    → lookup k topics ≡ some t
    → size t ≤ width size topics
unfolding lookup width
lookup-width size k t [] e = ground arith
lookup-width size k t ((j, x) ∷ topics) e = elim (Bool-cases (bytes_eq j k)) [
  | inl same ↦ let found : x ≡ t = ground (arith, same) in omega (arith, ap size found)
  | inr other ↦
      let later : lookup k topics ≡ some t = rw other at e in
      omega (arith, lookup-width size k t topics later)
]

module _ (d : Decoders) where
  length-signed_targets :
      (m : Messenger) (t : Topic) (o : Option ℕ)
      → length (signed_targets d m t o) ≤ length t.subscribers
  unfolding signed_targets
  length-signed_targets m t none = omega arith
  length-signed_targets m t (some signer) = length-recipients m.subscriber_heap _ t.subscribers

  pub length-targets :
      (m : Messenger) (msg : Message) → length (targets d m msg) ≤ width (topic_sizes m) m.topics
  length-targets m msg = elim (Option-cases (lookup msg.topic m.topics)) [
    | inl e ↦ unfold targets in rw (e, targets, length) (omega arith)
    | inr (t, e) ↦
        unfold targets in
        rw (e, targets, length)
          (omega (
            arith,
            length-signed_targets m (topic_at m t) (signer_of d msg.payload),
            lookup-width (topic_sizes m) msg.topic t m.topics e,
          ))
  ]
