-- ===== src/Messenger/Invariant/Routing.antt =====
-- Whom the incoming worker sends a message to.
use rockx_dkg_cli.Prelude.{
  ℕ, ◌≡◌, refl, inl, inr, Option, none, some, [], ◌∷◌, map, arith, Bool-cases, Option-cases, All,
  All-imp, entries_found, Bytes, bytes_eq, bytes_eq_iff, GoMap, lookup, remove, Heap, bytes_key,
}
use rockx_dkg_cli.Go.Strconv.{itoa, to_int}
use rockx_dkg_cli.Messenger.State.{Messenger, Message, Subscriber, topic_at, subscriber_at}
use rockx_dkg_cli.Messenger.Incoming.{Decoders, recipients, signer_of, signed_targets, targets}
use rockx_dkg_cli.Messenger.Invariant.Defs.{IsConsistent}

-- The worker compares names and not keys: the two agree where every subscriber is under its name.
recipients-remove :
    (h : Heap Subscriber) (id : Bytes) (subs : GoMap Bytes ℕ)
    → All (λ p. (h.cell p.1).name ≡ p.0) subs
    → recipients h id subs ≡ map (λ p. p.1) (remove id subs)
unfolding recipients remove
recipients-remove h id [] a = refl
recipients-remove h id ((n, s) ∷ subs) (same, a) =
    ground
      (arith, recipients-remove h id subs a, bytes_eq_iff id (h.cell s).name, bytes_eq_iff n id)

named :
    (m : Messenger) (k : Bytes) (t : ℕ)
    → IsConsistent m
    → lookup k m.topics ≡ some t
    → All (λ p. (subscriber_at m p.1).name ≡ p.0) (topic_at m t).subscribers
named m k t v e =
    All-imp _ _ (topic_at m t).subscribers (λ p f. (v.subscriber_named k p.0 t p.1 e f).0)
      (entries_found _ (v.subscribers_distinct k t e))

recipients-All :
    (P : ℕ → Type 0) (h : Heap Subscriber) (id : Bytes) (subs : GoMap Bytes ℕ)
    → All (λ p. P p.1) subs
    → All P (recipients h id subs)
unfolding recipients
recipients-All P h id [] a = tt
recipients-All P h id ((n, s) ∷ subs) (p, a) = elim (Bool-cases (bytes_eq id (h.cell s).name)) [
  | inl q ↦ rw q (recipients-All P h id subs a)
  | inr q ↦ rw q (p, recipients-All P h id subs a)
]

module _ (d : Decoders) where
  -- In a well-formed state, a message whose topic is known and whose payload decodes to a signer goes
  -- to every subscriber of the topic, once each and in the order of the map, except the one under
  -- the decimal text of the signer.
  pub targets_fan_out :
      (m : Messenger) (msg : Message) (t signer : ℕ)
      → IsConsistent m
      → lookup msg.topic m.topics ≡ some t
      → signer_of d msg.payload ≡ some signer
      → targets d m msg ≡ map (λ p. p.1) (remove (itoa (to_int signer)) (topic_at m t).subscribers)
  unfolding targets signed_targets
  targets_fan_out m msg t signer v e f =
      rw (e, targets, f)
        (recipients-remove m.subscriber_heap (itoa (to_int signer)) (topic_at m t).subscribers
          (named m msg.topic t v e))

  signed-All :
      (P : ℕ → Type 0) (m : Messenger) (k : Bytes) (t : ℕ)
      → ((n : Bytes) (s : ℕ) → lookup n (topic_at m t).subscribers ≡ some s → P s)
      → IsConsistent m
      → lookup k m.topics ≡ some t
      → (o : Option ℕ) → All P (signed_targets d m (topic_at m t) o)
  unfolding signed_targets
  signed-All P m k t h v e none = tt
  signed-All P m k t h v e (some signer) =
      recipients-All P m.subscriber_heap (itoa (to_int signer)) (topic_at m t).subscribers (
        All-imp _ _ (topic_at m t).subscribers (λ p f. h p.0 p.1 f)
          (entries_found _ (v.subscribers_distinct k t e)))

  -- What holds of every subscriber of the message's topic holds of every target.
  pub targets-All :
      (P : ℕ → Type 0) (m : Messenger) (msg : Message)
      → ((n : Bytes) (t s : ℕ)
          → lookup msg.topic m.topics ≡ some t
          → lookup n (topic_at m t).subscribers ≡ some s
          → P s)
      → IsConsistent m
      → All P (targets d m msg)
  unfolding targets
  targets-All P m msg h v = elim (Option-cases (lookup msg.topic m.topics)) [
    | inl e ↦ rw (e, targets) tt
    | inr (t, e) ↦
        rw (e, targets)
          (signed-All P m msg.topic t (λ n s f. h n t s e f) v e (signer_of d msg.payload))
  ]
