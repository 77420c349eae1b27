-- ===== src/Messenger/Contract/Requests.antt =====
-- The topic of a request, as the client asks for it, and whom its messages reach: CreateTopic of
-- internal/messenger/client.go, HandleCreateTopic, and ProcessIncomingMessageWorker.
use rockx_dkg_cli.Messenger.Invariant.Routing.{targets-All}
use rockx_dkg_cli.Messenger.Invariant.Topics.{create-IsConsistent}
use rockx_dkg_cli.Messenger.Contract.Joins.{holds, routes, or_true}
use rockx_dkg_cli.Messenger.Invariant.Defs.{IsConsistent}
use rockx_dkg_cli.Go.Strconv.{i63, itoa, to_int}
use rockx_dkg_cli.Messenger.State.{Messenger, Message, default_topic, topic_at, subscriber_at}
use rockx_dkg_cli.Messenger.Contract.Topics.{contains, create_topic_lem}
use rockx_dkg_cli.Messenger.Incoming.{Decoders, signer_of, targets}
use rockx_dkg_cli.Messenger.Topics.{default_of, handle_create_topic}
use rockx_dkg_cli.Prelude.{
  ℕ, ◌<◌, ◌≡◌, refl, ap, ◌∙◌, inl, inr, Bool, true, false, not, Option, none, some, List, [], ◌∷◌,
  arith, ◌==◌, if◌then◌else◌, ==_iff, Bool-cases, beq_refl, All, Bytes, bytes_eq, bytes_eq_iff,
  lookup, bytes_key, nat_key, sym, subst,
}
use rockx_dkg_cli.Client.{subscriber_names}

-- What the messenger makes of the topic that the client posts for these operators.
abbrev pub with_topic : (topic : Bytes) (ids : List ℕ) → Messenger → Messenger
with_topic topic ids m =
    (handle_create_topic (some (record { topic_name = topic; subscribers = subscriber_names ids }))
      m).0

contains-subscriber_names :
    (ids : List ℕ) (i : ℕ)
    → holds ids i ≡ true
    → contains (subscriber_names ids) (itoa (to_int i)) ≡ true
unfolding subscriber_names contains
contains-subscriber_names [] i h = ground (arith, h)
contains-subscriber_names (x ∷ ids) i h = elim (Bool-cases (x == i)) [
  | inl here ↦
      let same : itoa (to_int x) ≡ itoa (to_int i) =
        ap (λ z. itoa (to_int z)) ((==_iff x i).0 here) in
      rw ((bytes_eq_iff (itoa (to_int x)) (itoa (to_int i))).1 same) refl
  | inr there ↦
      let later : holds ids i ≡ true = rw there at h in
      rw (contains-subscriber_names ids i later)
        (or_true (bytes_eq (itoa (to_int x)) (itoa (to_int i))))
]

pub default_found :
    (m : Messenger) (t : ℕ)
    → lookup default_topic m.topics ≡ some t
    → default_of m ≡ some (topic_at m t)
unfolding default_of
default_found m t e = rw (e, default_of) refl

listed : (b : Bool) (o : Option ℕ) (s : ℕ) → (if b then o else none) ≡ some s → b ≡ true
listed true o s h = refl
listed false o s h = ground (arith, h)

module _ (d : Decoders) where
  -- At a well-formed messenger with the default topic, once the topic of a request is created for some
  -- operators, a message of that topic that an identifier below 2^63 has signed is sent on to each
  -- listed operator below 2^63 that is registered, except the signer itself, and to nobody who is not
  -- listed.
  pub topic_hears :
      (topic : Bytes) (ids : List ℕ) (i j s t : ℕ) (m : Messenger) (msg : Message)
      → i < i63
      → j < i63
      → IsConsistent m
      → lookup default_topic m.topics ≡ some t
      → lookup (itoa (to_int i)) (topic_at m t).subscribers ≡ some s
      → holds ids i ≡ true
      → msg.topic ≡ topic
      → signer_of d msg.payload ≡ some j
      → let m' = with_topic topic ids m in
        (holds (targets d m' msg) s ≡ not (i == j))
        × All
            (λ x. contains (subscriber_names ids) (subscriber_at m' x).name ≡ true)
            (targets d m' msg)
  topic_hears topic ids i j s t m msg i_small j_small v found known member on signed =
      let m' : Messenger = with_topic topic ids m in
      let (u, _, _, subs, topics, _, _, _, _) =
        create_topic_lem m (topic_at m t)
          (record { topic_name = topic; subscribers = subscriber_names ids })
          (default_found m t found) in
      let sound : IsConsistent m' = create-IsConsistent _ m v in
      let here : lookup topic m'.topics ≡ some u = topics topic ∙ rw (beq_refl topic) refl in
      (
        routes d i j u s m' msg i_small j_small sound (rw on here)
            (subs (itoa (to_int i)) ∙ rw (contains-subscriber_names ids i member) known) signed,
        targets-All d (λ x. contains (subscriber_names ids) (subscriber_at m' x).name ≡ true) m' msg
            (λ n w x p q.
              let same : some w ≡ some u = sym p ∙ ap (λ k. lookup k m'.topics) on ∙ here in
              let w_u : w ≡ u = ground (arith, same) in
              let in_topic : lookup n (topic_at m' u).subscribers ≡ some x =
                subst (λ z. lookup n (topic_at m' z).subscribers ≡ some x) w_u q in
              subst (λ z. contains (subscriber_names ids) z ≡ true)
                (sym (sound.subscriber_named msg.topic n w x p q).0)
                (listed (contains (subscriber_names ids) n) (lookup n (topic_at m t).subscribers) x
                  (sym (subs n) ∙ in_topic)))
            sound,
      )
