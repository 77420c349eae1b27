-- ===== src/Messenger/System/Arrival/Frames.antt =====
-- What a change of one subscriber leaves of the others, of the names, and of the recipients.
use rockx_dkg_cli.Messenger.System.{set_subscriber}
use rockx_dkg_cli.Messenger.State.{Subscriber, Messenger, Topic, Message, topic_at}
use rockx_dkg_cli.Messenger.Incoming.{Decoders, recipients, targets, signed_targets, signer_of}
use rockx_dkg_cli.Prelude.{
  ℕ, ◌≡◌, refl, ap, ◌∙◌, inl, inr, false, Option, none, some, List, [], ◌∷◌, ◌++◌, ◌==◌, ==_iff,
  Bool-cases, Option-cases, Bytes, GoMap, lookup, Heap, put, bytes_key, nat_key, ◌<◌, arith, length,
}
use rockx_dkg_cli.Messenger.System.Arrival.{In, Decoders, subscriber_at}

pub In-left : {A : Type 0} (x : A) (xs ys : List A) → In x xs → In x (xs ++ ys)
In-left x [] ys h = absurd h
In-left x (y ∷ xs) ys (inl e) = inl e
In-left x (y ∷ xs) ys (inr h) = inr (In-left x xs ys h)

pub In-last : {A : Type 0} (x : A) (xs : List A) → In x (xs ++ x ∷ [])
In-last x [] = inl refl
In-last x (y ∷ xs) = inr (In-last x xs)

pub In-length : {A : Type 0} (x : A) (xs : List A) → In x xs → 0 < length xs
In-length x [] h = absurd h
In-length x (y ∷ ys) h = omega arith

pub put-here : (h : Heap Subscriber) (s : ℕ) (sub : Subscriber) → (put h s sub).cell s ≡ sub
put-here h s sub = rw ((==_iff s s).1 refl) refl

pub put-there :
    (h : Heap Subscriber) (x s : ℕ) (sub : Subscriber)
    → (x == s) ≡ false
    → (put h x sub).cell s ≡ h.cell s
put-there h x s sub e = rw e refl

put-name :
    (h : Heap Subscriber) (x : ℕ) (sub : Subscriber)
    → sub.name ≡ (h.cell x).name
    → (j : ℕ) → ((put h x sub).cell j).name ≡ (h.cell j).name
put-name h x sub e j = elim (Bool-cases (x == j)) [
  | inl same ↦ rw same (e ∙ ap (λ z. (h.cell z).name) ((==_iff x j).0 same))
  | inr other ↦ rw other refl
]

recipients-names :
    (h k : Heap Subscriber) (id : Bytes) (subs : GoMap Bytes ℕ)
    → ((j : ℕ) → (k.cell j).name ≡ (h.cell j).name)
    → recipients k id subs ≡ recipients h id subs
unfolding recipients
recipients-names h k id [] e = refl
recipients-names h k id ((n, s) ∷ subs) e = rw (e s, recipients-names h k id subs e) refl

module _ (d : Decoders) where
  signed_targets-names :
      (m : Messenger) (k : Heap Subscriber) (t : Topic) (o : Option ℕ)
      → ((j : ℕ) → (k.cell j).name ≡ (subscriber_at m j).name)
      → signed_targets d (record m { subscriber_heap = k }) t o ≡ signed_targets d m t o
  unfolding signed_targets
  signed_targets-names m k t none e = refl
  signed_targets-names m k t (some signer) e =
      recipients-names m.subscriber_heap k _ t.subscribers e

  -- A subscriber that keeps its name stays a target, and so do the others.
  pub targets-set :
      (m : Messenger) (x : ℕ) (sub : Subscriber) (msg : Message)
      → sub.name ≡ (subscriber_at m x).name
      → targets d (set_subscriber x sub m) msg ≡ targets d m msg
  unfolding targets
  targets-set m x sub msg e = elim (Option-cases (lookup msg.topic m.topics)) [
    | inl f ↦ rw (f, targets) refl
    | inr (t, f) ↦
        rw (f, targets)
          (signed_targets-names m (put m.subscriber_heap x sub) (topic_at m t)
            (signer_of d msg.payload) (put-name m.subscriber_heap x sub e))
  ]
