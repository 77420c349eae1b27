-- ===== src/Messenger/System/Arrival/Moves.antt =====
-- One step of a worker, for a message on its way.
use rockx_dkg_cli.Messenger.State.{Message, Messenger, Subscriber, subscriber_at}
use rockx_dkg_cli.Messenger.Incoming.{Decoders, targets}
use rockx_dkg_cli.Prelude.{
  ℕ, ◌≡◌, refl, sym, ap, subst, ◌∙◌, inl, inr, false, List, [], ◌∷◌, ◌++◌, arith, ◌==◌, ==_iff,
  Bool-cases, Bytes,
}
use rockx_dkg_cli.Messenger.System.Arrival.{In, OnItsWay}
use rockx_dkg_cli.Messenger.System.Arrival.Frames.{In-left, In-last, put-here, targets-set}
use rockx_dkg_cli.Messenger.System.{
  System, fanning, Message, Decoders, set_sender, Router, push, Sender, set_subscriber,
}

fanning-injective :
    (a b : Message) (ss ts : List ℕ) → fanning a ss ≡ fanning b ts → (a ≡ b) × (ss ≡ ts)
fanning-injective a b ss ts e = (cc, cc)

module _ (d : Decoders) (retry_key : Bytes → Bytes) (s : ℕ) (msg : Message) where
  -- The subscriber at `s` after another has been set at `x`.
  pub set_cases :
      (m : Messenger) (x : ℕ) (sub : Subscriber) (P : Subscriber → Type 0)
      → (x ≡ s → P sub)
      → ((x == s) ≡ false → P (subscriber_at m s))
      → P (subscriber_at (set_subscriber x sub m) s)
  set_cases m x sub P here there = elim (Bool-cases (x == s)) [
    | inl same ↦ rw same (here ((==_iff x s).0 same))
    | inr other ↦ rw other (there other)
  ]

  -- A message that is put on a channel hides no other.
  pushed_queue :
      (m : Messenger) (x : ℕ) (added : Message)
      → In msg (subscriber_at m s).outgoing
      → In msg (subscriber_at (push x added m) s).outgoing
  pushed_queue m x added h =
      set_cases m x
        (record (subscriber_at m x) { outgoing = (subscriber_at m x).outgoing ++ added ∷ [] })
        (λ z. In msg z.outgoing)
        (λ same.
          In-left msg _ (added ∷ [])
            (subst (λ y. In msg (subscriber_at m y).outgoing) (sym same) h))
        (λ other. h)

  pushed_last : (m : Messenger) → In msg (subscriber_at (push s msg m) s).outgoing
  pushed_last m =
      subst (λ (z : Subscriber). In msg z.outgoing)
        (sym (
          put-here m.subscriber_heap s
            (record (subscriber_at m s) { outgoing = (subscriber_at m s).outgoing ++ msg ∷ [] })))
        (In-last msg (subscriber_at m s).outgoing)

  pub pushed_counts :
      (m : Messenger) (x : ℕ) (added : Message)
      → (subscriber_at (push x added m) s).retry_data ≡ (subscriber_at m s).retry_data
  pushed_counts m x added =
      set_cases m x
        (record (subscriber_at m x) { outgoing = (subscriber_at m x).outgoing ++ added ∷ [] })
        (λ z. z.retry_data ≡ (subscriber_at m s).retry_data)
        (λ same. ap (λ y. (subscriber_at m y).retry_data) same) (λ other. refl)

  pushed_targets :
      (m : Messenger) (x : ℕ) (added : Message)
      → In s (targets d m msg)
      → In s (targets d (push x added m) msg)
  pushed_targets m x added h =
      subst (In s)
        (sym (
          targets-set d m x
            (record (subscriber_at m x) { outgoing = (subscriber_at m x).outgoing ++ added ∷ [] })
            msg refl))
        h

  pub forwards_way :
      (w : System) (added : Message) (x : ℕ) (ss : List ℕ)
      → w.router ≡ fanning added (x ∷ ss)
      → OnItsWay d s msg w
      → OnItsWay d s msg
          (record w { messenger = push x added w.messenger; router = fanning added ss })
  forwards_way w added x ss e (inl h) = inl (pushed_queue w.messenger x added h)
  forwards_way w added x ss e (inr (inr (h, t))) =
      inr (inr (h, pushed_targets w.messenger x added t))
  forwards_way w added x ss e (inr (inl (ts, f, h))) =
      let (same, rest) = fanning-injective added msg (x ∷ ss) ts (sym e ∙ f) in
      elim (subst (In s) (sym rest) h) [
        | inl here ↦ inl (
            subst (λ a. In msg (subscriber_at (push x a w.messenger) s).outgoing) (sym same)
              (subst (λ y. In msg (subscriber_at (push y msg w.messenger) s).outgoing) (sym here)
                (pushed_last w.messenger)))
        | inr later ↦ inr (inl (ss, ap (λ z. fanning z ss) same, later))
      ]

  pub receives_way :
      (w : System) (taken : Message) (rest : List Message)
      → w.router ≡ Router.waiting
      → w.messenger.incoming ≡ taken ∷ rest
      → OnItsWay d s msg w
      → OnItsWay d s msg (record w {
        messenger = record w.messenger { incoming = rest };
        router = fanning taken (targets d w.messenger taken);
      })
  unfolding targets rockx_dkg_cli.Messenger.Incoming.signed_targets
  receives_way w taken rest e f (inl h) = inl h
  receives_way w taken rest e f (inr (inl (ts, g, h))) = ground (arith, e, g)
  receives_way w taken rest e f (inr (inr (h, t))) = elim (subst (In msg) f h) [
    | inl here ↦
        inr (inl (targets d w.messenger msg, ap (λ z. fanning z (targets d w.messenger z)) here, t))
    | inr later ↦ inr (inr (later, t))
  ]

  pub finishes_way :
      (w : System) (done : Message)
      → w.router ≡ fanning done []
      → OnItsWay d s msg w
      → OnItsWay d s msg (record w { router = Router.waiting })
  finishes_way w done e (inl h) = inl h
  finishes_way w done e (inr (inr (h, t))) = inr (inr (h, t))
  finishes_way w done e (inr (inl (ts, f, h))) =
      let (same, none_left) = fanning-injective done msg [] ts (sym e ∙ f) in
      absurd (subst (In s) (sym none_left) h)

  pub requeues_way :
      (w : System) (x : ℕ) (added : Message)
      → OnItsWay d s msg w
      → OnItsWay d s msg
          (set_sender x Sender.waiting (record w { messenger = push x added w.messenger }))
  requeues_way w x added (inl h) = inl (pushed_queue w.messenger x added h)
  requeues_way w x added (inr (inl h)) = inr (inl h)
  requeues_way w x added (inr (inr (h, t))) = inr (inr (h, pushed_targets w.messenger x added t))
