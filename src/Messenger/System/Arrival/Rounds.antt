-- ===== src/Messenger/System/Arrival/Rounds.antt =====
-- One request of a subscriber's worker, for a message on its way to a subscriber.
use rockx_dkg_cli.Messenger.System.Arrival.Frames.{targets-set}
use rockx_dkg_cli.Messenger.System.Arrival.Moves.{set_cases}
use rockx_dkg_cli.Messenger.System.Arrival.{In, OnItsWay}
use rockx_dkg_cli.Messenger.Outgoing.Retries.{deliver_posts, deliver_subscriber}
use rockx_dkg_cli.Messenger.System.{System, Sender, queue_of, set_sender, set_subscriber}
use rockx_dkg_cli.Messenger.Outgoing.{round, account, PostResult}
use rockx_dkg_cli.Messenger.Incoming.{Decoders}
use rockx_dkg_cli.Messenger.State.{Subscriber, Message, subscriber_at}
use rockx_dkg_cli.Prelude.{
  ℕ, ◌≡◌, refl, sym, subst, inl, inr, true, false, none, Option-cases, Bytes, bytes_eq, lookup,
  insert, lookup-insert, has, bytes_key, nat_key,
}

module _ (retry_key : Bytes → Bytes) where
  -- The first message with its key is posted, where its topic is followed.
  pub round_posts :
      (sub : Subscriber) (other : Message) (result : PostResult)
      → lookup (retry_key other.payload) sub.retry_data ≡ none
      → has other.topic sub.subscribes_to ≡ true
      → (round retry_key sub other result).posted ≡ true
  unfolding round account
  round_posts sub other result e h =
      rw (round, e, account)
        (deliver_posts
          (record sub { retry_data = insert (retry_key other.payload) 0 sub.retry_data }) other
          result h)

  -- A round counts for its own key.
  pub round_counts :
      (k : Bytes) (sub : Subscriber) (other : Message) (result : PostResult)
      → bytes_eq (retry_key other.payload) k ≡ false
      → lookup k (round retry_key sub other result).subscriber.retry_data ≡ lookup k sub.retry_data
  round_counts k sub other result e =
      elim (Option-cases (account (lookup (retry_key other.payload) sub.retry_data))) [
        | inl f ↦ unfold round in rw (f, round) refl
        | inr (n, f) ↦ unfold round in rw (f, round, deliver_subscriber, lookup-insert, e) refl
      ]

module _ (d : Decoders) (retry_key : Bytes → Bytes) (s : ℕ) (msg : Message) where
  -- A subscriber is replaced by one that has the message on its channel still.
  pub set_way :
      (w : System) (x : ℕ) (sub : Subscriber) (c : Sender)
      → sub.name ≡ (subscriber_at w.messenger x).name
      → (x ≡ s → In msg (queue_of w s) → In msg sub.outgoing)
      → OnItsWay d s msg w
      → OnItsWay d s msg
          (set_sender x c (record w { messenger = set_subscriber x sub w.messenger }))
  set_way w x sub c e keep (inl h) = inl (
      set_cases d retry_key s msg w.messenger x sub (λ z. In msg z.outgoing) (λ q. keep q h)
        (λ q. h))
  set_way w x sub c e keep (inr (inl h)) = inr (inl h)
  set_way w x sub c e keep (inr (inr (h, t))) =
      inr (inr (h, subst (In s) (sym (targets-set d w.messenger x sub msg e)) t))
