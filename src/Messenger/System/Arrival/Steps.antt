-- ===== src/Messenger/System/Arrival/Steps.antt =====
-- Every step of a worker posts the message to the subscriber's node or leaves it on its way.
use rockx_dkg_cli.Messenger.System.Arrival.Moves.{set_cases}
use rockx_dkg_cli.Messenger.Invariant.Defs.{Follows}
use rockx_dkg_cli.Messenger.System.Arrival.Rounds.{round_posts, set_way, round_counts}
use rockx_dkg_cli.Messenger.Outgoing.Retries.{Keeps, round-Keeps}
use rockx_dkg_cli.Messenger.System.Arrival.{Pending, Posts, In}
use rockx_dkg_cli.Messenger.System.Sound.Defs.{IsSound}
use rockx_dkg_cli.Messenger.Outgoing.{PostResult, round, Round}
use rockx_dkg_cli.Messenger.System.{System, PostResult, answer, Sender, queue_of, posts}
use rockx_dkg_cli.Messenger.State.{Message, subscriber_at}
use rockx_dkg_cli.Messenger.Incoming.{Decoders}
use rockx_dkg_cli.Prelude.{
  ℕ, ◌≡◌, sym, ap, subst, ◌∙◌, ◌⊎◌, inl, inr, true, false, none, List, ◌∷◌, arith, ◌==◌, ==_iff,
  Bool-cases, All, Bytes, bytes_eq, bytes_eq_iff, lookup, bytes_key, nat_key,
}

module _ (d : Decoders) (retry_key : Bytes → Bytes) (s : ℕ) (msg : Message) where
  -- A request with another key, or to another subscriber.
  other_round :
      (w : System) (x : ℕ) (other : Message) (rest : List Message) (result : PostResult)
      → queue_of w x ≡ other ∷ rest
      → (x ≡ s → bytes_eq (retry_key other.payload) (retry_key msg.payload) ≡ false)
      → Pending d retry_key s msg w
      → Pending d retry_key s msg (answer retry_key x other rest result w)
  unfolding answer
  other_round w x other rest result e differs p = record {
    on_its_way = set_way d retry_key s msg w x r.subscriber Sender.waiting k.name keep p.on_its_way;
    uncounted =
        set_cases d retry_key s msg w.messenger x r.subscriber
          (λ z. lookup (retry_key msg.payload) z.retry_data ≡ none)
          (λ q.
            round_counts retry_key (retry_key msg.payload)
              (record (subscriber_at w.messenger x) { outgoing = rest }) other result (differs q)
            ∙ (ap (λ y. lookup (retry_key msg.payload) (subscriber_at w.messenger y).retry_data) q
                ∙ p.uncounted))
          (λ q. p.uncounted);
  }
    where
      r : Round
      r = round retry_key (record (subscriber_at w.messenger x) { outgoing = rest }) other result

      k : Keeps (record (subscriber_at w.messenger x) { outgoing = rest }) r.subscriber
      k = round-Keeps retry_key _ other result

      keep : x ≡ s → In msg (queue_of w s) → In msg r.subscriber.outgoing
      keep q h =
          subst (In msg) (sym k.outgoing)
            (elim (subst (In msg) (ap (λ y. queue_of w y) (sym q) ∙ e) h) [
              | inl same ↦ absurd (
                  ground (
                    arith,
                    differs q,
                    (bytes_eq_iff (retry_key other.payload) (retry_key msg.payload)).1
                        (ap (λ (z : Message). retry_key z.payload) same),
                  ))
              | inr later ↦ later
            ])

  -- The first request with the message's key goes out.
  first_round :
      (w : System) (x : ℕ) (other : Message) (rest : List Message) (result : PostResult)
      → IsSound w
      → queue_of w x ≡ other ∷ rest
      → x ≡ s
      → retry_key other.payload ≡ retry_key msg.payload
      → Pending d retry_key s msg w
      → (round retry_key
          (record (subscriber_at w.messenger x) { outgoing = rest })
          other
          result).posted
        ≡ true
  first_round w x other rest result v e q same p =
      round_posts retry_key (record (subscriber_at w.messenger x) { outgoing = rest }) other result
        (ap (λ k. lookup k (subscriber_at w.messenger x).retry_data) same
          ∙ (ap (λ y. lookup (retry_key msg.payload) (subscriber_at w.messenger y).retry_data) q
              ∙ p.uncounted))
        (subst (All (Follows (subscriber_at w.messenger x))) e (v.consistent.queued x)).0

  pub posts-Pending :
      (w : System) (x : ℕ) (other : Message) (rest : List Message) (result : PostResult)
      (f : w.sender x ≡ Sender.waiting) (e : queue_of w x ≡ other ∷ rest)
      → IsSound w
      → Pending d retry_key s msg w
      → Posts d retry_key s msg (posts w x other rest result f e)
        ⊎ Pending d retry_key s msg (answer retry_key x other rest result w)
  posts-Pending w x other rest result f e v p =
      elim (Bool-cases (bytes_eq (retry_key other.payload) (retry_key msg.payload))) [
        | inr differs ↦ inr (other_round w x other rest result e (λ q. differs) p)
        | inl eq ↦ elim (Bool-cases (x == s)) [
          | inr elsewhere ↦ inr (
              other_round w x other rest result e
                (λ q. absurd (ground (arith, elsewhere, (==_iff x s).1 q))) p)
          | inl here ↦
              let same = (bytes_eq_iff (retry_key other.payload) (retry_key msg.payload)).0 eq in
              let q = (==_iff x s).0 here in
              inl (q, same, first_round w x other rest result v e q same p)
        ]
      ]
