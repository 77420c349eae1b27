-- ===== src/Delivery/Rounds.antt =====
-- The rounds of one message between the messenger and a node.
use Prim.Native.Nat.{min}
use rockx_dkg_cli.Node.Routes.Shown.{consume_served}
use rockx_dkg_cli.Net.{Answer}
use rockx_dkg_cli.Messenger.Outgoing.Retries.{
  budget, account_spent, account_counts, deliver_posts, deliver_subscriber,
}
use rockx_dkg_cli.Delivery.{
  consume, post_message, exchange, handed, Refuses, once_more, post_result, Exchange,
}
use rockx_dkg_cli.Messenger.State.{Subscriber, Message}
use rockx_dkg_cli.Node.Routes.{DkgNode}
use rockx_dkg_cli.Messenger.Outgoing.{deliver, after_post, round, answered, account}
use rockx_dkg_cli.Web.{Web, WebLaw}
use rockx_dkg_cli.Prelude.{
  ℕ, zero, suc, ◌+◌, ◌-◌, ◌<◌, ◌≡◌, refl, sym, ap, subst, ◌∙◌, ◌⊎◌, inl, inr, true, false, not,
  none, some, arith, ◌==◌, Option-cases, beq_refl, Bytes, lookup, insert, lookup-insert, has,
  bytes_key, nat_key,
}

deliver_again :
    (s : Subscriber) (msg : Message) (code : ℕ)
    → has msg.topic s.subscribes_to ≡ true
    → (deliver s msg (answered code)).again ≡ not (code == 200)
unfolding deliver after_post
deliver_again s msg code h = ground arith

module _ {N M S Sk Pk : Type 0} (retry_key : Bytes → Bytes) (web : Web)
    (lib : DkgNode N M S Sk Pk) where
  module _ (addr : Bytes) (law : WebLaw web addr) where
    served_at :
        (s : Subscriber) (msg : Message) (n : N)
        → s.srv_addr ≡ addr
        → post_message retry_key web lib s.srv_addr msg n
          ≡ ((consume retry_key web lib msg n).0, answered (consume retry_key web lib msg n).1)
    unfolding post_message
    served_at s msg n at =
        ap (λ a. post_message retry_key web lib a msg n) at
        ∙ ap (λ (out : N × Answer). (out.0, post_result out.1))
            (consume_served web addr law lib msg.payload n)

    -- A subscriber at the address that follows the topic, with so many requests left for the message.
    pub record Ready (left : ℕ) (msg : Message) (s : Subscriber) : Type 0 where
      pub addressed : s.srv_addr ≡ addr
      pub follows : has msg.topic s.subscribes_to ≡ true
      pub left_to_make : budget (lookup (retry_key msg.payload) s.retry_data) ≡ left

    -- One round with requests left: it makes one, and keeps the message where it is refused.
    one_round :
        (left : ℕ) (msg : Message) (s : Subscriber) (code : ℕ)
        → Ready (suc left) msg s
        → let r = round retry_key s msg (answered code) in
          (r.posted ≡ true) × (r.again ≡ not (code == 200)) × Ready left msg r.subscriber
    one_round left msg s code v =
        let k : Bytes = retry_key msg.payload in
        elim (Option-cases (account (lookup k s.retry_data))) [
          | inl e ↦ absurd (omega (arith, account_spent (lookup k s.retry_data) e, v.left_to_make))
          | inr (n, e) ↦
              let counted : Subscriber = record s { retry_data = insert k n s.retry_data } in
              let same : round retry_key s msg (answered code)
                  ≡ deliver counted msg (answered code) =
                unfold round in rw (e, round) refl in
              let count : lookup k (insert k n s.retry_data) ≡ some n =
                lookup-insert k k n s.retry_data ∙ rw (beq_refl k) refl in
              rw same (
                deliver_posts counted msg (answered code) v.follows,
                deliver_again counted msg code v.follows,
                rw (deliver_subscriber counted msg (answered code)) (record {
                  addressed = v.addressed;
                  follows = v.follows;
                  left_to_make =
                      rw count
                        (omega (arith, account_counts (lookup k s.retry_data) n e, v.left_to_make));
                }),
              )
        ]

    spent_round :
        (msg : Message) (s : Subscriber) (code : ℕ)
        → Ready 0 msg s
        → let r = round retry_key s msg (answered code) in (r.posted ≡ false) × (r.again ≡ false)
    spent_round msg s code v =
        let k : Bytes = retry_key msg.payload in
        elim (Option-cases (account (lookup k s.retry_data))) [
          | inl e ↦ unfold round in rw (e, round) (refl, refl)
          | inr (n, e) ↦
              absurd (omega (arith, account_counts (lookup k s.retry_data) n e, v.left_to_make))
        ]

    -- One refused round of an exchange.
    refusal :
        (left f : ℕ) (msg : Message) (s : Subscriber) (n : N)
        → Ready (suc left) msg s
        → ((consume retry_key web lib msg n).1 == 200) ≡ false
        → let s' =
            (round retry_key s msg (answered (consume retry_key web lib msg n).1)).subscriber in
          exchange retry_key web lib (suc f) msg s n
          ≡ once_more retry_key web lib
              (exchange retry_key web lib f msg s' (consume retry_key web lib msg n).0)
    unfolding exchange
    refusal left f msg s n v h =
        rw
          (
            served_at s msg n v.addressed,
            (one_round left msg s (consume retry_key web lib msg n).1 v).1,
            h,
          )
          refl

    -- The first `k` requests are refused, and what follows goes on from there.
    refusals :
        (k left f b g : ℕ) (msg : Message) (s : Subscriber) (n : N)
        → b ≡ k + left
        → g ≡ k + f
        → Ready b msg s
        → Refuses retry_key web lib k msg n
        → (s' : Subscriber) × Ready left msg s'
          × ((exchange retry_key web lib g msg s n).node
              ≡ (exchange retry_key web lib f msg s' (handed retry_key web lib k msg n)).node)
          × ((exchange retry_key web lib g msg s n).posts
              ≡ k + (exchange retry_key web lib f msg s' (handed retry_key web lib k msg n)).posts)
    unfolding handed
    refusals zero left f b g msg s n p q v h =
        let bl : b ≡ left = omega (arith, p) in
        let gf : g ≡ f = omega (arith, q) in
        (
          s,
          subst (λ z. Ready z msg s) bl v,
          ap (λ z. (exchange retry_key web lib z msg s n).node) gf,
          ap (λ z. (exchange retry_key web lib z msg s n).posts) gf ∙ omega arith,
        )
    refusals (suc k) left f b g msg s n p q v (h, hs) =
        let pb : b ≡ suc (k + left) = omega (arith, p) in
        let pg : g ≡ suc (k + f) = omega (arith, q) in
        let v' : Ready (suc (k + left)) msg s = subst (λ z. Ready z msg s) pb v in
        let next = (one_round (k + left) msg s (consume retry_key web lib msg n).1 v').2 in
        let step =
          ap (λ z. exchange retry_key web lib z msg s n) pg
          ∙ refusal (k + left) (k + f) msg s n v' h in
        let (s', w, nodes, posts) =
          refusals k left f (k + left) (k + f) msg _ (consume retry_key web lib msg n).0 refl refl
            next hs in
        (
          s',
          w,
          ap (λ (e : Exchange N). e.node) step ∙ nodes,
          ap (λ (e : Exchange N). e.posts) step ∙ omega (arith, posts),
        )

    ends_there :
        (left f : ℕ) (msg : Message) (s : Subscriber) (n : N)
        → Ready (suc left) msg s
        → ((consume retry_key web lib msg n).1 == 200) ≡ true
        → ((exchange retry_key web lib (suc f) msg s n).node ≡ (consume retry_key web lib msg n).0)
          × ((exchange retry_key web lib (suc f) msg s n).posts ≡ 1)
    unfolding exchange
    ends_there left f msg s n v h =
        let (posted, again, next) = one_round left msg s (consume retry_key web lib msg n).1 v in
        rw (served_at s msg n v.addressed, again, h, posted) (refl, refl)

    gives_up :
        (f : ℕ) (msg : Message) (s : Subscriber) (n : N)
        → Ready 0 msg s
        → ((exchange retry_key web lib (suc f) msg s n).node ≡ n)
          × ((exchange retry_key web lib (suc f) msg s n).posts ≡ 0)
    unfolding exchange
    gives_up f msg s n v =
        let (posted, again) = spent_round msg s (consume retry_key web lib msg n).1 v in
        rw (served_at s msg n v.addressed, again, posted) (refl, refl)

    handed_last :
        (k : ℕ) (msg : Message) (n : N)
        → handed retry_key web lib (suc k) msg n
          ≡ (consume retry_key web lib msg (handed retry_key web lib k msg n)).0
    unfolding handed
    handed_last zero msg n = refl
    handed_last (suc k) msg n = handed_last k msg (consume retry_key web lib msg n).0

  -- A message on a topic that the subscriber follows, with a retry key that is new to it, while a
  -- node is served under the subscriber's address, with the laws of URLs and routes. Where the node
  -- refuses it `k` times, and then takes it or has refused it eleven times, the worker makes one
  -- request more than was refused, but eleven at most, hands the message to the node as often, and
  -- then is done with it. Twelve rounds are enough.
  pub exchange_lem :
      (k f : ℕ) (msg : Message) (s : Subscriber) (n : N)
      → WebLaw web s.srv_addr
      → has msg.topic s.subscribes_to ≡ true
      → lookup (retry_key msg.payload) s.retry_data ≡ none
      → Refuses retry_key web lib k msg n
      → (k ≡ 11)
        ⊎ ((k < 11)
            × (((consume retry_key web lib msg (handed retry_key web lib k msg n)).1 == 200)
                ≡ true))
      → ((exchange retry_key web lib (12 + f) msg s n).posts ≡ min (k + 1) 11)
        × ((exchange retry_key web lib (12 + f) msg s n).node
            ≡ handed retry_key web lib (min (k + 1) 11) msg n)
  exchange_lem k f msg s n law follows fresh refused (inl all) =
      let ready : Ready s.srv_addr law 11 msg s = record {
        addressed = refl;
        follows = follows;
        left_to_make = rw fresh refl;
      } in
      let (s', w, nodes, posts) =
        refusals s.srv_addr law k 0 (suc f) 11 (12 + f) msg s n (omega (arith, all))
          (omega (arith, all)) ready refused in
      let (last, none_more) =
        gives_up s.srv_addr law f msg s' (handed retry_key web lib k msg n) w in
      let count : k ≡ min (k + 1) 11 = omega (arith, all) in
      (
        omega (arith, posts, none_more, all),
        nodes ∙ last ∙ ap (λ z. handed retry_key web lib z msg n) count,
      )
  exchange_lem k f msg s n law follows fresh refused (inr (below, taken)) =
      let ready : Ready s.srv_addr law 11 msg s = record {
        addressed = refl;
        follows = follows;
        left_to_make = rw fresh refl;
      } in
      let (s', w, nodes, posts) =
        refusals s.srv_addr law k (suc (10 - k)) (suc (11 + f - k)) 11 (12 + f) msg s n
          (omega (arith, below)) (omega (arith, below)) ready refused in
      let (last, one) =
        ends_there s.srv_addr law (10 - k) (11 + f - k) msg s' (handed retry_key web lib k msg n) w
          taken in
      let count : suc k ≡ min (k + 1) 11 = omega (arith, below) in
      (
        omega (arith, posts, one, below),
        nodes
            ∙ last
            ∙ sym (handed_last s.srv_addr law k msg n)
            ∙ ap (λ z. handed retry_key web lib z msg n) count,
      )
