-- ===== src/Messenger/Outgoing/Retries.antt =====
-- How often a subscriber's worker makes the request of one message.
use Prim.Native.Nat.{min}
use rockx_dkg_cli.Prelude.{
  ℕ, ◌≡◌, refl, inl, inr, arith, Option-cases, Bytes, GoMap, lookup, bytes_key, ◌+◌, ◌-◌, ◌≤◌, ◌&&◌,
  Option, none, some, List, [], ◌∷◌, if◌then◌else◌, bytes_eq, insert, lookup-insert, ◌⊎◌, true,
  bytes_eq_iff, has, length, All, nat_key,
}
use rockx_dkg_cli.Messenger.State.{Message, Subscriber}
use rockx_dkg_cli.Messenger.Outgoing.{
  round, deliver, after_post, account, PostResult, Round, max_retries_allowed,
}

-- A round changes the retry counts alone.
pub record Keeps (a b : Subscriber) : Type 0 where
  pub name : b.name ≡ a.name
  pub srv_addr : b.srv_addr ≡ a.srv_addr
  pub subscribes_to : b.subscribes_to ≡ a.subscribes_to
  pub outgoing : b.outgoing ≡ a.outgoing

Keeps-account : (s : Subscriber) (m : GoMap Bytes ℕ) → Keeps s (record s { retry_data = m })
Keeps-account s m = record { name = refl; srv_addr = refl; subscribes_to = refl; outgoing = refl }

pub deliver_subscriber :
    (s : Subscriber) (msg : Message) (result : PostResult) → (deliver s msg result).subscriber ≡ s
unfolding deliver after_post
deliver_subscriber s msg result = ground arith

pub deliver_posts :
    (s : Subscriber) (msg : Message) (result : PostResult)
    → has msg.topic s.subscribes_to ≡ true
    → (deliver s msg result).posted ≡ true
unfolding deliver after_post
deliver_posts s msg result h = ground arith

-- The requests that are left to a message with this entry in the retry counts.
abbrev pub budget : Option ℕ → ℕ
budget none = max_retries_allowed + 1
budget (some n) = max_retries_allowed - n

pub account-budget : (o : Option ℕ) (n : ℕ) → account o ≡ some n → budget (some n) + 1 ≤ budget o
unfolding account
account-budget o n e = ground arith

pub account_spent : (o : Option ℕ) → account o ≡ none → budget o ≡ 0
unfolding account
account_spent o e = ground arith

pub account_counts : (o : Option ℕ) (n : ℕ) → account o ≡ some n → budget (some n) + 1 ≡ budget o
unfolding account
account_counts o n e = ground arith

-- One round as the channel and the topics stand when it runs: other goroutines may have changed
-- all of a subscriber but its retry counts since the round before.
pub record Turn : Type 0 where
  pub subscribes_to : GoMap Bytes ℕ
  pub message : Message
  pub result : PostResult

module _ (retry_key : Bytes → Bytes) where
  pub round-Keeps :
      (s : Subscriber) (msg : Message) (result : PostResult)
      → Keeps s (round retry_key s msg result).subscriber
  round-Keeps s msg result =
      elim (Option-cases (account (lookup (retry_key msg.payload) s.retry_data))) [
        | inl e ↦ unfold round in rw (e, round) (Keeps-account s s.retry_data)
        | inr (n, e) ↦
            unfold round in
            rw (e, round, deliver_subscriber)
              (Keeps-account s (insert (retry_key msg.payload) n s.retry_data))
      ]

  abbrev key_of : Turn → Bytes
  key_of t = retry_key t.message.payload

  abbrev pub play : Turn → Subscriber → Round
  play t s = round retry_key (record s { subscribes_to = t.subscribes_to }) t.message t.result

  abbrev pub tally : Bytes → Turn → Subscriber → ℕ
  tally k t s = if (play t s).posted && bytes_eq (key_of t) k then 1 else 0

  -- How many requests carry a message with this key.
  pub posts_for : Bytes → List Turn → Subscriber → ℕ
  posts_for k [] s = 0
  posts_for k (t ∷ ts) s = tally k t s + posts_for k ts (play t s).subscriber

  play_spends :
      (k : Bytes) (t : Turn) (s : Subscriber)
      → tally k t s + budget (lookup k (play t s).subscriber.retry_data)
        ≤ budget (lookup k s.retry_data)
  play_spends k t s = elim (Option-cases (account (lookup (key_of t) s.retry_data))) [
    | inl e ↦ unfold round in rw (e, round) (omega arith)
    | inr (n, e) ↦
        unfold round in
        rw (e, round, deliver_subscriber, lookup-insert)
          (ground
            (arith, account-budget (lookup (key_of t) s.retry_data) n e, bytes_eq_iff (key_of t) k))
  ]

  -- Whatever the worker is handed and however it is answered, the requests for messages with one key
  -- are at most eleven, and at most what the retry counts leave.
  pub posts-le-budget :
      (k : Bytes) (ts : List Turn) (s : Subscriber)
      → posts_for k ts s ≤ budget (lookup k s.retry_data)
  unfolding posts_for
  posts-le-budget k [] s = omega arith
  posts-le-budget k (t ∷ ts) s =
      omega (arith, play_spends k t s, posts-le-budget k ts (play t s).subscriber)

  -- A turn for a message with the key `k`, on a topic that the subscriber follows then.
  abbrev pub Wanted : Bytes → Turn → Type 0
  Wanted k t = (key_of t ≡ k) × (has t.message.topic t.subscribes_to ≡ true)

  play-Wanted :
      (k : Bytes) (t : Turn) (s : Subscriber)
      → Wanted k t
      → (tally k t s + budget (lookup k (play t s).subscriber.retry_data)
          ≡ budget (lookup k s.retry_data))
        × ((budget (lookup k s.retry_data) ≡ 0) ⊎ (tally k t s ≡ 1))
  play-Wanted k t s w = elim (Option-cases (account (lookup (key_of t) s.retry_data))) [
    | inl e ↦
        unfold round in
        rw (e, round)
          (omega arith, inl (ground (arith, account_spent (lookup (key_of t) s.retry_data) e)))
    | inr (n, e) ↦
        unfold round in
        rw
          (
            e,
            round,
            deliver_subscriber,
            lookup-insert,
            deliver_posts
                (record s {
                  subscribes_to = t.subscribes_to;
                  retry_data = insert (key_of t) n s.retry_data;
                })
                t.message t.result w.1,
            (bytes_eq_iff (key_of t) k).1 w.0,
          )
          (ground (arith, account_counts (lookup (key_of t) s.retry_data) n e), inr refl)
  ]

  -- While the subscriber follows the topics of a message that keeps coming back, the worker makes the
  -- request each time until the budget of its key is spent, and never after that.
  pub posts-eq-min :
      (k : Bytes) (ts : List Turn) (s : Subscriber)
      → All (Wanted k) ts
      → posts_for k ts s ≡ min (length ts) (budget (lookup k s.retry_data))
  unfolding posts_for
  posts-eq-min k [] s a = omega arith
  posts-eq-min k (t ∷ ts) s (w, a) =
      omega (arith, play-Wanted k t s w, posts-eq-min k ts (play t s).subscriber a)
