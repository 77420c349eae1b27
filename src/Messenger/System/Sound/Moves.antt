-- ===== src/Messenger/System/Sound/Moves.antt =====
-- What the two kinds of workers do to a sound state.
use rockx_dkg_cli.Messenger.System.Sound.Defs.{
  Fanned, IsSound, Reaches, Held, Fanned-mono, Held-mono,
}
use rockx_dkg_cli.Messenger.Outgoing.Retries.{Keeps, round-Keeps}
use rockx_dkg_cli.Prelude.{
  ℕ, ◌≤◌, ◌<◌, ◌≡◌, ap, true, arith, length, All, All-imp, Bytes, has, bytes_key, subst, inl, inr,
  ◌==◌, if◌then◌else◌, ==_iff, Bool-cases, refl, Bool, false, List, [], ◌∷◌, ◌++◌, length-append,
  All-append,
}
use native.Mathlib.Decide.{dec_lt}
use rockx_dkg_cli.Messenger.State.{Messenger, Message, subscriber_at, Subscriber}
use rockx_dkg_cli.Messenger.Invariant.Defs.{IsConsistent, Follows}
use rockx_dkg_cli.Messenger.System.{
  System, Router, Sender, queue_of, channel_room, set_subscriber, push, answer, PostResult, Round,
  round,
}
use rockx_dkg_cli.Messenger.System.{requeueing}

-- An object of the heap is replaced by one that follows the same topics.
set-IsConsistent :
    (s : ℕ) (sub : Subscriber) (m : Messenger)
    → sub.name ≡ (subscriber_at m s).name
    → sub.subscribes_to ≡ (subscriber_at m s).subscribes_to
    → All (Follows sub) sub.outgoing
    → IsConsistent m
    → IsConsistent (set_subscriber s sub m)
set-IsConsistent s sub m p q f v = record {
  topic_named = v.topic_named;
  subscriber_named = λ k n t w e g. ground (arith, v.subscriber_named k n t w e g);
  queued = λ w. elim (Bool-cases (s == w)) [ inl c ↦ rw c f | inr c ↦ rw c (v.queued w) ];
  topics_distinct = v.topics_distinct;
  subscribers_distinct = v.subscribers_distinct;
}

set_more :
    (s : ℕ) (sub : Subscriber) (m : Messenger)
    → sub.subscribes_to ≡ (subscriber_at m s).subscribes_to
    → (k : Bytes) (w : ℕ) → w < m.subscriber_heap.next
    → has k (subscriber_at m w).subscribes_to ≡ true
    → has k (subscriber_at (set_subscriber s sub m) w).subscribes_to ≡ true
set_more s sub m q k w b h = ground arith

-- One subscriber changes, and stays within its room; what is on its way goes to followers.
pub set-IsSound :
    (w : System) (s : ℕ) (sub : Subscriber) (r : Router) (c : ℕ → Sender)
    → sub.name ≡ (subscriber_at w.messenger s).name
    → sub.subscribes_to ≡ (subscriber_at w.messenger s).subscribes_to
    → All (Follows sub) sub.outgoing
    → length sub.outgoing ≤ channel_room
    → s < w.messenger.subscriber_heap.next
    → Fanned w.messenger r
    → ((j : ℕ) → Held w.messenger j (c j))
    → IsSound w
    → IsSound (record w { messenger = set_subscriber s sub w.messenger; router = r; sender = c })
set-IsSound w s sub r c p q f l b fan hold v = record {
  consistent = set-IsConsistent s sub w.messenger p q f v.consistent;
  incoming_bounded = v.incoming_bounded;
  queues_bounded = λ j. ground (arith, v.queues_bounded j);
  jobs_bounded = v.jobs_bounded;
  unallocated = λ j h. ground (arith, v.unallocated j h);
  fanned = Fanned-mono w.messenger (set_subscriber s sub w.messenger) (omega arith) more r fan;
  held = λ j.
      Held-mono w.messenger (set_subscriber s sub w.messenger) (omega arith) more j (c j) (hold j);
}
  where
    more :
        (k : Bytes) (j : ℕ)
        → j < w.messenger.subscriber_heap.next
        → has k (subscriber_at w.messenger j).subscribes_to ≡ true
        → has k (subscriber_at (set_subscriber s sub w.messenger) j).subscribes_to ≡ true
    more = set_more s sub w.messenger q

pub Held-set :
    (m : Messenger) (s : ℕ) (c : Sender) (senders : ℕ → Sender)
    → Held m s c
    → ((j : ℕ) → Held m j (senders j))
    → (j : ℕ) → Held m j (if s == j then c else senders j)
Held-set m s c senders hold rest j = elim (Bool-cases (s == j)) [
  | inl e ↦ rw e (subst (λ z. Held m z c) ((==_iff s j).0 e) hold)
  | inr e ↦ rw e (rest j)
]

-- A message is put at the end of a queue with room.
pub push-IsSound :
    (w : System) (s : ℕ) (msg : Message) (r : Router) (c : ℕ → Sender)
    → Reaches w.messenger msg s
    → length (queue_of w s) < channel_room
    → Fanned w.messenger r
    → ((j : ℕ) → Held w.messenger j (c j))
    → IsSound w
    → IsSound (record w { messenger = push s msg w.messenger; router = r; sender = c })
push-IsSound w s msg r c reach room fan hold v =
    set-IsSound w s
      (record (subscriber_at w.messenger s) {
        outgoing = (subscriber_at w.messenger s).outgoing ++ msg ∷ [];
      })
      r c refl refl (All-append _ (queue_of w s) (msg ∷ []) (v.consistent.queued s) (reach.1, tt))
      (omega (arith, length-append (queue_of w s) (msg ∷ []), room)) reach.0 fan hold v

next-Held :
    (m : Messenger) (s : ℕ) (again : Bool) (msg : Message)
    → Reaches m msg s
    → Held m s (if again then requeueing msg else Sender.waiting)
next-Held m s true msg h = h
next-Held m s false msg h = tt

-- The worker takes the oldest message of its queue, and may hold it back for another try.
pub answer-IsSound :
    (retry_key : Bytes → Bytes) (w : System) (s : ℕ) (msg : Message) (rest : List Message)
    (result : PostResult)
    → queue_of w s ≡ msg ∷ rest
    → IsSound w
    → IsSound (answer retry_key s msg rest result w)
unfolding answer
answer-IsSound retry_key w s msg rest result e v =
    set-IsSound w s r.subscriber w.router _ k.name k.subscribes_to queue_follows
      (omega (arith, ap length k.outgoing, ap length e, v.queues_bounded s)) allocated v.fanned
      (Held-set w.messenger s _ w.sender (next-Held w.messenger s r.again msg (allocated, follow.0))
        v.held)
      v
  where
    r : Round
    r = round retry_key (record (subscriber_at w.messenger s) { outgoing = rest }) msg result

    k : Keeps (record (subscriber_at w.messenger s) { outgoing = rest }) r.subscriber
    k = round-Keeps retry_key _ msg result

    follow : All (Follows (subscriber_at w.messenger s)) (msg ∷ rest)
    follow = rw e at (v.consistent.queued s)

    queue_follows : All (Follows r.subscriber) r.subscriber.outgoing
    queue_follows = rw k.outgoing (All-imp _ _ rest (λ x f. rw k.subscribes_to f) follow.1)

    allocated : s < w.messenger.subscriber_heap.next
    allocated = elim (dec_lt s w.messenger.subscriber_heap.next) [
      | yes h ↦ h
      | no h ↦ absurd (omega (arith, v.unallocated s (omega arith), ap length e))
    ]
