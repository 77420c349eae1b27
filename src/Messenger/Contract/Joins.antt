-- ===== src/Messenger/Contract/Joins.antt =====
-- A node that has registered, and the messages of the topic that reach it: HandleNodeRegistration and
-- then ProcessIncomingMessageWorker.
use rockx_dkg_cli.Messenger.Invariant.Register.{registration-IsConsistent}
use rockx_dkg_cli.Messenger.Invariant.Defs.{IsConsistent}
use rockx_dkg_cli.Go.Strconv.{itoa, i63, to_int, itoa-to_int, decimal-injective, decimal-ne-nil}
use rockx_dkg_cli.Messenger.Contract.Nodes.{register_first, register_again}
use rockx_dkg_cli.Workers.{Runner}
use rockx_dkg_cli.Messenger.State.{
  Messenger, Subscriber, Worker, topic_at, subscriber_at, default_topic, Message,
}
use rockx_dkg_cli.Messenger.Register.{
  handle_node_registration, register, register_new, register_body, register_existing, is_empty,
}
use rockx_dkg_cli.Messenger.Incoming.{recipients, Decoders, signer_of, targets, signed_targets}
use rockx_dkg_cli.Prelude.{
  ℕ, ◌≡◌, refl, ◌∙◌, ◌≢◌, inl, inr, Bool, true, false, ◌||◌, some, List, [], ◌∷◌, arith, ◌==◌,
  Option-cases, Bytes, GoMap, lookup, Heap, bytes_key, nat_key, ◌<◌, sym, ap, not, ==_iff,
  Bool-cases, bytes_eq, bytes_eq_iff, subst,
}

abbrev pub holds : List ℕ → ℕ → Bool
holds [] s = false
holds (x ∷ xs) s = x == s || holds xs s

register-topics :
    (k n addr : Bytes) (t : ℕ) (m : Messenger) (r : Runner Worker)
    → (register k t n addr (m, r)).0.topics ≡ m.topics
unfolding register register_new register_existing
register-topics k n addr t m r = ground arith

-- The subscriber of a name after its registration.
register-lookup :
    (k n addr : Bytes) (t : ℕ) (m : Messenger) (r : Runner Worker)
    → (s : ℕ) × (lookup n (topic_at (register k t n addr (m, r)).0 t).subscribers ≡ some s)
      × ((subscriber_at (register k t n addr (m, r)).0 s).srv_addr ≡ addr)
register-lookup k n addr t m r = elim (Option-cases (lookup n (topic_at m t).subscribers)) [
  | inl e ↦
      let (found, cells, jobs) = register_first k n addr t m r e in
      (
        m.subscriber_heap.next,
        found,
        ap (λ (z : Subscriber). z.srv_addr) (cells m.subscriber_heap.next)
            ∙ rw ((==_iff m.subscriber_heap.next m.subscriber_heap.next).1 refl) refl,
      )
  | inr (s, e) ↦
      let (_, cells, subs, _, _, _, _) = register_again k n addr t s m r e in
      (
        s,
        subs t n ∙ e,
        ap (λ (z : Subscriber). z.srv_addr) (cells s) ∙ rw ((==_iff s s).1 refl) refl,
      )
]

not_empty : (s : Bytes) → s ≢ [] → is_empty s ≡ false
unfolding is_empty
not_empty [] h = absurd (h refl)
not_empty (c ∷ s) h = refl

pub handled-register :
    (k n addr : Bytes) (t : ℕ) (m : Messenger) (r : Runner Worker)
    → lookup k m.topics ≡ some t
    → n ≢ []
    → addr ≢ []
    → (handle_node_registration k (some (record { name = n; srv_addr = addr })) (m, r)).0
      ≡ register k t n addr (m, r)
unfolding handle_node_registration register_body is_empty
handled-register k n addr t m r e n_filled addr_filled =
    rw (e, handle_node_registration) (rw (not_empty n n_filled, not_empty addr addr_filled) refl)

pub or_true : (b : Bool) → (b || true) ≡ true
or_true true = refl
or_true false = refl

-- Nobody that is named like the signer is among the recipients.
recipients-other :
    (h : Heap Subscriber) (id : Bytes) (subs : GoMap Bytes ℕ) (s : ℕ)
    → (h.cell s).name ≡ id
    → holds (recipients h id subs) s ≡ false
unfolding recipients
recipients-other h id [] s e = refl
recipients-other h id ((n, x) ∷ subs) s e = elim (Bool-cases (bytes_eq id (h.cell x).name)) [
  | inl same ↦ rw same (recipients-other h id subs s e)
  | inr differs ↦ rw differs (elim (Bool-cases (x == s)) [
    | inl here ↦
        let named : (h.cell x).name ≡ id = ap (λ z. (h.cell z).name) ((==_iff x s).0 here) ∙ e in
        let clash : bytes_eq id (h.cell x).name ≡ true =
          (bytes_eq_iff id (h.cell x).name).1 (sym named) in
        ground (arith, clash, differs)
    | inr there ↦ rw there (recipients-other h id subs s e)
  ])
]

recipients-found :
    (h : Heap Subscriber) (id n : Bytes) (subs : GoMap Bytes ℕ) (s : ℕ)
    → lookup n subs ≡ some s
    → (h.cell s).name ≢ id
    → holds (recipients h id subs) s ≡ true
unfolding recipients lookup
recipients-found h id n [] s e other = ground (arith, e)
recipients-found h id n ((k, x) ∷ subs) s e other = elim (Bool-cases (bytes_eq k n)) [
  | inl here ↦
      let found : x ≡ s = ground (arith, e, here) in
      elim (Bool-cases (bytes_eq id (h.cell x).name)) [
        | inl same ↦ absurd (
            other (
              ap (λ z. (h.cell z).name) (sym found)
              ∙ sym ((bytes_eq_iff id (h.cell x).name).0 same)))
        | inr differs ↦ rw (differs, (==_iff x s).1 found) refl
      ]
  | inr there ↦
      let later : lookup n subs ≡ some s = rw there at e in
      let rest = recipients-found h id n subs s later other in
      elim (Bool-cases (bytes_eq id (h.cell x).name)) [
        | inl same ↦ rw same rest
        | inr differs ↦ rw (differs, rest) (or_true (x == s))
      ]
]

texts_differ : (i j : ℕ) → i < i63 → j < i63 → (i == j) ≡ false → itoa (to_int i) ≢ itoa (to_int j)
texts_differ i j i_small j_small other e =
    let same : i ≡ j =
      decimal-injective i j (sym (itoa-to_int i i_small) ∙ e ∙ itoa-to_int j j_small) in
    ground (arith, (==_iff i j).1 same, other)

-- What the messenger makes of the registration that the client of a node with this identifier posts.
abbrev pub joined_node : (i : ℕ) (addr : Bytes) → Messenger → Runner Worker → Messenger
joined_node i addr m r =
    (handle_node_registration default_topic
      (some (record { name = itoa (to_int i); srv_addr = addr })) (m, r)).0.0

joined-register :
    (i t : ℕ) (addr : Bytes) (m : Messenger) (r : Runner Worker)
    → i < i63
    → addr ≢ []
    → lookup default_topic m.topics ≡ some t
    → joined_node i addr m r ≡ (register default_topic t (itoa (to_int i)) addr (m, r)).0
joined-register i t addr m r i_small filled found =
    ap (λ z. z.0)
      (handled-register default_topic (itoa (to_int i)) addr t m r found
        (rw (itoa-to_int i i_small) (decimal-ne-nil i)) filled)

pub joined-topics :
    (i t : ℕ) (addr : Bytes) (m : Messenger) (r : Runner Worker)
    → i < i63
    → addr ≢ []
    → lookup default_topic m.topics ≡ some t
    → lookup default_topic (joined_node i addr m r).topics ≡ some t
joined-topics i t addr m r i_small filled found =
    subst (λ (z : Messenger). lookup default_topic z.topics ≡ some t)
      (sym (joined-register i t addr m r i_small filled found))
      (ap (lookup default_topic) (register-topics default_topic (itoa (to_int i)) addr t m r)
        ∙ found)

module _ (d : Decoders) where
  -- Under a name that is the text of an identifier.
  pub routes :
      (i j t s : ℕ) (m : Messenger) (msg : Message)
      → i < i63
      → j < i63
      → IsConsistent m
      → lookup msg.topic m.topics ≡ some t
      → lookup (itoa (to_int i)) (topic_at m t).subscribers ≡ some s
      → signer_of d msg.payload ≡ some j
      → holds (targets d m msg) s ≡ not (i == j)
  unfolding targets signed_targets
  routes i j t s m msg i_small j_small v found known signed =
      let named : (subscriber_at m s).name ≡ itoa (to_int i) =
        (v.subscriber_named msg.topic (itoa (to_int i)) t s found known).0 in
      rw (found, targets, signed)
        (elim (Bool-cases (i == j)) [
          | inl own ↦ rw own (
              recipients-other m.subscriber_heap (itoa (to_int j)) (topic_at m t).subscribers s
                (named ∙ ap (λ z. itoa (to_int z)) ((==_iff i j).0 own)))
          | inr other ↦ rw other (
              recipients-found m.subscriber_heap (itoa (to_int j)) (itoa (to_int i))
                (topic_at m t).subscribers s known
                (λ e. texts_differ i j i_small j_small other (sym named ∙ e)))
        ])

  -- A node that registers with an identifier below 2^63 and an address that is not empty, at a
  -- well-formed messenger with the default topic, has one subscriber under its name and address. A
  -- message of the default topic that another such identifier has signed is sent on to it, and its
  -- own messages are not sent back to it.
  pub joined_hears :
      (i j t : ℕ) (addr : Bytes) (m : Messenger) (r : Runner Worker) (msg : Message)
      → i < i63
      → j < i63
      → addr ≢ []
      → IsConsistent m
      → lookup default_topic m.topics ≡ some t
      → msg.topic ≡ default_topic
      → signer_of d msg.payload ≡ some j
      → (s : ℕ) × (lookup (itoa (to_int i)) (topic_at (joined_node i addr m r) t).subscribers
          ≡ some s)
        × ((subscriber_at (joined_node i addr m r) s).srv_addr ≡ addr)
        × (holds (targets d (joined_node i addr m r) msg) s ≡ not (i == j))
  joined_hears i j t addr m r msg i_small j_small filled v found on signed =
      let n : Bytes = itoa (to_int i) in
      let same = joined-register i t addr m r i_small filled found in
      let sound : IsConsistent (joined_node i addr m r) =
        registration-IsConsistent default_topic _ m r v in
      let (s, known, at_addr) = register-lookup default_topic n addr t m r in
      let here : lookup n (topic_at (joined_node i addr m r) t).subscribers ≡ some s =
        subst (λ (z : Messenger). lookup n (topic_at z t).subscribers ≡ some s) (sym same) known in
      let topic = joined-topics i t addr m r i_small filled found in
      (
        s,
        here,
        subst (λ (z : Messenger). (subscriber_at z s).srv_addr ≡ addr) (sym same) at_addr,
        routes i j t s (joined_node i addr m r) msg i_small j_small sound (rw on topic) here signed,
      )
