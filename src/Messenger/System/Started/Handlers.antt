-- ===== src/Messenger/System/Started/Handlers.antt =====
-- The subscribers and the jobs that a handler adds.
use rockx_dkg_cli.Messenger.Invariant.Topics.{enlist-Enlists, start-Enlists}
use rockx_dkg_cli.Dkg.{BlameOutput, SignedOutput}
use rockx_dkg_cli.Messenger.State.{Worker, Messenger, process_outgoing, Topic, topic_at}
use rockx_dkg_cli.Workers.{Job, Runner, add_job}
use rockx_dkg_cli.Messenger.Publish.{handle_stream_dkg_output, handle_stream_dkg_blame}
use rockx_dkg_cli.Messenger.Topics.{
  delete_topic, created, handle_create_topic, TopicJson, enlist_all, install, default_of,
}
use rockx_dkg_cli.Messenger.Register.{
  register, register_body, handle_node_registration, register_new, SubscriberJson,
  register_existing, is_empty,
}
use rockx_dkg_cli.Prelude.{
  ℕ, ◌+◌, ◌≡◌, refl, ◌⊎◌, inl, inr, ◌||◌, Option, none, some, List, [], ◌∷◌, ◌++◌, arith,
  Bool-cases, Option-cases, Bytes, codes, GoMap, lookup, bytes_key, nat_key,
}

created-next :
    (k : Bytes) (m : Messenger) (o : Option Topic) (subs : List Bytes)
    → (created k m
        (enlist_all o k m.topic_heap.next subs (m.subscriber_heap, []))).0.subscriber_heap.next
      ≡ m.subscriber_heap.next
unfolding created enlist_all install
created-next k m none [] = refl
created-next k m none (sub ∷ subs) = refl
created-next k m (some d) subs =
    (enlist-Enlists d k m.topic_heap.next _ subs _ (start-Enlists d k _)).next

pub create-next :
    (body : Option TopicJson) (m : Messenger)
    → (handle_create_topic body m).0.subscriber_heap.next ≡ m.subscriber_heap.next
unfolding handle_create_topic
create-next none m = refl
create-next (some json) m = created-next json.topic_name m (default_of m) json.subscribers

pub delete-next :
    (k : Bytes) (m : Messenger) → (delete_topic k m).0.subscriber_heap.next ≡ m.subscriber_heap.next
unfolding delete_topic
delete-next k m = ground arith

pub stream_output-next :
    (k : Bytes) (body : Option (GoMap ℕ (Option SignedOutput))) (m : Messenger)
    → (handle_stream_dkg_output k body m).0.subscriber_heap.next ≡ m.subscriber_heap.next
unfolding handle_stream_dkg_output
stream_output-next k none m = refl
stream_output-next k (some o) m = refl

pub stream_blame-next :
    (k : Bytes) (body : Option (Option BlameOutput)) (m : Messenger)
    → (handle_stream_dkg_blame k body m).0.subscriber_heap.next ≡ m.subscriber_heap.next
unfolding handle_stream_dkg_blame
stream_blame-next k none m = refl
stream_blame-next k (some o) m = refl

-- No subscriber and no job is new, or one subscriber is and a job for it comes last.
abbrev pub Adds : ℕ → List (Job Worker) → ℕ → List (Job Worker) → Type 0
Adds next jobs next' jobs' =
    ((next' ≡ next) × (jobs' ≡ jobs))
    ⊎ ((id : Bytes) × (next' ≡ next + 1)
        × (jobs' ≡ jobs ++ record { id = id; fn = process_outgoing next } ∷ []))

register-Adds :
    (k n addr : Bytes) (t : ℕ) (m : Messenger) (r : Runner Worker)
    → Adds m.subscriber_heap.next r.incoming_jobs
        (register k t n addr (m, r)).0.subscriber_heap.next
        (register k t n addr (m, r)).1.incoming_jobs
unfolding register register_new register_existing add_job
register-Adds k n addr t m r = elim (Option-cases (lookup n (topic_at m t).subscribers)) [
  | inl f ↦ rw (f, register) (inr (codes "SUBSCRIBER__" ++ n, refl, refl))
  | inr (x, f) ↦ rw (f, register) (inl (refl, refl))
]

body-Adds :
    (k : Bytes) (t : ℕ) (body : Option SubscriberJson) (m : Messenger) (r : Runner Worker)
    → Adds m.subscriber_heap.next r.incoming_jobs
        (register_body k t body (m, r)).0.0.subscriber_heap.next
        (register_body k t body (m, r)).0.1.incoming_jobs
unfolding register_body
body-Adds k t none m r = inl (refl, refl)
body-Adds k t (some json) m r = elim (Bool-cases (is_empty json.name || is_empty json.srv_addr)) [
  | inl q ↦ rw q (inl (refl, refl))
  | inr q ↦ rw q (register-Adds k json.name json.srv_addr t m r)
]

pub registration-Adds :
    (k : Bytes) (body : Option SubscriberJson) (m : Messenger) (r : Runner Worker)
    → Adds m.subscriber_heap.next r.incoming_jobs
        (handle_node_registration k body (m, r)).0.0.subscriber_heap.next
        (handle_node_registration k body (m, r)).0.1.incoming_jobs
unfolding handle_node_registration
registration-Adds k body m r = elim (Option-cases (lookup k m.topics)) [
  | inl f ↦ rw (f, handle_node_registration) (inl (refl, refl))
  | inr (t, f) ↦ rw (f, handle_node_registration) (body-Adds k t body m r)
]
