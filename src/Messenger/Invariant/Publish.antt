-- ===== src/Messenger/Invariant/Publish.antt =====
-- Publishing, streaming and deleting keep the state well-formed.
use rockx_dkg_cli.Prelude.{
  bytes_key, ℕ, ◌≡◌, refl, Option-cases, inl, inr, some, none, Option, lookup, remove,
  lookup-remove, remove-Distinct, Bytes, GoMap, arith,
}
use rockx_dkg_cli.Dkg.{SignedOutput, BlameOutput}
use rockx_dkg_cli.Messenger.State.{Messenger, topic_at}
use rockx_dkg_cli.Messenger.Publish.{
  publish, handle_publish, handle_stream_dkg_output, handle_stream_dkg_blame,
}
use rockx_dkg_cli.Messenger.Topics.{delete_topic}
use rockx_dkg_cli.Messenger.Invariant.Defs.{IsConsistent}

-- Only `topics` and the two heaps matter.
pub same_maps-IsConsistent :
    (m m' : Messenger)
    → m'.topics ≡ m.topics
    → m'.topic_heap ≡ m.topic_heap
    → m'.subscriber_heap ≡ m.subscriber_heap
    → IsConsistent m
    → IsConsistent m'
same_maps-IsConsistent m m' p q r v =
    rw (p, q, r)
      (record {
        topic_named = v.topic_named;
        subscriber_named = v.subscriber_named;
        queued = v.queued;
        topics_distinct = v.topics_distinct;
        subscribers_distinct = v.subscribers_distinct;
      })

pub publish-IsConsistent :
    (k payload : Bytes) (m : Messenger) → IsConsistent m → IsConsistent (publish k payload m).0
unfolding publish
publish-IsConsistent k payload m =
    same_maps-IsConsistent m _ (ground arith) (ground arith) (ground arith)

pub handle_publish-IsConsistent :
    (k : Bytes) (body : Option Bytes) (m : Messenger)
    → IsConsistent m
    → IsConsistent (handle_publish k body m).0
unfolding handle_publish
handle_publish-IsConsistent k none m v = v
handle_publish-IsConsistent k (some payload) m v = publish-IsConsistent k payload m v

pub stream_output-IsConsistent :
    (k : Bytes) (body : Option (GoMap ℕ (Option SignedOutput))) (m : Messenger)
    → IsConsistent m
    → IsConsistent (handle_stream_dkg_output k body m).0
unfolding handle_stream_dkg_output
stream_output-IsConsistent k none m v = v
stream_output-IsConsistent k (some o) m v = same_maps-IsConsistent m _ refl refl refl v

pub stream_blame-IsConsistent :
    (k : Bytes) (body : Option (Option BlameOutput)) (m : Messenger)
    → IsConsistent m
    → IsConsistent (handle_stream_dkg_blame k body m).0
unfolding handle_stream_dkg_blame
stream_blame-IsConsistent k none m v = v
stream_blame-IsConsistent k (some o) m v = same_maps-IsConsistent m _ refl refl refl v

remove-IsConsistent :
    (n : Bytes) (m : Messenger)
    → IsConsistent m
    → IsConsistent (record m { topics = remove n m.topics })
remove-IsConsistent n m v = record {
  topic_named = λ k t e. ground (arith, lookup-remove n k m.topics, v.topic_named k t);
  subscriber_named =
      λ k j t s e f. ground (arith, lookup-remove n k m.topics, v.subscriber_named k j t s);
  queued = v.queued;
  topics_distinct = remove-Distinct n m.topics v.topics_distinct;
  subscribers_distinct =
      λ k t e. v.subscribers_distinct k t (ground (arith, lookup-remove n k m.topics));
}

pub delete-IsConsistent :
    (k : Bytes) (m : Messenger) → IsConsistent m → IsConsistent (delete_topic k m).0
unfolding delete_topic
delete-IsConsistent k m v = elim (Option-cases (lookup k m.topics)) [
  | inl e ↦ rw (e, delete_topic) v
  | inr (t, e) ↦ rw (e, delete_topic) (remove-IsConsistent (topic_at m t).name m v)
]
