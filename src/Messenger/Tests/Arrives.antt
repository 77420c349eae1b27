-- ===== src/Messenger/Tests/Arrives.antt =====
-- A message that goes from the incoming channel to the node of a subscriber.
use rockx_dkg_cli.Messenger.System.{next, Reach, Step}
use rockx_dkg_cli.Messenger.System.Rest.{still, goes_on, by_itself}
use rockx_dkg_cli.Messenger.System.Rest.Done.{rest_is_done}
use rockx_dkg_cli.Messenger.System.Arrival.Ends.{OnItsWay-Arrives}
use rockx_dkg_cli.Messenger.System.Arrival.{Arrives}
use rockx_dkg_cli.Messenger.System.Rest.Done.{AtRest}
use rockx_dkg_cli.Messenger.Outgoing.{answered, round, account, deliver}
use rockx_dkg_cli.Messenger.System.Rest.{Alone, goes_on}
use rockx_dkg_cli.Messenger.Incoming.{targets, signed_targets, signer_of, recipients}
use rockx_dkg_cli.Messenger.Publish.{handle_publish, publish}
use rockx_dkg_cli.Workers.{add_job, new_runner, run_once}
use rockx_dkg_cli.Messenger.Tests.{
  own_key, add_job, new_runner, handle_publish, decoders, after_publish, two_steps,
}
use rockx_dkg_cli.Messenger.Tests.Rest.{after_receipt, two_own_steps}
use rockx_dkg_cli.Messenger.System.{
  System, Router, set_sender, answer, push, Sender, fanning, boot, launch, forwards, finishes,
  starts, posts, publishes, creates, deletes, streams_output, streams_blame, registers, receives,
  requeues, queue_of, requeueing,
}
use rockx_dkg_cli.Messenger.Register.{handle_node_registration, is_empty, register, register_new}
use rockx_dkg_cli.Messenger.State.{Message, default_topic, process_outgoing, init, process_incoming}
use rockx_dkg_cli.Prelude.{
  refl, [], ◌∷◌, arith, codes, bytes_eq, lookup, insert, bytes_key, nat_key, ℕ, ◌≡◌, ap, ◌≢◌, inl,
  inr, length, ◌==◌, Bool-cases, subst, ==_iff, ◌<◌, false,
}

abbrev hi : Message
hi = record { topic = default_topic; payload = codes "hi" }

abbrev after_forward : System
after_forward = record after_receipt {
  messenger = push 0 hi after_receipt.messenger;
  router = fanning hi [];
}

abbrev after_fan : System
after_fan = record after_forward { router = Router.waiting }

abbrev all_started : System
all_started = record after_fan {
  runner = record {
    incoming_jobs = [];
    jobs = (codes "TOPIC__default", 0) ∷ (codes "SUBSCRIBER__2", 1) ∷ [];
    contexts = 2;
    cancelled = [];
    started = process_outgoing 0 ∷ process_incoming ∷ [];
  };
}

abbrev ready : System
ready = set_sender 0 Sender.waiting all_started

abbrev delivered : System
delivered = answer own_key 0 hi [] (answered 200) ready

six_own_steps : Alone decoders own_key after_publish 6 delivered
unfolding handle_node_registration lookup init bytes_eq is_empty register register_new add_job boot
    new_runner run_once handle_publish publish launch insert targets signed_targets signer_of
    recipients rockx_dkg_cli.Go.Strconv.itoa rockx_dkg_cli.Go.Strconv.to_int
    rockx_dkg_cli.Messenger.Incoming.reading rockx_dkg_cli.Messenger.Incoming.read_signed
six_own_steps =
    goes_on
      (goes_on
        (goes_on (goes_on two_own_steps (forwards after_receipt hi 0 [] refl (omega arith)) refl)
          (finishes after_forward hi refl) refl)
        (starts after_fan _ _ _ refl refl) refl)
      (posts ready 0 hi [] (answered 200) refl refl) refl

no_queue : (s : ℕ) → queue_of delivered s ≡ []
unfolding handle_node_registration lookup init bytes_eq is_empty register register_new add_job boot
    new_runner handle_publish publish insert answer round account deliver
    rockx_dkg_cli.Messenger.Outgoing.after_post
no_queue s = elim (Bool-cases (0 == s)) [
  | inl e ↦ subst (λ x. queue_of delivered x ≡ []) ((==_iff 0 s).0 e) refl
  | inr e ↦ ground (arith, e)
]

no_requeue : (s : ℕ) (m : Message) → delivered.sender s ≢ requeueing m
unfolding handle_node_registration lookup init bytes_eq is_empty register register_new add_job boot
    new_runner handle_publish publish insert answer round account deliver
    rockx_dkg_cli.Messenger.Outgoing.after_post
no_requeue s m = elim (Bool-cases (0 == s)) [ inl e ↦ rw e (λ q. cc q) | inr e ↦ rw e (λ q. cc q) ]

delivered-still :
    (u : System) (st : Step decoders own_key delivered u) → by_itself decoders own_key st ≡ false
unfolding handle_node_registration lookup init bytes_eq is_empty register register_new add_job boot
    new_runner handle_publish publish insert answer
delivered-still u (publishes w topic body room) = refl
delivered-still u (creates w body) = refl
delivered-still u (deletes w topic) = refl
delivered-still u (streams_output w id body) = refl
delivered-still u (streams_blame w id body) = refl
delivered-still u (registers w topic body room) = refl
delivered-still u (starts w j rest r e f) = ground (arith, e)
delivered-still u (receives w msg rest e f g) = ground (arith, f)
delivered-still u (forwards w msg s ss e room) = ground (arith, e)
delivered-still u (finishes w msg e) = ground (arith, e)
delivered-still u (posts w s msg rest result e f) = ground (arith, no_queue s, f)
delivered-still u (requeues w s msg e room) = absurd (no_requeue s msg e)

delivered-AtRest : AtRest decoders own_key delivered
unfolding handle_node_registration lookup init bytes_eq is_empty register register_new add_job boot
    new_runner handle_publish publish insert answer
delivered-AtRest = (delivered-still, λ p. ground (arith, p.1.2))

Alone-Reach :
    {u : System} {n : ℕ} → Alone decoders own_key after_publish n u → Reach decoders own_key boot u
Alone-Reach still = two_steps
Alone-Reach (goes_on run st own) = next (Alone-Reach run) st

rest_is_done_example :
    (delivered.runner.incoming_jobs ≡ [])
    × ((delivered.router ≡ Router.waiting) × (delivered.messenger.incoming ≡ []))
    × ((s : ℕ)
        → s < delivered.messenger.subscriber_heap.next
        → (delivered.sender s ≡ Sender.waiting) × (queue_of delivered s ≡ []))
rest_is_done_example =
    rest_is_done decoders own_key delivered (Alone-Reach six_own_steps) delivered-AtRest
      (λ j. omega (arith, ap length (no_queue j)))

OnItsWay-Arrives_example : Arrives decoders own_key 0 hi six_own_steps
unfolding handle_node_registration lookup init bytes_eq is_empty register register_new add_job boot
    new_runner handle_publish publish targets signed_targets signer_of recipients insert
    rockx_dkg_cli.Go.Strconv.itoa rockx_dkg_cli.Go.Strconv.to_int
    rockx_dkg_cli.Messenger.Incoming.reading rockx_dkg_cli.Messenger.Incoming.read_signed
OnItsWay-Arrives_example =
    OnItsWay-Arrives decoders own_key 0 hi after_publish delivered 6 two_steps
      (inr (inr (inl refl, inl refl))) refl six_own_steps delivered-AtRest
      (λ j. omega (arith, ap length (no_queue j)))
