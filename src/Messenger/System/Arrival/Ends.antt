-- ===== src/Messenger/System/Arrival/Ends.antt =====
-- A message on its way has been posted where the messenger rests.
use rockx_dkg_cli.Messenger.System.Started.Steps.{Reach-IsOrderly}
use rockx_dkg_cli.Messenger.System.Sound.Steps.{Reach-IsSound}
use rockx_dkg_cli.Messenger.System.Arrival.Runs.{Alone-Pending}
use rockx_dkg_cli.Messenger.System.Rest.{Alone}
use rockx_dkg_cli.Messenger.System.Arrival.Frames.{In-length}
use rockx_dkg_cli.Messenger.System.Rest.Done.{
  AtRest, no_jobs_left, router_rests, sender_rests, router_on, sender_on,
}
use rockx_dkg_cli.Messenger.System.Arrival.{In, OnItsWay, Alone, Arrives}
use rockx_dkg_cli.Messenger.System.Sound.Defs.{IsSound}
use rockx_dkg_cli.Messenger.State.{Message, subscriber_at}
use rockx_dkg_cli.Messenger.System.Started.{IsOrderly}
use rockx_dkg_cli.Messenger.Incoming.{Decoders}
use rockx_dkg_cli.Messenger.System.{System, Router, Message, Reach, boot, queue_of, channel_room}
use rockx_dkg_cli.Prelude.{
  ℕ, ◌<◌, ◌≡◌, refl, subst, inl, inr, none, [], arith, length, Bytes, lookup, bytes_key, nat_key,
}

-- A subscriber with a message on its channel exists.
queue_exists :
    (u : System) (s : ℕ) (msg : Message)
    → IsSound u
    → In msg (queue_of u s)
    → s < u.messenger.subscriber_heap.next
queue_exists u s msg v h = grind (arith, v.unallocated s, In-length msg (queue_of u s) h)

module _ (d : Decoders) (retry_key : Bytes → Bytes) (s : ℕ) (msg : Message) where
  -- Where the messenger rests with room on every channel, nothing is on its way.
  rest_is_empty :
      (u : System)
      → IsSound u
      → IsOrderly u
      → AtRest d retry_key u
      → ((j : ℕ) → length (queue_of u j) < channel_room)
      → ¬ OnItsWay d s msg u
  rest_is_empty u v o rests room way = elim way [
    | inl h ↦ absurd (
        subst (In msg)
          (sender_rests d retry_key u rests room s (u.sender s) refl
            (sender_on u o no_jobs s (queue_exists u s msg v h))).1
          h)
    | inr (inl (ss, g, h)) ↦ absurd (cc (g, router.0))
    | inr (inr (h, t)) ↦ absurd (subst (In msg) router.1 h)
  ]
    where
      no_jobs : u.runner.incoming_jobs ≡ []
      no_jobs = no_jobs_left d retry_key u rests u.runner.incoming_jobs refl

      router : (u.router ≡ Router.waiting) × (u.messenger.incoming ≡ [])
      router = router_rests d retry_key u rests room u.router refl (router_on u o no_jobs)

  -- A message that is on its way to a subscriber, on the incoming channel or beyond, in a state that the
  -- messenger has reached from its start, and that has not been counted for the subscriber yet: left
  -- alone, the workers do not come to rest with room on every channel before a request with the
  -- message's retry key has gone out to the subscriber's node, in whatever order they and the runner
  -- move and whatever the nodes answer. A worker that is about to panic does not rest.
  pub OnItsWay-Arrives :
      (w u : System) (n : ℕ)
      → Reach d retry_key boot w
      → OnItsWay d s msg w
      → lookup (retry_key msg.payload) (subscriber_at w.messenger s).retry_data ≡ none
      → (run : Alone d retry_key w n u) → AtRest d retry_key u
      → ((j : ℕ) → length (queue_of u j) < channel_room)
      → Arrives d retry_key s msg run
  OnItsWay-Arrives w u n reach way fresh run rests room =
      let (v, o, result) =
        Alone-Pending d retry_key s msg w u n (Reach-IsSound d retry_key reach)
          (Reach-IsOrderly d retry_key reach) (record { on_its_way = way; uncounted = fresh })
          run in
      elim result [
        | inl arrived ↦ arrived
        | inr p ↦ absurd (rest_is_empty u v o rests room p.on_its_way)
      ]
