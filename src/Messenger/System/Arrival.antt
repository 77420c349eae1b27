-- ===== src/Messenger/System/Arrival.antt =====
-- A message on its way to a subscriber, through the steps of the workers.
pub mod Frames
pub mod Moves
pub mod Rounds
pub mod Steps
pub mod Runs
pub mod Ends
use rockx_dkg_cli.Messenger.Outgoing.{round}
use rockx_dkg_cli.Messenger.State.{Message, subscriber_at, process_incoming}
use rockx_dkg_cli.Messenger.Incoming.{Decoders, targets}
use rockx_dkg_cli.Prelude.{
  ℕ, ◌≡◌, ◌≢◌, ◌⊎◌, true, none, List, [], ◌∷◌, All, Bytes, lookup, bytes_key, nat_key,
}
use rockx_dkg_cli.Messenger.System.{
  System, Step, fanning, queue_of, Decoders, Message, posts, round,
}
use rockx_dkg_cli.Messenger.System.Rest.{Alone, still, goes_on}

abbrev pub In : {A : Type 0} → A → List A → Type 0
In x [] = ⊥
In x (y ∷ ys) = (y ≡ x) ⊎ In x ys

-- On the subscriber's channel, with sends to make, or on the incoming channel.
abbrev pub OnItsWay : Decoders → ℕ → Message → System → Type 0
OnItsWay d s msg w =
    In msg (queue_of w s)
    ⊎ ((ss : List ℕ) × (w.router ≡ fanning msg ss) × In s ss)
    ⊎ (In msg w.messenger.incoming × In s (targets d w.messenger msg))

-- A message on its way that has not been counted for the subscriber.
pub record Pending (d : Decoders) (retry_key : Bytes → Bytes) (s : ℕ) (msg : Message) (w : System)
    : Type 0 where
  pub on_its_way : OnItsWay d s msg w
  pub uncounted : lookup (retry_key msg.payload) (subscriber_at w.messenger s).retry_data ≡ none

module _ (d : Decoders) (retry_key : Bytes → Bytes) (s : ℕ) (msg : Message) where
  -- A step that makes a request to the subscriber's node, with a payload of the same retry key.
  abbrev pub Posts : {w u : System} → Step d retry_key w u → Type 0
  Posts (posts w x other rest result e f) =
      (x ≡ s)
      × (retry_key other.payload ≡ retry_key msg.payload)
      × ((round retry_key (record (subscriber_at w.messenger x) { outgoing = rest }) other
            result).posted
          ≡ true)
  Posts _ = ⊥

  -- A run with such a step.
  abbrev pub Arrives : {w u : System} {n : ℕ} → Alone d retry_key w n u → Type 0
  Arrives still = ⊥
  Arrives (goes_on run st own) = Arrives run ⊎ Posts st
