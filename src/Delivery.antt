-- ===== src/Delivery.antt =====
-- A message on its way from the messenger to a node: the rounds of ProcessOutgoingMessageWorker
-- (internal/messenger/messenger.go) against the route of HandleConsume (internal/node/server.go) that
-- cmd/node/main.go sets.
pub mod Rounds
mod Tests
use rockx_dkg_cli.Web.{post}
use rockx_dkg_cli.Node.Routes.{DkgNode, serve_node}
use rockx_dkg_cli.Net.{Answer, failed}
use rockx_dkg_cli.Web.{Web}
use rockx_dkg_cli.Messenger.State.{Subscriber, Message}
use rockx_dkg_cli.Node.{handle_consume}
use rockx_dkg_cli.Prelude.{
  ℕ, zero, suc, ◌+◌, ◌≡◌, false, some, ◌==◌, if◌then◌else◌, Bytes, bytes_key, nat_key, ◌++◌, codes,
}
use rockx_dkg_cli.Messenger.Outgoing.{answered, Round, round, PostResult, post_failed}

-- The state of the two sides, and how many requests the worker has made.
pub record Exchange (N : Type 0) : Type 0 where
  pub subscriber : Subscriber
  pub node : N
  pub posts : ℕ

-- http.Post gives an error, or the status of the answer.
abbrev pub post_result : Answer → PostResult
post_result failed = post_failed
post_result (Answer.answered code body) = PostResult.answered code

module _ {N M S Sk Pk : Type 0} (retry_key : Bytes → Bytes) (web : Web)
    (lib : DkgNode N M S Sk Pk) where
  abbrev pub consume : Message → N → N × ℕ
  consume msg n = handle_consume lib.decode lib.process (some msg.payload) n

  -- The request of the worker, as the node answers it that has this URL.
  unfoldable pub post_message : (srv_addr : Bytes) → Message → N → N × PostResult
  post_message srv_addr msg n =
      let out = serve_node web lib post (srv_addr ++ codes "/consume") msg.payload n in
      (out.0, post_result out.1)

  abbrev ended : Round → N × PostResult → N → Exchange N
  ended r reply n =
      if r.posted
      then record { subscriber = r.subscriber; node = reply.0; posts = 1 }
      else record { subscriber = r.subscriber; node = n; posts = 0 }

  abbrev pub once_more : Exchange N → Exchange N
  once_more e = record e { posts = e.posts + 1 }

  -- The rounds for one message while it comes back, at most so many: the node answers each request.
  unfoldable pub exchange : (rounds : ℕ) → Message → Subscriber → N → Exchange N
  exchange zero msg s n = record { subscriber = s; node = n; posts = 0 }
  exchange (suc f) msg s n =
      let reply = post_message s.srv_addr msg n in
      let r = round retry_key s msg reply.1 in
      let rest = exchange f msg r.subscriber reply.0 in
      if r.again then once_more rest else ended r reply n

  -- The node after it has been handed the message so many times.
  unfoldable pub handed : ℕ → Message → N → N
  handed zero msg n = n
  handed (suc k) msg n = handed k msg (consume msg n).0

  -- It answers the first `k` times with another status than 200.
  abbrev pub Refuses : ℕ → Message → N → Type 0
  Refuses zero msg n = Unit
  Refuses (suc k) msg n = (((consume msg n).1 == 200) ≡ false) × Refuses k msg (consume msg n).0
