-- ===== src/Node/Routes.antt =====
-- The node as an HTTP server: the routes that `main` of cmd/node/main.go sets.
pub mod Shown
use rockx_dkg_cli.Storage.{Kv}
use rockx_dkg_cli.Node.{
  Processed, handle_consume, handle_get_dkg_results, Bls, Kv, Json, KeygenText,
}
use rockx_dkg_cli.Storage.Keygen.{KeygenOutput, Bls, KeygenText}
use rockx_dkg_cli.Prelude.{ℕ, Option, none, some, List, [], ◌∷◌, Bytes, codes}
use rockx_dkg_cli.Web.{Web, Route, Method, get, post, find_route, route}
use rockx_dkg_cli.Net.{Answer, answered, failed}

pub data NodeEndpoint : Type 0 where
  ping consume dkg_results version : NodeEndpoint

abbrev pub results_pattern : Bytes
results_pattern = codes "/dkg_results/:vk"

abbrev pub node_routes : List (Route NodeEndpoint)
node_routes =
    route get (codes "/ping") ping
    ∷ route post (codes "/consume") consume
    ∷ route get results_pattern dkg_results
    ∷ route get (codes "/version") version
    ∷ []

-- The JSON that c.JSON writes. The text of HandleConsume has the error of a library.
pub record NodePages (N Sk Pk : Type 0) : Type 0 where
  pub pong_page : Bytes
  pub version_page : Bytes
  pub consumed_page : Bytes → N → Bytes
  pub output_page : KeygenOutput Sk Pk → Bytes

-- c.AbortWithError writes no body.
unfoldable pub results_page : {A : Type 0} → (A → Bytes) → ℕ × Option A → Answer
results_page show (code, none) = answered code []
results_page show (code, some output) = answered code (show output)

-- What dkg.Node is made of: its own state, with the store in it, and the libraries.
pub record DkgNode (N M S Sk Pk : Type 0) : Type 0 where
  pub store_of : N → S
  pub decode : Bytes → Option M
  pub process : M → N → Processed N
  pub bls : Bls Sk Pk
  pub kv : Kv S
  pub json : Json KeygenText
  pub pages : NodePages N Sk Pk

module _ {N M S Sk Pk : Type 0} (web : Web) (lib : DkgNode N M S Sk Pk) where
  unfoldable pub handle_node : Route NodeEndpoint → (target body : Bytes) → N → N × Answer
  handle_node r target body n = elim r.endpoint [
    | ping ↦ (n, answered 200 lib.pages.pong_page)
    | version ↦ (n, answered 200 lib.pages.version_page)
    | consume ↦
        let out = handle_consume lib.decode lib.process (some body) n in
        (out.0, answered out.1 (lib.pages.consumed_page body n))
    | dkg_results ↦ (
      n,
      results_page lib.pages.output_page (
          handle_get_dkg_results lib.bls lib.kv lib.json (web.param r.pattern (web.path_of target))
            (lib.store_of n)),
    )
  ]

  unfoldable pub dispatch_node :
      Option (Route NodeEndpoint) → (target body : Bytes) → N → N × Answer
  dispatch_node none target body n = (n, answered 404 [])
  dispatch_node (some r) target body n = handle_node r target body n

  -- The target is none where the URL is that of another server.
  unfoldable pub serve_target : Method → Option Bytes → (body : Bytes) → N → N × Answer
  serve_target m none body n = (n, failed)
  serve_target m (some target) body n =
      dispatch_node (find_route web node_routes m (web.path_of target)) target body n

  -- A request for this node, whose body has been read.
  abbrev pub serve_node : Method → (url body : Bytes) → N → N × Answer
  serve_node m url body n = serve_target m (web.target_of url) body n
