-- ===== src/Web.antt =====
-- What the services use of net/http and gin: how a URL reaches a server, how gin matches a path with
-- the pattern of a route, and what c.Param and c.Query read.
pub mod Plain
use rockx_dkg_cli.Prelude.{
  ℕ, ◌≡◌, ◌≢◌, Bool, true, false, ◌&&◌, ◌||◌, Option, none, some, List, [], ◌∷◌, ◌++◌, leb, ◌==◌,
  if◌then◌else◌, All, Bytes, bytes_eq,
}

pub data Method : Type 0 where
  get post delete : Method

abbrev pub same_method : Method → Method → Bool
same_method get get = true
same_method post post = true
same_method delete delete = true
same_method _ _ = false

-- r.GET, r.POST or r.DELETE of a pattern and a handler.
pub record Route (E : Type 0) : Type 0 where
  pub method : Method
  pub pattern : Bytes
  pub endpoint : E

abbrev pub route : {E : Type 0} → Method → Bytes → E → Route E
route m p e = record { method = m; pattern = p; endpoint = e }

-- The libraries, for one server: a target is what follows the host in a URL, and a pattern has one
-- parameter at most.
pub record Web : Type 0 where
  pub target_of : (url : Bytes) → Option Bytes
  pub path_of : (target : Bytes) → Bytes
  pub query : (target key : Bytes) → Bytes
  pub matches : (pattern path : Bytes) → Bool
  pub param : (pattern path : Bytes) → Bytes

-- Bytes that stand for themselves in a URL: letters, digits, `-`, `_` and the slash.
abbrev pub is_plain : ℕ → Bool
is_plain c =
    (leb 97 c && leb c 122)
    || (leb 65 c && leb c 90)
    || (leb 47 c && leb c 57)
    || c == 45
    || c == 95

abbrev pub IsPlain : Bytes → Type 0
IsPlain s = All (λ c. is_plain c ≡ true) s

-- One part of a path.
abbrev pub IsSegment : Bytes → Type 0
IsSegment s = (s ≢ []) × All (λ c. (is_plain c ≡ true) × ((c == 47) ≡ false)) s

-- What is documented of them, for a server under an address.
pub record WebLaw (web : Web) (addr : Bytes) : Type 0 where
  pub delivered : (t : Bytes) → web.target_of (addr ++ b'/' ∷ t) ≡ some (b'/' ∷ t)
  pub bare_path : (p : Bytes) → IsPlain p → web.path_of p ≡ p
  pub query_path :
      (p k v : Bytes)
      → IsPlain p
      → IsPlain k
      → IsPlain v
      → web.path_of (p ++ b'?' ∷ k ++ b'=' ∷ v) ≡ p
  pub query_value :
      (p k v : Bytes)
      → IsPlain p
      → IsPlain k
      → IsPlain v
      → web.query (p ++ b'?' ∷ k ++ b'=' ∷ v) k ≡ v
  pub static_matches :
      (pattern p : Bytes) → IsPlain pattern → web.matches pattern p ≡ bytes_eq pattern p
  pub param_matches :
      (start name segment : Bytes)
      → IsPlain start
      → IsPlain name
      → IsSegment segment
      → web.matches (start ++ b':' ∷ name) (start ++ segment) ≡ true
  pub param_value :
      (start name segment : Bytes)
      → IsPlain start
      → IsPlain name
      → IsSegment segment
      → web.param (start ++ b':' ∷ name) (start ++ segment) ≡ segment
  pub param_prefix :
      (start name p : Bytes)
      → IsPlain start
      → IsPlain name
      → web.matches (start ++ b':' ∷ name) p ≡ true
      → (rest : Bytes) × (p ≡ start ++ rest)

module _ {E : Type 0} (web : Web) where
  -- The first route for a method and a path. At most one of a service's routes fits.
  unfoldable pub find_route : List (Route E) → Method → Bytes → Option (Route E)
  find_route [] method path = none
  find_route (r ∷ rs) method path =
      let rest = find_route rs method path in
      if same_method r.method method && web.matches r.pattern path then some r else rest
