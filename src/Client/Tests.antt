-- ===== src/Client/Tests.antt =====
-- Runs of the registration's theorems on concrete worlds.
use rockx_dkg_cli.Client.Registration.{times, register_decided}
use rockx_dkg_cli.Client.{register_operator_node, panics, register_request}
use rockx_dkg_cli.Prelude.{ℕ, ◌≡◌, refl, [], ◌∷◌, ◌==◌, if◌then◌else◌, codes}
use rockx_dkg_cli.Net.{failed, answered, World, ok}

-- A world that fails twice and then answers with one status.
abbrev third_time : ℕ → World
third_time code [] req = failed
third_time code (a ∷ []) req = failed
third_time code (a ∷ b ∷ rest) req = answered code []

abbrev unreachable : World
unreachable sent req = failed

register_decided_example :
    register_operator_node (third_time 200) (codes "m") (codes "2") (codes "n") [] ≡ (
      (if 200 == 200 then ok tt else panics),
      times 3 (register_request (codes "m") (codes "2") (codes "n")),
    )
register_decided_example =
    register_decided (third_time 200) (codes "m") (codes "2") (codes "n") 2 0 200 [] refl
      (refl, (refl, tt)) refl
