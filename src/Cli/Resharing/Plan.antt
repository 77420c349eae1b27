-- ===== src/Cli/Resharing/Plan.antt =====
-- The requests of `resharing`.
use rockx_dkg_cli.Go.Hex
