-- ===== src/Cli/Commands.antt =====
-- The commands of the tool and their flags (internal/cli/server.go), and what their actions read of
-- the command line.
pub mod Given
use rockx_dkg_cli.Go.Strconv.{ℤ}
use rockx_dkg_cli.Cli.Resharing.{ResharingFlags}
use rockx_dkg_cli.Cli.Keygen.{KeygenFlags}
use rockx_dkg_cli.Cli.Data.{DepositFlags, KeySharesFlags}
use rockx_dkg_cli.Prelude.{List, [], ◌∷◌, Bytes, codes, GoMap}

pub data FlagKind : Type 0 where
  string_slice int string : FlagKind

pub record Flag : Type 0 where
  pub name : Bytes
  pub alias : Bytes
  pub kind : FlagKind

-- Every flag is required.
pub record Command : Type 0 where
  pub name : Bytes
  pub alias : Bytes
  pub flags : List Flag

abbrev flag : Bytes → Bytes → FlagKind → Flag
flag n a k = record { name = n; alias = a; kind = k }

abbrev operator_option : Flag
operator_option = flag (codes "operator") (codes "o") string_slice

abbrev request_flag : Flag
request_flag = flag (codes "request-id") (codes "req") string

abbrev withdrawal_flag : Flag
withdrawal_flag = flag (codes "withdrawal-credentials") (codes "w") string

abbrev fork_flag : Flag
fork_flag = flag (codes "fork-version") (codes "f") string

abbrev threshold_flag : Flag
threshold_flag = flag (codes "threshold") (codes "t") int

unfoldable pub command_keygen : Command
command_keygen = record {
  name = codes "keygen";
  alias = codes "k";
  flags = operator_option ∷ threshold_flag ∷ withdrawal_flag ∷ fork_flag ∷ [];
}

unfoldable pub command_resharing : Command
command_resharing = record {
  name = codes "resharing";
  alias = codes "r";
  flags =
      operator_option
      ∷ flag (codes "old-operator") (codes "oo") string_slice
      ∷ threshold_flag
      ∷ flag (codes "validator-pk") (codes "vk") string
      ∷ [];
}

unfoldable pub command_get_dkg_results : Command
command_get_dkg_results = record {
  name = codes "get-dkg-results";
  alias = codes "gr";
  flags = request_flag ∷ [];
}

unfoldable pub command_get_keyshares : Command
command_get_keyshares = record {
  name = codes "get-keyshares";
  alias = codes "gks";
  flags =
      request_flag
      ∷ operator_option
      ∷ flag (codes "owner-address") (codes "oa") string
      ∷ flag (codes "owner-nonce") (codes "on") int
      ∷ [];
}

unfoldable pub command_generate_deposit_data : Command
command_generate_deposit_data = record {
  name = codes "generate-deposit-data";
  alias = codes "gdd";
  flags = request_flag ∷ withdrawal_flag ∷ fork_flag ∷ [];
}

unfoldable pub commands : List Command
commands =
    command_keygen ∷ command_resharing ∷ command_get_dkg_results ∷ command_get_keyshares
    ∷ command_generate_deposit_data ∷ []

-- What stands behind a flag on the command line. The values of a flag that is repeated are one value
-- here.
pub data Value : Type 0 where
  texts : List Bytes → Value
  number : ℤ → Value
  text : Bytes → Value

-- A value under each word, a flag's name or its alias, that the command line has.
abbrev pub Args : Type 0
Args = GoMap Bytes Value

-- cli.Context, as far as the actions use it: c.StringSlice, c.Int and c.String.
pub record Context : Type 0 where
  pub get_string_slice : Bytes → List Bytes
  pub get_int : Bytes → ℤ
  pub get_string : Bytes → Bytes

-- What an action has read of its context.
pub data Inputs : Type 0 where
  for_keygen : KeygenFlags → Inputs
  for_resharing : ResharingFlags → Inputs
  for_results : Bytes → Inputs
  for_keyshares : KeySharesFlags → Inputs
  for_deposit : DepositFlags → Inputs

pub data Action : Type 0 where
  keygen resharing get_data get_keyshares get_deposit_data : Action

unfoldable pub command_of : Action → Command
command_of keygen = command_keygen
command_of resharing = command_resharing
command_of get_data = command_get_dkg_results
command_of get_keyshares = command_get_keyshares
command_of get_deposit_data = command_generate_deposit_data

unfoldable pub keygen_inputs : Context → KeygenFlags
keygen_inputs c = record {
  operator = c.get_string_slice (codes "operator");
  threshold = c.get_int (codes "threshold");
  withdrawal_credentials = c.get_string (codes "withdrawal-credentials");
  fork_version = c.get_string (codes "fork-version");
}

unfoldable pub resharing_inputs : Context → ResharingFlags
resharing_inputs c = record {
  operator = c.get_string_slice (codes "operator");
  old_operator = c.get_string_slice (codes "old-operator");
  threshold = c.get_int (codes "threshold");
  validator_pk = c.get_string (codes "validator-pk");
}

unfoldable pub keyshares_inputs : Context → KeySharesFlags
keyshares_inputs c = record {
  request_id = c.get_string (codes "request-id");
  operator = c.get_string_slice (codes "operator");
  owner_address = c.get_string (codes "owner-address");
  owner_nonce = c.get_int (codes "owner-nonce");
}

unfoldable pub deposit_inputs : Context → DepositFlags
deposit_inputs c = record {
  request_id = c.get_string (codes "request-id");
  withdrawal_credentials = c.get_string (codes "withdrawal-credentials");
  fork_version = c.get_string (codes "fork-version");
}

unfoldable pub inputs : Action → Context → Inputs
inputs keygen c = for_keygen (keygen_inputs c)
inputs resharing c = for_resharing (resharing_inputs c)
inputs get_data c = for_results (c.get_string (codes "request-id"))
inputs get_keyshares c = for_keyshares (keyshares_inputs c)
inputs get_deposit_data c = for_deposit (deposit_inputs c)
