-- ===== src/Logger/Copies.antt =====
-- How often an entry of the logger is written.
use rockx_dkg_cli.Logger.{
  Logger, Level, error_level, FileHook, Output, warn_level, discard, info_level, stdout,
  debug_level,
}
use rockx_dkg_cli.Prelude.{ℕ, ◌≡◌, Bool, none, some, List, [], ◌∷◌, ◌++◌, leb, if◌then◌else◌, Bytes}

-- A line that comes out of the logger.
pub data Write : Type 0 where
  to_file : (path : Bytes) (entry : Bytes) → Write
  to_stdout : (entry : Bytes) → Write

abbrev rank : Level → ℕ
rank error_level = 2
rank warn_level = 3
rank info_level = 4
rank debug_level = 5

-- logrus lets an entry through that is not below the logger's level.
abbrev pub is_enabled : Logger → Level → Bool
is_enabled l level = leb (rank level) (rank l.level)

abbrev pub hook_writes : Level → Bytes → List FileHook → List Write
hook_writes level entry [] = []
hook_writes level entry (hook ∷ hooks) = elim (hook.path level) [
  | none ↦ hook_writes level entry hooks
  | some path ↦ to_file path entry ∷ hook_writes level entry hooks
]

abbrev pub output_writes : Bytes → Output → List Write
output_writes entry discard = []
output_writes entry stdout = to_stdout entry ∷ []

-- What logrus documents: an enabled entry fires every hook, in order, and then goes to the output.
abbrev pub LogrusLaw : (Logger → Level → Bytes → List Write) → Type 0
LogrusLaw write =
    (l : Logger) (level : Level) (entry : Bytes)
    → write l level entry ≡ (
        if is_enabled l level
        then hook_writes level entry l.hooks ++ output_writes entry l.output
        else [])
