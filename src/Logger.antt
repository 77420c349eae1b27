-- ===== src/Logger.antt =====
-- The logger of the services: internal/logger/logger.go. What logrus does with an entry is a parameter.
pub mod Copies
mod Tests
use rockx_dkg_cli.Prelude.{
  ℕ, Bool, not, ◌&&◌, Option, some, List, [], ◌∷◌, ◌++◌, leb, if◌then◌else◌, Bytes, codes, bytes_eq,
  ◌-◌,
}

pub data Level : Type 0 where
  debug_level info_level warn_level error_level : Level

-- Where the entries go besides the hooks: io.Discard or os.Stdout.
pub data Output : Type 0 where
  discard stdout : Output

-- An lfshook: the file that it writes the entries of a level to, `none` for a level that is not in its map.
pub record FileHook : Type 0 where
  pub path : Level → Option Bytes

-- logrus.Logger, with its hooks in the order of AddHook.
pub record Logger : Type 0 where
  pub level : Level
  pub hooks : List FileHook
  pub output : Output

-- DKG_LOG_PATH and DKG_LOG_LEVEL; an empty text where one is not set.
pub record LogEnv : Type 0 where
  pub log_path : Bytes
  pub log_level : Bytes

unfoldable pub base_path : Bytes → Bytes
base_path [] = codes "."
base_path (c ∷ s) = c ∷ s

unfoldable pub log_file_path : LogEnv → Bytes → Bytes
log_file_path env service = base_path env.log_path ++ codes "/rockx_dkg_" ++ service ++ codes ".log"

unfoldable pub level_of : LogEnv → Level
level_of env = if bytes_eq env.log_level (codes "release") then info_level else debug_level

-- The map of the hook has each of the four levels.
unfoldable pub file_hook : Bytes → FileHook
file_hook path = record { path = λ level. some path }

unfoldable pub add_hook : FileHook → Logger → Logger
add_hook hook l = record l { hooks = l.hooks ++ hook ∷ [] }

unfoldable pub is_quiet : LogEnv → Bytes → Bool
is_quiet env service =
    bytes_eq service (codes "cli") && not (bytes_eq env.log_level (codes "debug"))

-- `New`, without its first entry.
unfoldable pub new : LogEnv → (service_name : Bytes) → Logger
new env service_name =
    let hook = file_hook (log_file_path env service_name) in
    let hooked = add_hook hook (record { level = level_of env; hooks = []; output = stdout }) in
    if is_quiet env service_name
    then record hooked { output = discard }
    else record (add_hook hook hooked) { output = stdout }

-- The level at which GinLogger logs a request, by the status of its answer.
unfoldable pub level_of_status : ℕ → Level
level_of_status status_code =
    if leb 500 status_code
    then error_level
    else if leb 400 status_code
    then warn_level
    else info_level

-- What GinLogger reads of a request, and the fields of its entry. Times are in nanoseconds.
pub record HttpCall : Type 0 where
  pub path : Bytes
  pub raw_query : Bytes
  pub client_ip : Bytes
  pub method : Bytes

pub record Fields : Type 0 where
  pub status_code : ℕ
  pub latency : ℕ
  pub client_ip : Bytes
  pub method : Bytes
  pub path : Bytes
  pub query : Bytes
  pub error : Bytes

-- The clock is read before and after the request; it does not go back.
unfoldable pub gin_logger :
    (begin finish : ℕ) → HttpCall → (status_code : ℕ) (error_message : Bytes) → Level × Fields
gin_logger begin finish call status_code error_message = (
  level_of_status status_code,
  record {
    status_code = status_code;
    latency = finish - begin;
    client_ip = call.client_ip;
    method = call.method;
    path = call.path;
    query = call.raw_query;
    error = error_message;
  },
)
