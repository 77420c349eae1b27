-- ===== src/Logger/Tests.antt =====
-- A run of the theorem on the logger.
use rockx_dkg_cli.Logger.Copies.{Write, is_enabled, hook_writes, output_writes}
use rockx_dkg_cli.Logger.{LogEnv, Logger, Level, HttpCall, Fields}
use rockx_dkg_cli.Prelude.{List, [], ◌++◌, if◌then◌else◌, Bytes, codes}

abbrev plain_write : Logger → Level → Bytes → List Write
plain_write l level entry =
    if is_enabled l level
    then hook_writes level entry l.hooks ++ output_writes entry l.output
    else []

abbrev plain_env : LogEnv
plain_env = record { log_path = []; log_level = [] }

abbrev some_call : HttpCall
some_call = record {
  path = codes "/consume";
  raw_query = [];
  client_ip = codes "127.0.0.1";
  method = codes "POST";
}

abbrev path_of : Fields → Bytes
path_of fields = fields.path
