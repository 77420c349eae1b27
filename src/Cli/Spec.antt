-- ===== src/Cli/Spec.antt =====
-- What the tool takes from ssv-spec (an external library), and the arguments of its commands.
use rockx_dkg_cli.Go.Strconv.{ℤ, to_uint64}
use rockx_dkg_cli.Net.{World, Result, Exec, post, pure, ◌>>=◌, raw}
use rockx_dkg_cli.Prelude.{
  ℕ, ◌%◌, ◌^◌, List, [], ◌∷◌, ◌++◌, ◌==◌, if◌then◌else◌, Bytes, codes, GoMap,
}

-- dkg.InitMsgType, dkg.ReshareMsgType, dkg.KeySignMsgType
pub data MsgType : Type 0 where
  init_msg reshare_msg keysign_msg : MsgType

-- The encoded messages that ssv-spec and its test utilities build; `ssv_encode` is
-- `types.SSVMessage.Encode` of a DKG message.
pub record SsvSpec : Type 0 where
  pub fork_version : Bytes → Bytes
  pub init_message : List ℕ → ℕ → Bytes → Bytes → Bytes
  pub reshare_message : List ℕ → ℕ → Bytes → List ℕ → Bytes
  pub key_sign : Bytes → Bytes → Bytes
  pub sign_dkg_msg : MsgType → Bytes → Bytes → Bytes
  pub ssv_encode : Bytes → Result Bytes

-- The order in which the n-th `range` statement of a run meets the entries of a map.
abbrev pub Ranges : Type 0
Ranges = ℕ → GoMap ℕ Bytes → GoMap ℕ Bytes

-- uint16(i)
unfoldable pub to_uint16 : ℤ → ℕ
to_uint16 i = to_uint64 i % 2 ^ 16

-- One byte of getRandRequestID from what rand.Int draws below 255: `Bytes()` of 0 is empty.
unfoldable pub request_byte : ℕ → ℕ
request_byte drawn = if drawn == 0 then 0 else drawn

unfoldable pub get_rand_request_id : List ℕ → Bytes
get_rand_request_id [] = []
get_rand_request_id (n ∷ drawn) = request_byte n ∷ get_rand_request_id drawn

-- POST <addr>/consume: sendInitMsg, sendReshareMsg and sendKeySignMsg.
unfoldable pub consume_url : Bytes → Bytes
consume_url addr = addr ++ codes "/consume"

unfoldable pub send_msg : World → Bytes → Bytes → Exec (Unit {0})
send_msg world addr data_bytes = post world (consume_url addr) (raw data_bytes)

-- The loop over the operators: it returns at the first error.
unfoldable pub send_all : World → GoMap ℕ Bytes → Bytes → Exec (Unit {0})
send_all world [] data_bytes = pure tt
send_all world ((i, addr) ∷ ops) data_bytes =
    send_msg world addr data_bytes >>= λ _. send_all world ops data_bytes
