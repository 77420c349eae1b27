-- ===== src/Dkg.antt =====
-- The types of ssv-spec that the source builds or takes apart, with the fields that it names.
-- `Option` stands where Go has a pointer that the source compares with nil, or that JSON can leave nil.
use rockx_dkg_cli.Prelude.{ℕ, Option, GoMap, Bytes}

pub record Output : Type 0 where
  pub request_id : Bytes
  pub encrypted_share : Bytes
  pub share_pub_key : Bytes
  pub validator_pub_key : Bytes
  pub deposit_data_signature : Bytes

pub record KeySignOutput : Type 0 where
  pub request_id : Bytes
  pub validator_pk : Bytes
  pub signature : Bytes

pub record SignedOutput : Type 0 where
  pub key_sign_data : Option KeySignOutput
  pub output : Option Output
  pub signer : ℕ
  pub signature : Bytes

-- `identifier` is `BlameMessage.Message.Identifier`; the rest is passed on unread.
pub record BlameOutput : Type 0 where
  pub identifier : Bytes
  pub rest : Bytes

-- messenger.DataStore: what the messenger keeps for a request.
pub record DataStore : Type 0 where
  pub dkg_outputs : GoMap ℕ (Option SignedOutput)
  pub blame_output : Option BlameOutput

-- The keys are their encodings.
pub record Operator : Type 0 where
  pub operator_id : ℕ
  pub eth_address : Bytes
  pub encryption_pub_key : Bytes
  pub encryption_private_key : Option Bytes
