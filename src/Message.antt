-- ===== src/Message.antt =====
-- The messages of proto/ocypode/pubsub/v1/pubsub.proto, as `pb` of crates/server/src/parser.rs has
-- them: `string` and `bytes` are byte lists, `uint32` and `uint64` are numbers.
use ocypode.Prelude.{ℕ, Bool, Option, Bytes}

pub data AuthMethod : Type 0 where
  no_auth : AuthMethod
  password_auth : AuthMethod

-- `as i32`
unfoldable pub auth_method_code : AuthMethod → ℕ
auth_method_code no_auth = 0
auth_method_code password_auth = 1

pub record Info : Type 0 where
  pub version : ℕ
  pub server_id : Bytes
  pub server_name : Bytes
  pub max_payload : ℕ
  pub client_id : ℕ
  pub requires_auth : Bool
  pub tls_verify : Bool

pub record PasswordAuth : Type 0 where
  pub username : Bytes
  pub password : Bytes

pub record Connect : Type 0 where
  pub version : ℕ
  pub verbose : Bool
  pub auth_method : ℕ
  pub credentials : Option PasswordAuth

pub record Publish : Type 0 where
  pub topic : Bytes
  pub payload : Bytes
  pub header : Bytes

pub record Subscribe : Type 0 where
  pub topic : Bytes
  pub subscription_id : ℕ
  pub queue_group : Bytes

pub record UnSubscribe : Type 0 where
  pub subscription_id : ℕ

pub record Message : Type 0 where
  pub topic : Bytes
  pub subscription_id : ℕ
  pub payload : Bytes
  pub header : Bytes
