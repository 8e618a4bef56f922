-- ===== src/Builder/Package.antt =====
-- The steps that the builders of src/builder.rs share.
use eventstore_tcp.Prelude.{ℕ, Str, Option, Outcome, ok, ◌>>◌, assert, length, ltb, unwrap_or}
use eventstore_tcp.Auth.{UsernamePassword}
use eventstore_tcp.Raw.{RawMessage, ping, authenticate}
use eventstore_tcp.Codec.{Package}

-- `common_stream_id!`: the check of the id.
unfoldable pub checked_id : {E : Type 0} → Str → Outcome E Str
checked_id id = do assert (ltb 0 (length id)); ok id

-- `common_max_count!`: the check of the count, a `u8`.
unfoldable pub checked_count : {E : Type 0} → ℕ → Outcome E ℕ
checked_count count = do assert (ltb 0 count); ok count

-- `build_package`; `fresh` is the id that `Uuid::new_v4` makes.
unfoldable pub build_package :
    {Uuid : Type 0} → Uuid → RawMessage → Option UsernamePassword → Option Uuid → Package Uuid
build_package fresh msg authentication correlation_id = record {
  authentication = authentication;
  correlation_id = unwrap_or correlation_id fresh;
  message = msg;
}

-- `SimpleBuilder`, and what `Builder::ping` and `Builder::authenticate` make.
pub record SimpleBuilder : Type 0 where
  pub message : RawMessage

unfoldable pub simple_ping : SimpleBuilder
simple_ping = record { message = ping }

unfoldable pub simple_authenticate : SimpleBuilder
simple_authenticate = record { message = authenticate }

unfoldable pub simple_package :
    {Uuid : Type 0} → Uuid → Option UsernamePassword → Option Uuid → SimpleBuilder → Package Uuid
simple_package fresh authentication correlation_id b =
    build_package fresh b.message authentication correlation_id
