-- ===== src/Builder/Delete.antt =====
-- `DeleteStreamBuilder` of src/builder.rs.
use eventstore_tcp.Prelude.{
  Bool, false, Str, Option, none, some, Outcome, ok, ◌>>=◌, unwrap, unwrap_or,
}
use eventstore_tcp.Version.{ExpectedVersion, expected_version_to_i32}
use eventstore_tcp.Auth.{UsernamePassword}
use eventstore_tcp.Raw.{RawMessage, delete_stream}
use eventstore_tcp.Codec.{Package}
use eventstore_tcp.Builder.Package.{checked_id, build_package as package_of}

pub record DeleteStreamBuilder : Type 0 where
  pub event_stream_id : Option Str
  pub expected_version : Option ExpectedVersion
  pub require_master : Option Bool
  pub hard_delete : Option Bool

abbrev pub new : DeleteStreamBuilder
new = record {
  event_stream_id = none;
  expected_version = none;
  require_master = none;
  hard_delete = none;
}

unfoldable pub set_stream_id :
    {E : Type 0} → Str → DeleteStreamBuilder → Outcome E DeleteStreamBuilder
set_stream_id id b = do s ← checked_id id; ok (record b { event_stream_id = some s })

unfoldable pub set_expected_version : ExpectedVersion → DeleteStreamBuilder → DeleteStreamBuilder
set_expected_version version b = record b { expected_version = some version }

unfoldable pub set_require_master : Bool → DeleteStreamBuilder → DeleteStreamBuilder
set_require_master require b = record b { require_master = some require }

unfoldable pub set_hard_delete : Bool → DeleteStreamBuilder → DeleteStreamBuilder
set_hard_delete hard b = record b { hard_delete = some hard }

-- The stream and the version are taken out; the two flags stay.
unfoldable pub build_message :
    {E : Type 0} → DeleteStreamBuilder → Outcome E (RawMessage × DeleteStreamBuilder)
build_message b = do
  id ← unwrap b.event_stream_id
  version ← unwrap b.expected_version
  ok (
    delete_stream (record {
      event_stream_id = id;
      expected_version = expected_version_to_i32 version;
      require_master = unwrap_or b.require_master false;
      hard_delete = some (unwrap_or b.hard_delete false);
    }),
    record b { event_stream_id = none; expected_version = none },
  )

unfoldable pub build_package :
    {E Uuid : Type 0}
    → Uuid
    → Option UsernamePassword
    → Option Uuid
    → DeleteStreamBuilder
    → Outcome E (Package Uuid × DeleteStreamBuilder)
build_package fresh authentication correlation_id b = do
  (msg, b') ← build_message b
  ok (package_of fresh msg authentication correlation_id, b')
