-- ===== src/Builder/ReadAll.antt =====
-- `ReadAllEventsBuilder` of src/builder.rs.
use eventstore_tcp.Prelude.{
  ℕ, Bool, true, Option, none, some, Outcome, ok, ◌>>=◌, unwrap, unwrap_or,
}
use eventstore_tcp.Prelude.Int.{pos}
use eventstore_tcp.Position.{LogPosition, into_i64}
use eventstore_tcp.Auth.{UsernamePassword}
use eventstore_tcp.Raw.{ReadDirection, RawMessage, read_all_events}
use eventstore_tcp.Codec.{Package}
use eventstore_tcp.Builder.Package.{checked_count, build_package as package_of}

pub record ReadAllEventsBuilder : Type 0 where
  pub direction : Option ReadDirection
  pub commit_position : Option LogPosition
  pub prepare_position : Option LogPosition
  pub max_count : Option ℕ
  pub resolve_link_tos : Option Bool
  pub require_master : Option Bool

abbrev pub new : ReadAllEventsBuilder
new = record {
  direction = none;
  commit_position = none;
  prepare_position = none;
  max_count = none;
  resolve_link_tos = none;
  require_master = none;
}

unfoldable pub set_direction : ReadDirection → ReadAllEventsBuilder → ReadAllEventsBuilder
set_direction dir b = record b { direction = some dir }

unfoldable pub set_positions :
    LogPosition → LogPosition → ReadAllEventsBuilder → ReadAllEventsBuilder
set_positions commit prepare b = record b {
  commit_position = some commit;
  prepare_position = some prepare;
}

unfoldable pub set_max_count :
    {E : Type 0} → ℕ → ReadAllEventsBuilder → Outcome E ReadAllEventsBuilder
set_max_count count b = do n ← checked_count count; ok (record b { max_count = some n })

unfoldable pub set_resolve_link_tos : Bool → ReadAllEventsBuilder → ReadAllEventsBuilder
set_resolve_link_tos resolve b = record b { resolve_link_tos = some resolve }

unfoldable pub set_require_master : Bool → ReadAllEventsBuilder → ReadAllEventsBuilder
set_require_master require b = record b { require_master = some require }

-- The direction is taken out; all else stays.
unfoldable pub build_message :
    {E : Type 0} → ReadAllEventsBuilder → Outcome E (RawMessage × ReadAllEventsBuilder)
build_message b = do
  dir ← unwrap b.direction
  commit ← unwrap b.commit_position
  prepare ← unwrap b.prepare_position
  count ← unwrap b.max_count
  ok (
    read_all_events dir (record {
      commit_position = into_i64 commit;
      prepare_position = into_i64 prepare;
      max_count = pos count;
      resolve_link_tos = unwrap_or b.resolve_link_tos true;
      require_master = unwrap_or b.require_master true;
    }),
    record b { direction = none },
  )

unfoldable pub build_package :
    {E Uuid : Type 0}
    → Uuid
    → Option UsernamePassword
    → Option Uuid
    → ReadAllEventsBuilder
    → Outcome E (Package Uuid × ReadAllEventsBuilder)
build_package fresh authentication correlation_id b = do
  (msg, b') ← build_message b
  ok (package_of fresh msg authentication correlation_id, b')
