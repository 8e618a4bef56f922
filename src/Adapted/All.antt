-- ===== src/Adapted/All.antt =====
-- src/adapted/read_all.rs, and the conversion of `ReadAllEventsCompleted` in src/adapted/mod.rs.
-- Its `as_raw` is `unimplemented!()`.
pub mod Laws
use eventstore_tcp.Prelude.{
  ℕ, Str, Bool, true, false, Option, none, some, Outcome, ok, err, panic, stuck, ◌>>=◌, List, [],
  ◌∷◌, ◌≡◌, refl, ◌↔◌, length, All, Bool-cases, inl, inr, arith,
}
use eventstore_tcp.Prelude.Int.{ℤ}
use eventstore_tcp.Position.{LogPosition, from_i64, from_i64_opt}
use eventstore_tcp.Message.Enums.{ReadAllResult}
use eventstore_tcp.Message.EventRecord.{EventRecord}
use eventstore_tcp.Message.ResolvedEvent.{ResolvedEvent as RawEvent}
use eventstore_tcp.Message.ReadAllEventsCompleted.{ReadAllEventsCompleted}
use eventstore_tcp.Adapted.Keeps.{Result, success, failure}

pub record ResolvedEvent : Type 0 where
  pub event : EventRecord
  pub link : Option EventRecord
  pub commit_position : LogPosition
  pub prepare_position : LogPosition

pub record ReadAllCompleted : Type 0 where
  pub commit_position : LogPosition
  pub prepare_position : LogPosition
  pub events : List ResolvedEvent
  pub next_commit_position : Option LogPosition
  pub next_prepare_position : Option LogPosition

pub data ReadAllError : Type 0 where
  not_modified : ReadAllError
  error : Option Str → ReadAllError
  access_denied : ReadAllError

-- `From<(ReadAllResult, Option<Cow<str>>)>`, with its `unreachable!()`
unfoldable pub from_result : {E : Type 0} → ReadAllResult → Option Str → Outcome E ReadAllError
from_result ReadAllResult.success msg = panic
from_result ReadAllResult.not_modified msg = ok not_modified
from_result ReadAllResult.error msg = ok (error msg)
from_result ReadAllResult.access_denied msg = ok access_denied

-- `From<client_messages::ResolvedEvent>`
unfoldable pub from_raw : {E : Type 0} → RawEvent → Outcome E ResolvedEvent
from_raw e = do
  commit ← from_i64 e.commit_position
  prepare ← from_i64 e.prepare_position
  ok (record {
    event = e.event;
    link = e.link;
    commit_position = commit;
    prepare_position = prepare;
  })

-- `msg.events.into_iter().map(…).collect()`
unfoldable pub map_events : {E : Type 0} → List RawEvent → Outcome E (List ResolvedEvent)
map_events [] = ok []
map_events (e ∷ es) = do x ← from_raw e; xs ← map_events es; ok (x ∷ xs)

-- The `match` on the status.
by_status :
    {E : Type 0}
    → ReadAllEventsCompleted
    → ReadAllResult
    → Outcome E (Result ReadAllCompleted ReadAllError)
by_status msg ReadAllResult.success = do
  commit ← from_i64 msg.commit_position
  prepare ← from_i64 msg.prepare_position
  events ← map_events msg.events
  ok (
      success (record {
        commit_position = commit;
        prepare_position = prepare;
        events = events;
        next_commit_position = from_i64_opt msg.next_commit_position;
        next_prepare_position = from_i64_opt msg.next_prepare_position;
      }))
by_status msg other = from_result other msg.error >>= λ f. ok (failure f)

-- `CustomTryFrom<(ReadDirection, raw::client_messages::ReadAllEventsCompleted)>`; the direction goes
-- through.
unfoldable pub try_from :
    {E : Type 0} → ReadAllEventsCompleted → Outcome E (Result ReadAllCompleted ReadAllError)
unfolding by_status from_result map_events
try_from msg = by_status msg msg.result
