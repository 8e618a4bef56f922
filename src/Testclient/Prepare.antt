-- ===== src/Testclient/Prepare.antt =====
-- What testclient/src/main.rs makes of the command line and of the environment. What clap answers
-- is a parameter: the value of each argument, if it was given, and whether a flag was.
use eventstore_tcp.Prelude.{
  ℕ, Bool, Str, Option, none, some, Outcome, ok, panic, ◌>>=◌, unwrap, unwrap_or, [], ◌∷◌, ◌-◌, ◌^◌,
  if◌then◌else◌,
}
use eventstore_tcp.Version.{
  ExpectedVersion, any, no_stream, exact, ContentType, bytes, json, try_from_u32,
}
use eventstore_tcp.Auth.{UsernamePassword}
use eventstore_tcp.Auth
use eventstore_tcp.Crates.{Crates}
use eventstore_tcp.Builder.WriteEvents
use eventstore_tcp.Builder.WriteEvents.{WriteEventsBuilder, NewEventBuilder}
use eventstore_tcp.Builder.Delete
use eventstore_tcp.Builder.Delete.{DeleteStreamBuilder}
use eventstore_tcp.Testclient.Parse.{eq_str, parse_unsigned}
use eventstore_tcp.Testclient.Read.{Position, ReadMode, forward_once, backward, expect, position_of}
use eventstore_tcp.Testclient.Output.{OutputMode, debug, output_of}

-- `env_credentials`, of the two variables
unfoldable pub env_credentials :
    {E : Type 0} → Option Str → Option Str → Outcome E (Option UsernamePassword)
env_credentials (some u) (some p) = do a ← Auth.new u p; ok (some a)
env_credentials none p = ok none
env_credentials (some u) none = ok none

abbrev pub any_name : Str
any_name = 97 ∷ 110 ∷ 121 ∷ []

abbrev pub created_name : Str
created_name = 99 ∷ 114 ∷ 101 ∷ 97 ∷ 116 ∷ 101 ∷ 100 ∷ []

abbrev pub all_name : Str
all_name = 97 ∷ 108 ∷ 108 ∷ []

abbrev pub forward_once_name : Str
forward_once_name = 102 ∷ 111 ∷ 114 ∷ 119 ∷ 97 ∷ 114 ∷ 100 ∷ 45 ∷ 111 ∷ 110 ∷ 99 ∷ 101 ∷ []

abbrev pub backward_name : Str
backward_name = 98 ∷ 97 ∷ 99 ∷ 107 ∷ 119 ∷ 97 ∷ 114 ∷ 100 ∷ []

-- `match args.value_of("expected_version").unwrap() { … }`
unfoldable pub version_of : {E : Type 0} → Str → Outcome E ExpectedVersion
version_of s =
    if eq_str s any_name
    then ok any
    else if eq_str s created_name
    then ok no_stream
    else (unwrap (parse_unsigned (2 ^ 32 - 1) s) >>= λ n.
        expect (try_from_u32 n) >>= λ v. ok (exact v))

pub record WriteArgs : Type 0 where
  pub stream_id : Option Str
  pub expected_version : Option Str
  pub event_type : Option Str
  pub event_data : Option Str
  pub metadata : Option Str
  pub as_json : Bool
  pub require_master : Bool

-- `if let Some(x) = args.value_of("metadata") { … } else { event }`
unfoldable pub with_metadata :
    {Uuid : Type 0} → ContentType → Option Str → NewEventBuilder Uuid → NewEventBuilder Uuid
with_metadata content_type (some x) e =
    WriteEvents.set_metadata_content_type content_type (WriteEvents.set_metadata x e)
with_metadata content_type none e = e

-- The builder that `Write::new` is given; `fresh` is the id that `Uuid::new_v4` makes.
unfoldable pub prepare_write :
    {E Uuid Buf : Type 0} → Crates Uuid Buf → Uuid → WriteArgs → Outcome E WriteEventsBuilder
prepare_write c fresh args = do
  let content_type = if args.as_json then json else bytes
  id ← unwrap args.stream_id
  b1 ← WriteEvents.set_stream_id id WriteEvents.new
  s ← unwrap args.expected_version
  version ← version_of s
  let b2 = WriteEvents.set_expected_version version b1
  let b3 = WriteEvents.set_require_master args.require_master b2
  let e1 = WriteEvents.new_event b3
  d ← unwrap args.event_data
  let e2 = WriteEvents.set_data_content_type content_type (WriteEvents.set_data d e1)
  ty ← unwrap args.event_type
  let e3 = WriteEvents.set_event_type ty e2
  WriteEvents.done c fresh (with_metadata content_type args.metadata e3)

pub record ReadArgs : Type 0 where
  pub stream_id : Option Str
  pub count : Option Str
  pub position : Option Str
  pub mode : Option Str
  pub output : Option Str

-- `Read`: the mode and the output are gone once they were taken.
pub record Read : Type 0 where
  pub stream_id : Str
  pub read_mode : Option ReadMode
  pub output_mode : Option OutputMode

-- `match r.value_of("count").unwrap_or("1") { … }`
unfoldable pub count_of : {E : Type 0} → Option Str → Outcome E (Option ℕ)
count_of arg =
    let s = unwrap_or arg (49 ∷ []) in
    if eq_str s all_name then ok none else (unwrap (parse_unsigned 255 s) >>= λ n. ok (some n))

-- `match r.value_of("mode") { … }`, with its `unimplemented!()` and its `unreachable!()`
unfoldable pub mode_of : {E : Type 0} → Option Str → Position → Option ℕ → Outcome E ReadMode
mode_of none position count = ok (forward_once position (unwrap_or count 10))
mode_of (some s) position count =
    if eq_str s forward_once_name
    then ok (forward_once position (unwrap_or count 10))
    else if eq_str s backward_name
    then ok (backward position (unwrap_or count 10))
    else panic

-- `map(OutputMode::from).unwrap_or(OutputMode::Debug)`
unfoldable pub output_or_debug : {E : Type 0} → Option Str → Outcome E OutputMode
output_or_debug none = ok debug
output_or_debug (some s) = output_of s

-- `unwrap_or("first").into()`
unfoldable pub position_or_first : {E : Type 0} → Option Str → Outcome E Position
position_or_first arg = position_of (unwrap_or arg (102 ∷ 105 ∷ 114 ∷ 115 ∷ 116 ∷ []))

unfoldable pub prepare_read : {E : Type 0} → ReadArgs → Outcome E Read
unfolding output_or_debug position_or_first
prepare_read r = do
  id ← unwrap r.stream_id
  count ← count_of r.count
  position ← position_or_first r.position
  mode ← mode_of r.mode position count
  output ← output_or_debug r.output
  ok (record { stream_id = id; read_mode = some mode; output_mode = some output })

pub record DeleteArgs : Type 0 where
  pub stream_id : Option Str
  pub expected_version : Option Str
  pub hard_delete : Bool
  pub require_master : Bool

-- The builder that `Delete::new` is given.
unfoldable pub prepare_delete : {E : Type 0} → DeleteArgs → Outcome E DeleteStreamBuilder
prepare_delete d = do
  id ← unwrap d.stream_id
  b1 ← Delete.set_stream_id id Delete.new
  s ← unwrap d.expected_version
  version ← version_of s
  let b2 = Delete.set_hard_delete d.hard_delete (Delete.set_expected_version version b1)
  ok (Delete.set_require_master d.require_master b2)
