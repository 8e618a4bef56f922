-- ===== src/Testclient/Output.antt =====
-- `OutputMode` of testclient/src/read.rs: how the events of a reply are printed. The derived `Debug`
-- texts and the crate json are parameters, as is what is written to.
use eventstore_tcp.Prelude.{
  Bool, Bytes, Str, from_utf8, Option, none, some, Outcome, ok, err, panic, ◌>>=◌, List, [], ◌∷◌,
  ◌++◌, map, if◌then◌else◌,
}
use eventstore_tcp.Prelude.Int.{ℤ}
use eventstore_tcp.Prelude.Hex.{hex_byte}
use eventstore_tcp.Message.EventRecord.{EventRecord}
use eventstore_tcp.Adapted.Keeps.{success, failure}
use eventstore_tcp.Adapted.Event.{ReadEventError}
use eventstore_tcp.Adapted.Stream.{ReadStreamError}
use eventstore_tcp.Adapted.All.{ReadAllError}
use eventstore_tcp.Adapted.Convert.{
  AdaptedMessage, read_event_completed, read_stream_events_completed, read_all_events_completed,
}
use eventstore_tcp.Testclient.Parse.{eq_str}

pub data OutputMode : Type 0 where
  debug json_oneline hex : OutputMode

abbrev debug_name : Str
debug_name = 100 ∷ 101 ∷ 98 ∷ 117 ∷ 103 ∷ []

abbrev json_oneline_name : Str
json_oneline_name = 106 ∷ 115 ∷ 111 ∷ 110 ∷ 95 ∷ 111 ∷ 110 ∷ 101 ∷ 108 ∷ 105 ∷ 110 ∷ 101 ∷ []

abbrev hex_name : Str
hex_name = 104 ∷ 101 ∷ 120 ∷ []

-- `From<&str> for OutputMode`
unfoldable pub output_of : {E : Type 0} → Str → Outcome E OutputMode
output_of s =
    if eq_str s debug_name
    then ok debug
    else if eq_str s json_oneline_name
    then ok json_oneline
    else if eq_str s hex_name
    then ok hex
    else panic

-- `ByteParsingError`, where `J` is the error of the crate json
pub data ByteParsingError (J : Type 0) : Type 0 where
  utf8 : ByteParsingError J
  json : J → ByteParsingError J

pub data ReadFailure : Type 0 where
  event : ReadEventError → ReadFailure
  stream : ReadStreamError → ReadFailure
  all : ReadAllError → ReadFailure

-- What is printed with: `V` and `J` are the values and the errors of the crate json, with its
-- `parse`, an empty object, the value of a text, the object of data and metadata, and the text of a
-- value. The texts of `{:?}` and `{:#?}` have the flag `verbose` first.
pub record Printing (V J : Type 0) : Type 0 where
  pub parse : Str → Outcome J V
  pub new_object : V
  pub string_value : Str → V
  pub object : V → V → V
  pub write : V → Bytes
  pub event_text : Bool → EventRecord → Bytes
  pub message_text : Bool → AdaptedMessage → Bytes
  pub failure_text : Bool → ReadFailure → Bytes
  pub number_text : ℤ → Bytes
  pub parsing_text : ByteParsingError J → Bytes

-- Two writers that what is written to them is put behind what they hold, `out` and `err`.
pub record Written : Type 0 where
  pub out : Bytes
  pub err_out : Bytes

-- `write!` and `writeln!` to each of them
abbrev pub write_out : Bytes → Written → Written
write_out s w = record w { out = w.out ++ s }

abbrev pub write_err : Bytes → Written → Written
write_err s w = record w { err_out = w.err_out ++ s }

abbrev pub newline : Bytes
newline = 10 ∷ []

unfoldable pub write_hex : Bytes → Written → Written
write_hex [] w = w
write_hex (b ∷ bs) w = write_hex bs (write_out (hex_byte b) w)

abbrev failed_to_parse : Str
failed_to_parse =
    70 ∷ 97 ∷ 105 ∷ 108 ∷ 101 ∷ 100 ∷ 32 ∷ 116 ∷ 111 ∷ 32 ∷ 112 ∷ 97 ∷ 114 ∷ 115 ∷ 101 ∷ 32 ∷ 101
    ∷ 118 ∷ 101 ∷ 110 ∷ 116 ∷ 32 ∷ []

abbrev read_failed : Str
read_failed = 82 ∷ 101 ∷ 97 ∷ 100 ∷ 32 ∷ 102 ∷ 97 ∷ 105 ∷ 108 ∷ 101 ∷ 100 ∷ 58 ∷ 32 ∷ []

abbrev unexpected : Str
unexpected =
    85 ∷ 110 ∷ 101 ∷ 120 ∷ 112 ∷ 101 ∷ 99 ∷ 116 ∷ 101 ∷ 100 ∷ 32 ∷ 109 ∷ 101 ∷ 115 ∷ 115 ∷ 97 ∷ 103
    ∷ 101 ∷ 32 ∷ 114 ∷ 101 ∷ 99 ∷ 101 ∷ 105 ∷ 118 ∷ 101 ∷ 100 ∷ 58 ∷ 32 ∷ []

module _ {V J : Type 0} (pr : Printing V J) where
  abbrev parsed_value : Outcome J V → Outcome (ByteParsingError J) V
  parsed_value (ok v) = ok v
  parsed_value (err e) = err (json e)
  parsed_value panic = panic
  parsed_value Outcome.stuck = Outcome.stuck

  parse_text : Option Str → Outcome (ByteParsingError J) V
  parse_text none = err utf8
  parse_text (some []) = ok pr.new_object
  parse_text (some (b ∷ bs)) = parsed_value (pr.parse (b ∷ bs))

  -- `JsonWrapper::parse_bytes`
  unfoldable pub parse_bytes : Bytes → Outcome (ByteParsingError J) V
  unfolding parse_text
  parse_bytes s = parse_text (from_utf8 s)

  parse_metadata : Option Bytes → Outcome (ByteParsingError J) V
  parse_metadata none = ok (pr.string_value [])
  parse_metadata (some x) = parse_bytes x

  -- `JsonWrapper::as_json`
  unfoldable pub as_json : EventRecord → Outcome (ByteParsingError J) V
  unfolding parse_metadata
  as_json x = do d ← parse_bytes x.data_bytes; m ← parse_metadata x.metadata; ok (pr.object d m)

  write_json : EventRecord → Written → Outcome (ByteParsingError J) V → Written
  write_json x w (ok obj) = write_out newline (write_out (pr.write obj) w)
  write_json x w (err fail) =
      write_err
        (failed_to_parse
          ++ (x.event_stream_id ++ (64 ∷ pr.number_text x.event_number))
          ++ (58 ∷ 32 ∷ pr.parsing_text fail)
          ++ newline)
        w
  write_json x w panic = w
  write_json x w Outcome.stuck = w

  write_metadata : Option Bytes → Written → Written
  write_metadata none w = w
  write_metadata (some m) w = write_hex m (write_out (32 ∷ []) w)

  unfoldable pub format_event : OutputMode → Bool → EventRecord → Written → Written
  unfolding write_json write_metadata
  format_event debug verbose x w = write_out (pr.event_text verbose x ++ newline) w
  format_event json_oneline verbose x w = write_json x w (as_json x)
  format_event hex verbose x w =
      write_out newline (write_metadata x.metadata (write_hex x.data_bytes w))

  unfoldable pub format_events : OutputMode → Bool → List EventRecord → Written → Written
  format_events mode verbose [] w = w
  format_events mode verbose (x ∷ xs) w =
      format_events mode verbose xs (format_event mode verbose x w)

  unfoldable pub format_fail : Bool → ReadFailure → Written → Written
  format_fail verbose fail w = write_err (read_failed ++ pr.failure_text verbose fail ++ newline) w

  unfoldable pub format : OutputMode → Bool → AdaptedMessage → Written → Written
  format mode verbose (read_event_completed (success rie)) w =
      format_events mode verbose (map (λ x. x.event) (rie ∷ [])) w
  format mode verbose (read_stream_events_completed dir (success page)) w =
      format_events mode verbose (map (λ x. x.event) page.events) w
  format mode verbose (read_all_events_completed dir (success page)) w =
      format_events mode verbose (map (λ x. x.event) page.events) w
  format mode verbose (read_event_completed (failure fail)) w = format_fail verbose (event fail) w
  format mode verbose (read_stream_events_completed dir (failure fail)) w =
      format_fail verbose (stream fail) w
  format mode verbose (read_all_events_completed dir (failure fail)) w =
      format_fail verbose (all fail) w
  format mode verbose x w = write_err (unexpected ++ pr.message_text verbose x ++ newline) w
