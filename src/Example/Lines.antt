-- ===== src/Example/Lines.antt =====
-- The theorems on the decoder tool, at lines that hold a request.
use eventstore_tcp.Prelude.{
  ℕ, true, false, Bytes, Str, Option, none, some, ok, panic, stuck, List, [], ◌∷◌, ◌++◌, map, ◌+◌,
  ◌-◌, ◌*◌, ◌≡◌, ◌≢◌, refl, length, arith, ltb, ◌==◌, if◌then◌else◌,
}
use eventstore_tcp.Prelude.Int.{as_u64}
use eventstore_tcp.Auth
use eventstore_tcp.Message.ReadEvent
use eventstore_tcp.Raw
use eventstore_tcp.Codec.Frame.{frame, body, header}
use eventstore_tcp.Decoder.{
  Decoding, full, Line, text, failed, Tools, Item, error, ItemError, read_line, next, try_main,
  Printed,
}
use eventstore_tcp.Decoder.Text.{trim, ends_with_comma, strip_all}
use eventstore_tcp.Decoder.Laws.{
  IsTools, GoesOn, no_line, line, Spells, last_line, unfinished_group, blank_panics, space, tab,
}
use eventstore_tcp.Decoder.Printing.{next_ended, Spelled, no_more, one_more, try_main-frames}
use eventstore_tcp.Decoder.Ends.{try_main_ends}
use eventstore_tcp.Prelude.Hex.{hex_byte}
use eventstore_tcp.Example.Wire.{wire, wire-IsProtobuf}
use eventstore_tcp.Example.Kit.{kit, kit-IsCrates, Id16, Buffer}
use eventstore_tcp.Example.Sample.{sample, sample-IsValid}

abbrev without_separators : Str → Str
without_separators [] = []
without_separators (b ∷ s) =
    let rest = without_separators s in if b == 44 then rest else if b == 32 then rest else b ∷ rest

abbrev digit : ℕ → ℕ
digit d = if ltb d 58 then d - 48 else d - 87

abbrev pairs : Str → Option Bytes
pairs [] = some []
pairs (a ∷ []) = none
pairs (a ∷ b ∷ s) = elim (pairs s) [
  | none ↦ none
  | some rest ↦ some ((16 * digit a + digit b) ∷ rest)
]

-- Commas and blanks are taken out; the digits are of lower case.
abbrev tools : Tools Buffer
tools = record {
  strip = without_separators;
  from_hex = pairs;
  from_vec = λ s. record { held = s; room = 0 };
}

tools-IsTools : IsTools kit tools
tools-IsTools = record { view_vec = λ s. refl }

abbrev hex_text : Bytes → Str
hex_text [] = []
hex_text (b ∷ bs) = hex_byte b ++ hex_text bs

abbrev request_line : Str
request_line = hex_text (frame kit wire sample)

request_read : read_line kit wire tools request_line ≡ ok (false, frame kit wire sample)
unfolding read_line trim strip_all ends_with_comma hex_byte frame body header Raw.encode
    Raw.discriminator Auth.encode ReadEvent.write_message as_u64
request_read = refl

-- Twice the request, a line each.
abbrev input : List (Line (Unit {0}))
input = text request_line ∷ text request_line ∷ []

spelled : Spells kit wire tools (request_line ∷ []) (frame kit wire sample)
spelled = last_line request_line (frame kit wire sample) request_read

input-Spelled : Spelled kit wire tools input (sample ∷ sample ∷ [])
input-Spelled =
    one_more (request_line ∷ []) sample _ _ sample-IsValid spelled
      (one_more (request_line ∷ []) sample _ _ sample-IsValid spelled no_more)

try_main-frames_example :
    try_main kit wire tools 3 (record { inner = some input })
    ≡ some (ok (map (λ x. full (length (frame kit wire x)) x) (sample ∷ sample ∷ []), none))
try_main-frames_example =
    try_main-frames kit-IsCrates wire-IsProtobuf tools-IsTools 3 input (sample ∷ sample ∷ [])
      input-Spelled (omega arith)

try_main_ends_example :
    (o : Printed Id16 (Unit {0})) × (try_main kit wire tools 3 (record { inner = some input })
      ≡ some o)
    × (o ≢ stuck)
try_main_ends_example = try_main_ends kit-IsCrates wire-IsProtobuf tools 3 input (omega arith)

-- "01, ", after which nothing comes.
abbrev open_line : Str
open_line = 48 ∷ 49 ∷ 44 ∷ 32 ∷ []

open_read : read_line kit wire tools open_line ≡ ok (true, 1 ∷ [])
unfolding read_line trim strip_all ends_with_comma
open_read = refl

open-GoesOn : GoesOn kit wire tools (open_line ∷ []) (1 ∷ [])
open-GoesOn = line open_line [] (1 ∷ []) [] open_read no_line

unfinished_group_example :
    (next {E = Unit {0}} kit wire tools (record { inner = some (text open_line ∷ []) })
      ≡ ok (some (error ItemError.unexpected_eof), record { inner = none }))
    × (next {E = Unit {0}} kit wire tools
          (record { inner = some (text open_line ∷ failed tt ∷ []) })
        ≡ ok (some (error (ItemError.read_failed tt)), record { inner = none }))
unfinished_group_example =
    unfinished_group kit wire tools (open_line ∷ []) (1 ∷ []) tt [] open-GoesOn

open_ends :
    next {E = Unit {0}} kit wire tools (record { inner = some (text open_line ∷ []) })
    ≡ ok (some (error ItemError.unexpected_eof), record { inner = none })
open_ends = (unfinished_group kit wire tools (open_line ∷ []) (1 ∷ []) tt [] open-GoesOn).0

not_decoded :
    (d : Decoding Id16)
    → ◌≢◌ {A = Option (Item Id16 (Unit {0}))}
        (some (error ItemError.unexpected_eof))
        (some (Item.decoded d))
not_decoded d e = cc

next_ended_example :
    next {E = Unit {0}} kit wire tools (record { inner = none })
    ≡ ok (none, record { inner = none })
next_ended_example =
    next_ended kit wire tools (record { inner = some (text open_line ∷ []) })
      (record { inner = none }) (some (error ItemError.unexpected_eof)) open_ends not_decoded

blank_panics_example :
    next {E = Unit {0}} kit wire tools
      (record { inner = some (text open_line ∷ text (32 ∷ 9 ∷ []) ∷ input) })
    ≡ panic
blank_panics_example =
    blank_panics kit wire tools (open_line ∷ []) (1 ∷ []) (32 ∷ 9 ∷ []) input open-GoesOn
      (space, (tab, tt))
