-- ===== src/Decoder.antt =====
-- decoder/src/main.rs: a tool that reads hexadecimal text by lines, decodes the packages and prints
-- them. A line that ends in a comma goes on in the next one.
pub mod Text
pub mod Laws
pub mod Printing
pub mod Ends
use eventstore_tcp.Prelude.{
  ℕ, zero, suc, Bool, true, false, Bytes, Str, Option, none, some, Outcome, ok, err, panic, stuck,
  ◌>>=◌, unwrap, List, [], ◌∷◌, ◌++◌, ◌≡◌, length, ltb, if◌then◌else◌,
}
use eventstore_tcp.Errors.{IoError}
use eventstore_tcp.Protobuf.{Protobuf}
use eventstore_tcp.Crates.{Crates}
use eventstore_tcp.Codec.{Package, decode}
use eventstore_tcp.Decoder.Text.{trim, ends_with_comma}

pub data Decoding (Uuid : Type 0) : Type 0 where
  full : ℕ → Package Uuid → Decoding Uuid
  partial : ℕ → Package Uuid → Decoding Uuid
  underflow : Decoding Uuid
  failure : IoError → Decoding Uuid

-- The errors of the iterator: `E` is what reading a line can fail with.
pub data ItemError (E : Type 0) : Type 0 where
  read_failed : E → ItemError E
  unexpected_eof : ItemError E

-- What `BufRead::lines` gives, one after the other.
pub data Line (E : Type 0) : Type 0 where
  text : Str → Line E
  failed : E → Line E

-- `io::Result<Decoding>`
pub data Item (Uuid E : Type 0) : Type 0 where
  decoded : Decoding Uuid → Item Uuid E
  error : ItemError E → Item Uuid E

-- The crates regex, hex and bytes: `Regex::replace_all` with the empty text, `Vec::<u8>::from_hex`,
-- and the conversion of a vector into a buffer.
pub record Tools (Buf : Type 0) : Type 0 where
  pub strip : Str → Str
  pub from_hex : Str → Option Bytes
  pub from_vec : Bytes → Buf

-- `DecodingIterator`: the lines that are left, or none when `inner` was taken.
pub record DecodingIterator (E : Type 0) : Type 0 where
  pub inner : Option (List (Line E))

-- What `try_main` prints, and the error that it ends with if there is one.
abbrev pub Printed : Type 0 → Type 0 → Type 0
Printed Uuid E = Outcome IoError (List (Decoding Uuid) × Option (ItemError E))

unfoldable pub add_printed :
    {Uuid E : Type 0} → Decoding Uuid → Option (Printed Uuid E) → Option (Printed Uuid E)
add_printed d none = none
add_printed d (some (ok (ds, e))) = some (ok (d ∷ ds, e))
add_printed d (some (err e)) = some (err e)
add_printed d (some panic) = some panic
add_printed d (some stuck) = some stuck

-- The body of the loop on an item, where `rest` is what the later calls print.
unfoldable pub print_item :
    {Uuid E : Type 0}
    → (DecodingIterator E → Option (Printed Uuid E))
    → Outcome IoError (Option (Item Uuid E) × DecodingIterator E)
    → Option (Printed Uuid E)
unfolding add_printed
print_item rest (ok (none, it)) = some (ok ([], none))
print_item rest (ok (some (error e), it)) = some (ok ([], some e))
print_item rest (ok (some (decoded d), it)) = add_printed d (rest it)
print_item rest (err e) = some (err e)
print_item rest panic = some panic
print_item rest stuck = some stuck

module _ {Uuid Buf : Type 0} (c : Crates Uuid Buf) (p : Protobuf) (tools : Tools Buf) where
  -- `match res { … }`, where the codec returned
  unfoldable pub decoding_of :
      ℕ → Outcome IoError (Option (Package Uuid)) × Buf → Outcome IoError (Decoding Uuid)
  decoding_of combined_len (ok (some pkg), buf) =
      let len = length (c.view buf) in
      ok (if ltb 0 len then partial len pkg else full combined_len pkg)
  decoding_of combined_len (ok none, buf) = ok underflow
  decoding_of combined_len (err e, buf) = ok (failure e)
  decoding_of combined_len (panic, buf) = panic
  decoding_of combined_len (stuck, buf) = stuck

  -- The decoding of what a group of lines holds.
  unfoldable pub decode_group : Bytes → Outcome IoError (Decoding Uuid)
  unfolding decoding_of
  decode_group combined = decoding_of (length combined) (decode c p (tools.from_vec combined))

  -- A line: whether it goes on, and its bytes.
  unfoldable pub read_line : Str → Outcome IoError (Bool × Bytes)
  read_line raw = do
    let line = trim raw
    continues ← ends_with_comma line
    bytes ← unwrap (tools.from_hex (tools.strip line))
    ok (continues, bytes)

  -- `return Some(Ok(…))`, with the lines that are left.
  unfoldable pub give :
      {E : Type 0}
      → List (Line E)
      → Outcome IoError (Decoding Uuid)
      → Outcome IoError (Option (Item Uuid E) × DecodingIterator E)
  give lines decoding = do d ← decoding; ok (some (decoded d), record { inner = some lines })

  -- `if !combined.is_empty() { … } else { … }`
  unfoldable pub at_end : {E : Type 0} → Bytes → Option (Item Uuid E)
  at_end [] = none
  at_end (b ∷ bs) = some (error unexpected_eof)

module _ {Uuid Buf E : Type 0} (c : Crates Uuid Buf) (p : Protobuf) (tools : Tools Buf) where
  -- The loop of `next`, over the lines that are left.
  unfoldable pub read_group :
      Bytes → List (Line E) → Outcome IoError (Option (Item Uuid E) × DecodingIterator E)
  unfolding at_end
  read_group combined [] = ok (at_end c p tools combined, record { inner = none })
  read_group combined (failed e ∷ lines) =
      ok (some (error (read_failed e)), record { inner = none })
  read_group combined (text raw ∷ lines) = do
    (continues, bytes) ← read_line c p tools raw
    elim continues [
      | true ↦ read_group (combined ++ bytes) lines
      | false ↦ give c p tools lines (decode_group c p tools (combined ++ bytes))
    ]

  -- `Iterator::next`
  unfoldable pub next :
      DecodingIterator E → Outcome IoError (Option (Item Uuid E) × DecodingIterator E)
  next it = elim (it.inner) [ none ↦ ok (none, it) | some lines ↦ read_group [] lines ]

  -- `try_main`, of at most `n` calls of `next`; none when they were not enough.
  unfoldable pub try_main : ℕ → DecodingIterator E → Option (Printed Uuid E)
  unfolding print_item
  try_main zero it = none
  try_main (suc n) it = print_item (try_main n) (next it)
