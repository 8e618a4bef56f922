-- ===== src/Decoder/Ends.antt =====
-- That the decoder tool, decoder/src/main.rs, ends on every input.
use eventstore_tcp.Prelude.{
  ℕ, zero, suc, Bool, true, false, Bytes, Str, Option, none, some, Outcome, ok, err, panic, stuck,
  unwrap, List, [], ◌∷◌, ◌++◌, ◌<◌, ◌≡◌, ◌≢◌, length, ap, ◌∙◌, Option-cases, inl, inr,
}
use eventstore_tcp.Errors.{IoError}
use eventstore_tcp.Protobuf.{Protobuf}
use eventstore_tcp.Protobuf.Laws.{IsProtobuf}
use eventstore_tcp.Crates.{Crates, IsCrates}
use eventstore_tcp.Codec.{Package, decode}
use eventstore_tcp.Codec.Ends.{>>=-ne-stuck, unwrap-ne-stuck, decode-ne-stuck}
use eventstore_tcp.Decoder.Text.{trim, ends_with_comma}
use eventstore_tcp.Decoder.{
  Decoding, Item, decoded, error, Line, text, failed, Tools, DecodingIterator, Printed, decoding_of,
  decode_group, read_line, give, read_group, next, print_item, add_printed, try_main,
}
use eventstore_tcp.Decoder.Printing.{try_main-ne-none}

ok-ne-stuck : {E A : Type 0} {a : A} → ◌≢◌ {A = Outcome E A} (ok a) stuck
ok-ne-stuck e = cc

ends_with_comma-ne-stuck : {E : Type 0} (s : Str) → ends_with_comma {E = E} s ≢ stuck
unfolding ends_with_comma
ends_with_comma-ne-stuck s = >>=-ne-stuck (unwrap _) _ (unwrap-ne-stuck _) (λ b. ok-ne-stuck)

add_printed-ne-stuck :
    {Uuid E : Type 0} (d : Decoding Uuid) (r : Option (Printed Uuid E))
    → r ≢ some stuck
    → add_printed d r ≢ some stuck
unfolding add_printed
add_printed-ne-stuck d none ne e = cc
add_printed-ne-stuck d (some (ok (ds, x))) ne e = cc
add_printed-ne-stuck d (some (err x)) ne e = cc
add_printed-ne-stuck d (some panic) ne e = cc
add_printed-ne-stuck d (some stuck) ne e = ne e

print_item-ne-stuck :
    {Uuid E : Type 0} (rest : DecodingIterator E → Option (Printed Uuid E))
    (o : Outcome IoError (Option (Item Uuid E) × DecodingIterator E))
    → ((it : DecodingIterator E) → rest it ≢ some stuck)
    → o ≢ stuck
    → print_item rest o ≢ some stuck
unfolding print_item
print_item-ne-stuck rest (ok (none, it)) h ne e = cc
print_item-ne-stuck rest (ok (some (error x), it)) h ne e = cc
print_item-ne-stuck rest (ok (some (decoded d), it)) h ne e =
    add_printed-ne-stuck d (rest it) (h it) e
print_item-ne-stuck rest (err x) h ne e = cc
print_item-ne-stuck rest panic h ne e = cc
print_item-ne-stuck rest stuck h ne e = absurd (ne (cc))

module _ {Uuid Buf : Type 0} {c : Crates Uuid Buf} (q : IsCrates c) {p : Protobuf}
    (pb : IsProtobuf p) (tools : Tools Buf) where
  decoding_of-ne-stuck :
      (n : ℕ) (x : Outcome IoError (Option (Package Uuid)) × Buf)
      → x.0 ≢ stuck
      → decoding_of c p tools n x ≢ stuck
  unfolding decoding_of
  decoding_of-ne-stuck n (ok (some pkg), buf) h e = cc
  decoding_of-ne-stuck n (ok none, buf) h e = cc
  decoding_of-ne-stuck n (err x, buf) h e = cc
  decoding_of-ne-stuck n (panic, buf) h e = cc
  decoding_of-ne-stuck n (stuck, buf) h e = absurd (h (cc))

  decode_group-ne-stuck : (s : Bytes) → decode_group c p tools s ≢ stuck
  unfolding decode_group
  decode_group-ne-stuck s =
      decoding_of-ne-stuck (length s) (decode c p (tools.from_vec s))
        (decode-ne-stuck q pb (tools.from_vec s))

  read_line-ne-stuck : (raw : Str) → read_line c p tools raw ≢ stuck
  unfolding read_line
  read_line-ne-stuck raw =
      >>=-ne-stuck (ends_with_comma (trim raw)) _ (ends_with_comma-ne-stuck (trim raw))
        (λ b. >>=-ne-stuck (unwrap _) _ (unwrap-ne-stuck _) (λ s. ok-ne-stuck))

  go_on-ne-stuck :
      {E : Type 0} (continues : Bool) (more : Bytes) (lines : List (Line E))
      → read_group c p tools more lines ≢ stuck
      → elim continues [
        | true ↦ read_group {E = E} c p tools more lines
        | false ↦ give c p tools lines (decode_group c p tools more)
      ]
        ≢ stuck
  unfolding give
  go_on-ne-stuck true more lines h = h
  go_on-ne-stuck false more lines h =
      >>=-ne-stuck (decode_group c p tools more) _ (decode_group-ne-stuck more) (λ d. ok-ne-stuck)

  read_group-ne-stuck :
      {E : Type 0} (combined : Bytes) (lines : List (Line E))
      → read_group {E = E} c p tools combined lines ≢ stuck
  unfolding read_group
  read_group-ne-stuck combined [] = λ e. cc
  read_group-ne-stuck combined (failed x ∷ lines) = λ e. cc
  read_group-ne-stuck combined (text raw ∷ lines) =
      >>=-ne-stuck (read_line c p tools raw) _ (read_line-ne-stuck raw) (λ x.
        go_on-ne-stuck x.0 (combined ++ x.1) lines (read_group-ne-stuck (combined ++ x.1) lines))

  next-ne-stuck :
      {E : Type 0} (inner : Option (List (Line E)))
      → next c p tools (record { inner = inner }) ≢ stuck
  unfolding next
  next-ne-stuck none = λ e. cc
  next-ne-stuck (some lines) = read_group-ne-stuck [] lines

  try_main-ne-stuck :
      {E : Type 0} (n : ℕ) (it : DecodingIterator E) → try_main c p tools n it ≢ some stuck
  unfolding try_main
  try_main-ne-stuck zero it = λ e. cc
  try_main-ne-stuck (suc n) it =
      print_item-ne-stuck (try_main c p tools n) (next c p tools it) (try_main-ne-stuck n)
        (next-ne-stuck it.inner)

  -- However the input reads, the tool ends, with what it printed or in a panic: as many calls of `next`
  -- as there are lines, and one more, are enough, and no loop of the codec or of a reader runs out of
  -- its fuel.
  pub try_main_ends :
      {E : Type 0} (n : ℕ) (lines : List (Line E))
      → length lines < n
      → (o : Printed Uuid E) × (try_main c p tools n (record { inner = some lines }) ≡ some o)
        × (o ≢ stuck)
  try_main_ends n lines less =
      elim (Option-cases (try_main c p tools n (record { inner = some lines }))) [
        | inl ran_out ↦ absurd (try_main-ne-none c p tools n lines less ran_out)
        | inr (o, got) ↦
            (o, got, λ e. try_main-ne-stuck n (record { inner = some lines }) (got ∙ ap some e))
      ]
