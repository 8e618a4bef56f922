-- ===== src/Decoder/Laws.antt =====
-- What the decoder tool, decoder/src/main.rs, makes of the bytes that lines hold.
use eventstore_tcp.Prelude.{
  ℕ, suc, true, false, Bytes, Str, Option, none, some, Outcome, ok, panic, List, [], ◌∷◌, ◌++◌, ◌≡◌,
  ◌≢◌, sym, ◌∙◌, ap, map, length, arith, append-nil, append_assoc, All, refl, lt→ltb,
}
use eventstore_tcp.Errors.{IoError}
use eventstore_tcp.Protobuf.{Protobuf}
use eventstore_tcp.Protobuf.Laws.{IsProtobuf}
use eventstore_tcp.Crates.{Crates, IsCrates}
use eventstore_tcp.Codec.{Package}
use eventstore_tcp.Codec.Frame.{frame, IsValid}
use eventstore_tcp.Codec.RoundTrip.{decode-frame, decode_partial}
use eventstore_tcp.Decoder.Text.{white, strip_all, trim, ends_with_comma}
use eventstore_tcp.Decoder.{
  full, partial, underflow, Item, error, read_failed, unexpected_eof, Line, text, failed, Tools,
  DecodingIterator, decoding_of, decode_group, read_line, at_end, give, read_group, next,
}

-- What is relied on of the crates: a buffer made of a vector holds its bytes.
pub record IsTools {Uuid Buf : Type 0} (c : Crates Uuid Buf) (tools : Tools Buf) : Type 0 where
  pub view_vec : (s : Bytes) → c.view (tools.from_vec s) ≡ s

-- The white space of ASCII.
pub data IsBlank : ℕ → Type 0 where
  tab : IsBlank 9
  line_feed : IsBlank 10
  vertical_tab : IsBlank 11
  form_feed : IsBlank 12
  carriage_return : IsBlank 13
  space : IsBlank 32

strip_one_blank :
    (b n : ℕ) (s : Bytes) → IsBlank b → strip_all (suc n) white (b ∷ s) ≡ strip_all n white s
unfolding strip_all
strip_one_blank b n s tab = refl
strip_one_blank b n s line_feed = refl
strip_one_blank b n s vertical_tab = refl
strip_one_blank b n s form_feed = refl
strip_one_blank b n s carriage_return = refl
strip_one_blank b n s space = refl

strip_all-IsBlank : (s : Bytes) → All IsBlank s → strip_all (length s) white s ≡ []
unfolding strip_all
strip_all-IsBlank [] h = refl
strip_all-IsBlank (b ∷ s) h = strip_one_blank b (length s) s h.0 ∙ strip_all-IsBlank s h.1

-- Nothing is left of a text of white space.
trim-IsBlank : (s : Str) → All IsBlank s → trim s ≡ []
unfolding trim
trim-IsBlank s h = rw (strip_all-IsBlank s h)

module _ {Uuid Buf : Type 0} (c : Crates Uuid Buf) (p : Protobuf) (tools : Tools Buf) where
  -- Lines that all go on, and the bytes on them.
  pub data GoesOn : List Str → Bytes → Type 0 where
    no_line : GoesOn [] []
    line :
        (raw : Str) (lines : List Str) (bs rest : Bytes)
        → read_line c p tools raw ≡ ok (true, bs)
        → GoesOn lines rest
        → GoesOn (raw ∷ lines) (bs ++ rest)

  -- Lines that make a group, of which the last one does not go on, and the bytes on them.
  pub data Spells : List Str → Bytes → Type 0 where
    last_line :
        (raw : Str) (bs : Bytes) → read_line c p tools raw ≡ ok (false, bs) → Spells (raw ∷ []) bs
    first_line :
        (raw : Str) (lines : List Str) (bs rest : Bytes)
        → read_line c p tools raw ≡ ok (true, bs)
        → Spells lines rest
        → Spells (raw ∷ lines) (bs ++ rest)

  -- The rest of the loop behind lines that go on.
  read_group-GoesOn :
      {E : Type 0} (ls : List Str) (combined bs : Bytes) (lines : List (Line E))
      → GoesOn ls bs
      → read_group c p tools combined (map text ls ++ lines)
        ≡ read_group c p tools (combined ++ bs) lines
  unfolding read_group
  read_group-GoesOn ls combined bs lines no_line = rw append-nil
  read_group-GoesOn ls combined bs lines (line raw rest b more e g) =
      rw e (read_group-GoesOn rest (combined ++ b) more lines g ∙ rw append_assoc)

  read_group-Spells :
      {E : Type 0} (ls : List Str) (combined bs : Bytes) (lines : List (Line E))
      → Spells ls bs
      → read_group c p tools combined (map text ls ++ lines)
        ≡ give c p tools lines (decode_group c p tools (combined ++ bs))
  unfolding read_group
  read_group-Spells ls combined bs lines (last_line raw b e) = rw e
  read_group-Spells ls combined bs lines (first_line raw rest b more e g) =
      rw e (read_group-Spells rest (combined ++ b) more lines g ∙ rw append_assoc)

  ends_with :
      {E : Type 0} (ls : List Str) {o : Outcome IoError (Option (Item Uuid E) × DecodingIterator E)}
      → read_group {E = E} c p tools [] (map text ls ++ []) ≡ o
      → read_group c p tools [] (map text ls) ≡ o
  ends_with ls e = ap (λ x. read_group c p tools [] x) (sym (append-nil _)) ∙ e

  -- The next item of lines that start with a group is the decoding of all bytes of the group at once,
  -- and what is left is what stands behind it.
  pub next_group :
      {E : Type 0} (ls : List Str) (bs : Bytes) (lines : List (Line E))
      → Spells ls bs
      → next c p tools (record { inner = some (map text ls ++ lines) })
        ≡ give c p tools lines (decode_group c p tools bs)
  unfolding next
  next_group ls bs lines s = read_group-Spells ls [] bs lines s

  -- Where the lines end before a group does, the item is an error, or none if nothing was on the lines;
  -- where reading a line fails, the item is that error and what was read before it is lost. In either
  -- case no lines are left.
  pub unfinished_group :
      {E : Type 0} (ls : List Str) (bs : Bytes) (e : E) (lines : List (Line E))
      → GoesOn ls bs
      → (next {E = E} c p tools (record { inner = some (map text ls) })
          ≡ ok (
            elim bs [ [] ↦ none | b ∷ rest ↦ some (error unexpected_eof) ],
            record { inner = none },
          ))
        × (next c p tools (record { inner = some (map text ls ++ (failed e ∷ lines)) })
            ≡ ok (some (error (read_failed e)), record { inner = none }))
  unfolding next read_group at_end
  unfinished_group ls [] e lines g = (
    ends_with ls (read_group-GoesOn ls [] [] [] g),
    read_group-GoesOn ls [] [] (failed e ∷ lines) g,
  )
  unfinished_group ls (b ∷ bs) e lines g = (
    ends_with ls (read_group-GoesOn ls [] (b ∷ bs) [] g),
    read_group-GoesOn ls [] (b ∷ bs) (failed e ∷ lines) g,
  )

  -- A line of nothing but the white space of ASCII, be it empty, makes the tool panic, behind any lines
  -- that go on and whatever lines follow it.
  pub blank_panics :
      {E : Type 0} (ls : List Str) (bs : Bytes) (raw : Str) (lines : List (Line E))
      → GoesOn ls bs
      → All IsBlank raw
      → next c p tools (record { inner = some (map text ls ++ (text raw ∷ lines)) }) ≡ panic
  unfolding next read_group read_line ends_with_comma
  blank_panics ls bs raw lines g blank =
      rw (read_group-GoesOn ls [] bs (text raw ∷ lines) g, trim-IsBlank raw blank)

module _ {Uuid Buf : Type 0} {c : Crates Uuid Buf} (q : IsCrates c) {p : Protobuf} where
  module _ (pb : IsProtobuf p) {tools : Tools Buf} (t : IsTools c tools) where
    -- The frame of a valid package decodes in full.
    pub decode_group-frame :
        (pkg : Package Uuid)
        → IsValid c p pkg
        → decode_group c p tools (frame c p pkg) ≡ ok (full (length (frame c p pkg)) pkg)
    unfolding decode_group decoding_of
    decode_group-frame pkg v =
        let (buf', got, left) =
          decode-frame q pb pkg (tools.from_vec (frame c p pkg)) [] v
            (t.view_vec (frame c p pkg) ∙ sym (append-nil (frame c p pkg))) in
        rw (got, left)

    -- Bytes behind the frame of a valid package are not decoded but counted.
    pub decode_group-append :
        (pkg : Package Uuid) (b : ℕ) (bs : Bytes)
        → IsValid c p pkg
        → decode_group c p tools (frame c p pkg ++ (b ∷ bs)) ≡ ok (partial (suc (length bs)) pkg)
    unfolding decode_group decoding_of
    decode_group-append pkg b bs v =
        let (buf', got, left) =
          decode-frame q pb pkg (tools.from_vec (frame c p pkg ++ (b ∷ bs))) (b ∷ bs) v
            (t.view_vec (frame c p pkg ++ (b ∷ bs))) in
        rw (got, left, lt→ltb 0 (suc (length bs)) (omega arith))

    -- Of less than the frame of a valid package nothing is decoded.
    pub decode_group_short :
        (pkg : Package Uuid) (s missing : Bytes)
        → IsValid c p pkg
        → s ++ missing ≡ frame c p pkg
        → missing ≢ []
        → decode_group c p tools s ≡ ok underflow
    unfolding decode_group decoding_of
    decode_group_short pkg s missing v e ne =
        rw (decode_partial q pb pkg (tools.from_vec s) missing v (rw (t.view_vec) e) ne)
