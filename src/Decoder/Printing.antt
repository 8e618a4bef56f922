-- ===== src/Decoder/Printing.antt =====
-- What the decoder tool, decoder/src/main.rs, prints of all its input.
use eventstore_tcp.Prelude.{
  ℕ, zero, suc, true, false, Bytes, Str, Option, none, some, Outcome, ok, err, panic, stuck, List,
  [], ◌∷◌, ◌++◌, ◌<◌, ◌≡◌, ◌≢◌, refl, map, length, arith, >>=-eq-ok,
}
use eventstore_tcp.Errors.{IoError}
use eventstore_tcp.Protobuf.{Protobuf}
use eventstore_tcp.Protobuf.Laws.{IsProtobuf}
use eventstore_tcp.Crates.{Crates, IsCrates}
use eventstore_tcp.Codec.{Package}
use eventstore_tcp.Codec.Frame.{frame, IsValid}
use eventstore_tcp.Decoder.{
  Decoding, full, Item, decoded, error, ItemError, Line, text, failed, Tools, DecodingIterator,
  Printed, decode_group, read_line, at_end, give, read_group, next, print_item, add_printed,
  try_main,
}
use eventstore_tcp.Decoder.Laws.{IsTools, Spells, next_group, decode_group-frame}

module _ {Uuid Buf : Type 0} (c : Crates Uuid Buf) (p : Protobuf) (tools : Tools Buf)
    {E : Type 0} where
  -- What an item leaves: after a decoding fewer lines, after anything else none.
  abbrev Leaves : List (Line E) → Option (Item Uuid E) → DecodingIterator E → Type 0
  Leaves lines (some (decoded d)) it =
      (rest : List (Line E)) × (it ≡ record { inner = some rest }) × (length rest < length lines)
  Leaves lines (some (error e)) it = it ≡ record { inner = none }
  Leaves lines none it = it ≡ record { inner = none }

  Leaves-more :
      (line : Line E) (lines : List (Line E)) (o : Option (Item Uuid E)) (it : DecodingIterator E)
      → Leaves lines o it
      → Leaves (line ∷ lines) o it
  Leaves-more line lines (some (decoded d)) it (rest, e, less) = (rest, e, omega (arith, less))
  Leaves-more line lines (some (error x)) it e = e
  Leaves-more line lines none it e = e

  Leaves-give :
      (raw : Str) (lines : List (Line E)) (o : Option (Item Uuid E)) (it : DecodingIterator E)
      (d : Outcome IoError (Decoding Uuid))
      → give c p tools lines d ≡ ok (o, it)
      → Leaves (text raw ∷ lines) o it
  unfolding give
  Leaves-give raw lines o it d h =
      let (x, got, e) = >>=-eq-ok d _ h in
      let same : o ≡ some (decoded x) = cc in
      let over : it ≡ record { inner = some lines } = cc in rw same (lines, over, omega arith)

  read_group-Leaves :
      (combined : Bytes) (lines : List (Line E)) (o : Option (Item Uuid E))
      (it : DecodingIterator E)
      → read_group c p tools combined lines ≡ ok (o, it)
      → Leaves lines o it
  unfolding read_group at_end
  read_group-Leaves [] [] o it e = let same : o ≡ none = cc in rw same cc
  read_group-Leaves (b ∷ bs) [] o it e =
      let same : o ≡ some (error (ItemError.unexpected_eof)) = cc in rw same cc
  read_group-Leaves combined (failed x ∷ lines) o it e =
      let same : o ≡ some (error (ItemError.read_failed x)) = cc in rw same cc
  read_group-Leaves combined (text raw ∷ lines) o it e =
      let ((continues, bs), got, e1) = >>=-eq-ok (read_line c p tools raw) _ e in
      elim continues
          as (λ k.
            elim k [
              | true ↦ read_group c p tools (combined ++ bs) lines
              | false ↦ give c p tools lines (decode_group c p tools (combined ++ bs))
            ]
              ≡ ok (o, it)
            → Leaves (text raw ∷ lines) o it) [
              | true ↦ λ h.
                  Leaves-more (text raw) lines o it
                    (read_group-Leaves (combined ++ bs) lines o it h)
              | false ↦ λ h. Leaves-give raw lines o it (decode_group c p tools (combined ++ bs)) h
            ]
        e1

  next-Leaves :
      (lines : List (Line E)) (o : Option (Item Uuid E)) (it : DecodingIterator E)
      → next c p tools (record { inner = some lines }) ≡ ok (o, it)
      → Leaves lines o it
  unfolding next
  next-Leaves lines o it e = read_group-Leaves [] lines o it e

  next_ended_inner :
      (inner : Option (List (Line E))) (it' : DecodingIterator E) (o : Option (Item Uuid E))
      → next c p tools (record { inner = inner }) ≡ ok (o, it')
      → ((d : Decoding Uuid) → o ≢ some (decoded d))
      → next c p tools it' ≡ ok (none, it')
  unfolding next
  next_ended_inner none it' o e ne = let same : it' ≡ record { inner = none } = cc in rw same
  next_ended_inner (some lines) it' none e ne = rw (read_group-Leaves [] lines none it' e)
  next_ended_inner (some lines) it' (some (error x)) e ne =
      rw (read_group-Leaves [] lines (some (error x)) it' e)
  next_ended_inner (some lines) it' (some (decoded d)) e ne = absurd (ne d refl)

  -- Once the iterator has given an error or none, it gives none ever after.
  pub next_ended :
      (it it' : DecodingIterator E) (o : Option (Item Uuid E))
      → next c p tools it ≡ ok (o, it')
      → ((d : Decoding Uuid) → o ≢ some (decoded d))
      → next c p tools it' ≡ ok (none, it')
  next_ended it it' o e ne = next_ended_inner it.inner it' o e ne

  add_printed-ne-none :
      (d : Decoding Uuid) (r : Option (Printed Uuid E)) → r ≢ none → add_printed d r ≢ none
  unfolding add_printed
  add_printed-ne-none d none ne e = ne e
  add_printed-ne-none d (some (ok (ds, x))) ne e = cc
  add_printed-ne-none d (some (err x)) ne e = cc
  add_printed-ne-none d (some panic) ne e = cc
  add_printed-ne-none d (some stuck) ne e = cc

  print_item-ne-none :
      (rest : DecodingIterator E → Option (Printed Uuid E))
      (o : Outcome IoError (Option (Item Uuid E) × DecodingIterator E))
      → ((d : Decoding Uuid) (it : DecodingIterator E)
          → o ≡ ok (some (decoded d), it)
          → rest it ≢ none)
      → print_item rest o ≢ none
  unfolding print_item
  print_item-ne-none rest (ok (none, it)) h e = cc
  print_item-ne-none rest (ok (some (error x), it)) h e = cc
  print_item-ne-none rest (ok (some (decoded d), it)) h e =
      add_printed-ne-none d (rest it) (h d it refl) e
  print_item-ne-none rest (err x) h e = cc
  print_item-ne-none rest panic h e = cc
  print_item-ne-none rest stuck h e = cc

  -- As many calls of `next` as there are lines, and one more, are enough.
  pub try_main-ne-none :
      (n : ℕ) (lines : List (Line E))
      → length lines < n
      → try_main c p tools n (record { inner = some lines }) ≢ none
  unfolding try_main
  try_main-ne-none zero lines less = absurd (omega (arith, less))
  try_main-ne-none (suc n) lines less =
      print_item-ne-none (try_main c p tools n) (next c p tools (record { inner = some lines }))
        (λ d it e.
          let (rest, same, fewer) = next-Leaves lines (some (decoded d)) it e in
          rw same (try_main-ne-none n rest (omega (arith, less, fewer))))

  -- Lines that hold the frames of valid packages, each over one line or more.
  pub data Spelled : List (Line E) → List (Package Uuid) → Type 0 where
    no_more : Spelled [] []
    one_more :
        (ls : List Str) (pkg : Package Uuid) (lines : List (Line E)) (pkgs : List (Package Uuid))
        → IsValid c p pkg
        → Spells c p tools ls (frame c p pkg)
        → Spelled lines pkgs
        → Spelled (map text ls ++ lines) (pkg ∷ pkgs)

module _ {Uuid Buf : Type 0} {c : Crates Uuid Buf} (q : IsCrates c) {p : Protobuf} where
  module _ (pb : IsProtobuf p) {tools : Tools Buf} (t : IsTools c tools) {E : Type 0} where
    -- Of lines that hold the frames of valid packages, each over one line or more, the tool prints every
    -- package as decoded in full, in order, and ends without an error.
    pub try_main-frames :
        (n : ℕ) (lines : List (Line E)) (pkgs : List (Package Uuid))
        → Spelled c p tools lines pkgs
        → length pkgs < n
        → try_main c p tools n (record { inner = some lines })
          ≡ some (ok (map (λ pkg. full (length (frame c p pkg)) pkg) pkgs, none))
    unfolding try_main print_item give next read_group at_end
    try_main-frames zero lines pkgs s less = absurd (omega (arith, less))
    try_main-frames (suc n) lines pkgs no_more less = refl
    try_main-frames (suc n) lines pkgs (one_more ls pkg rest more v sp s) less = rw (
      next_group c p tools ls (frame c p pkg) rest sp,
      decode_group-frame q pb t pkg v,
      try_main-frames n rest more s (omega (arith, less)),
    )
