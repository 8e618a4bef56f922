-- ===== src/Example/Dumps.antt =====
-- The theorem on the hexdump, at eighteen bytes.
use eventstore_tcp.Prelude.{true, Bytes, ok, [], ◌∷◌, ◌/◌, ◌≡◌}
use eventstore_tcp.Errors.{ErrorKind}
use eventstore_tcp.Raw.Hexdump.{dump}
use eventstore_tcp.Raw.Hexdump.Laws.{lines, dump-lines}

abbrev eighteen : Bytes
eighteen = 0 ∷ 1 ∷ 2 ∷ 3 ∷ 4 ∷ 5 ∷ 6 ∷ 7 ∷ 8 ∷ 9 ∷ 65 ∷ 66 ∷ 67 ∷ 68 ∷ 69 ∷ 70 ∷ 71 ∷ 126 ∷ []

dump-lines_example :
    (out : Bytes) × (dump {E = ErrorKind} true eighteen 2 ≡ ok out) × (lines out ≡ 33 / 16)
dump-lines_example = dump-lines true eighteen 2
