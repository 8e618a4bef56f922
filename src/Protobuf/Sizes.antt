-- ===== src/Protobuf/Sizes.antt =====
-- The length of a row of writes, from the lengths of its parts.
use eventstore_tcp.Prelude.{
  ℕ, Bytes, List, [], ◌∷◌, ◌+◌, ◌≡◌, refl, Bool, true, false, ltb, ltb→lt, if◌then◌else◌, Option,
  none, some, length, length-append, arith,
}
use eventstore_tcp.Protobuf.{Protobuf, write_all, write_opt, write_each, size_opt, size_each}
use eventstore_tcp.Protobuf.Laws.{IsProtobuf}

abbrev pub sum : List ℕ → ℕ
sum [] = 0
sum (n ∷ ns) = n + sum ns

-- Each write of the row has the length beside it.
abbrev pub Sized : List Bytes → List ℕ → Type 0
Sized [] [] = Unit
Sized (w ∷ ws) (n ∷ ns) = (length w ≡ n) × Sized ws ns
Sized _ _ = ⊥

pub length-write_all :
    (ws : List Bytes) (ns : List ℕ) → Sized ws ns → length (write_all ws) ≡ sum ns
length-write_all [] [] h = refl
length-write_all [] (n ∷ ns) h = absurd h
length-write_all (w ∷ ws) [] h = absurd h
length-write_all (w ∷ ws) (n ∷ ns) h =
    omega (arith, length-append w (write_all ws), h.0, length-write_all ws ns h.1)

pub length-write_opt :
    {A : Type 0} (o : Option A) (w : A → Bytes) (size : A → ℕ)
    → ((a : A) → length (w a) ≡ size a)
    → length (write_opt o w) ≡ size_opt o size
length-write_opt none w size h = refl
length-write_opt (some a) w size h = h a

pub length-write_each :
    {A : Type 0} (as' : List A) (w : A → Bytes) (size : A → ℕ)
    → ((a : A) → length (w a) ≡ size a)
    → length (write_each as' w) ≡ size_each as' size
length-write_each [] w size h = refl
length-write_each (a ∷ as') w size h =
    omega (arith, length-append (w a) (write_each as' w), h a, length-write_each as' w size h)

-- `if !skip { … }`
pub length-write_unless :
    (skip : Bool) (w : Bytes) (n : ℕ)
    → length w ≡ n
    → length (if skip then [] else w) ≡ (if skip then 0 else n)
length-write_unless true w n h = refl
length-write_unless false w n h = h

module _ {p : Protobuf} (q : IsProtobuf p) where
  -- A value behind a one-byte tag.
  pub length_field :
      (t : ℕ) (v : Bytes) (n : ℕ)
      → ltb t 128 ≡ true
      → length v ≡ n
      → length (p.write_with_tag t v) ≡ 1 + n
  length_field t v n lt h = omega (arith, q.tag_size t v (ltb→lt t 128 lt), h)
