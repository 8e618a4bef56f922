-- ===== src/Protobuf.antt =====
-- What the message code calls of the `quick_protobuf` crate, as a parameter, and the read loop that
-- every `from_reader` of src/raw/client_messages.rs runs.
-- A `BytesReader` over its buffer is the list of the bytes that it has still to read.
pub mod Laws
pub mod Forward
pub mod Loop
pub mod Sizes
pub mod Plain
use eventstore_tcp.Prelude.{
  ℕ, zero, suc, Bool, true, false, Bytes, Str, Outcome, ok, err, panic, stuck, List, [], ◌∷◌, ◌++◌,
  Option, none, some, ◌+◌, ◌==◌, if◌then◌else◌,
}
use eventstore_tcp.Prelude.Int.{ℤ}

-- A read: its result, and what is left to read. An error of the crate is told apart by a number.
abbrev pub Rd : Type 0 → Type 0
Rd A = Bytes → Outcome ℕ A × Bytes

abbrev pub continue : {A B : Type 0} → Outcome ℕ A → (A → Rd B) → Rd B
continue (ok a) f r = f a r
continue (err e) f r = (err e, r)
continue panic f r = (panic, r)
continue stuck f r = (stuck, r)

infixl 5 ◌>>=◌ ◌>>◌
unfoldable pub ◌>>=◌ : {A B : Type 0} → Rd A → (A → Rd B) → Rd B
◌>>=◌ m f r = let (o, r') = m r in continue o f r'

abbrev pub ◌>>◌ : {B : Type 0} → Rd (Unit {0}) → Rd B → Rd B
m >> k = m >>= λ _. k

unfoldable pub pure : {A : Type 0} → A → Rd A
pure a r = (ok a, r)

-- `BytesReader`, `Writer` and `sizeofs`. A writer on memory does not fail, so a write is the bytes
-- that it appends; `write_with_tag` is given those of its closure, `write_message` the size that
-- `get_size` answered and the bytes of the message.
pub record Protobuf : Type 1 where
  pub is_eof : Bytes → Bool
  pub next_tag : Rd ℕ
  pub read_bytes : Rd Bytes
  pub read_string : Rd Str
  pub read_int32 : Rd ℤ
  pub read_int64 : Rd ℤ
  pub read_bool : Rd Bool
  pub read_enum : (E : Type 0) → (ℤ → E) → Rd E
  pub read_message : (M : Type 0) → Rd M → Rd M
  pub read_unknown : ℕ → Rd (Unit {0})
  pub write_with_tag : ℕ → Bytes → Bytes
  pub write_bytes : Bytes → Bytes
  pub write_string : Str → Bytes
  pub write_int32 : ℤ → Bytes
  pub write_int64 : ℤ → Bytes
  pub write_bool : Bool → Bytes
  pub write_enum : ℤ → Bytes
  pub write_message : ℕ → Bytes → Bytes
  pub sizeof_len : ℕ → ℕ
  pub sizeof_varint : ℕ → ℕ

-- `while !r.is_eof() { match r.next_tag(bytes) { … } }`, on fuel: `step` is the `match` on the tag.
-- A round takes a tag off the reader, so one more unit than it holds bytes is enough.
module _ (p : Protobuf) {M : Type 0} (step : M → ℕ → Rd M) where
  unfoldable pub read_fields : ℕ → M → Rd M
  read_fields zero msg r = (stuck, r)
  read_fields (suc n) msg r = elim (p.is_eof r) [
    | true ↦ (ok msg, r)
    | false ↦ (p.next_tag >>= λ t. step msg t >>= λ m. read_fields n m) r
  ]

-- `match tag { k => …, …, t => … }`
abbrev pub match_tag : {A : Type 0} → ℕ → List (ℕ × A) → A → A
match_tag t [] other = other
match_tag t ((k, arm) ∷ arms) other = if t == k then arm else match_tag t arms other

-- One write after the other.
abbrev pub write_all : List Bytes → Bytes
write_all [] = []
write_all (w ∷ ws) = w ++ write_all ws

-- `if let Some(ref s) = o { … }`
abbrev pub write_opt : {A : Type 0} → Option A → (A → Bytes) → Bytes
write_opt none w = []
write_opt (some a) w = w a

-- `for s in &xs { … }`
abbrev pub write_each : {A : Type 0} → List A → (A → Bytes) → Bytes
write_each [] w = []
write_each (a ∷ as') w = w a ++ write_each as' w

-- `o.as_ref().map_or(0, size)`
abbrev pub size_opt : {A : Type 0} → Option A → (A → ℕ) → ℕ
size_opt none size = 0
size_opt (some a) size = size a

-- `xs.iter().map(size).sum()`
abbrev pub size_each : {A : Type 0} → List A → (A → ℕ) → ℕ
size_each [] size = 0
size_each (a ∷ as') size = size a + size_each as' size

-- `b as u64`
abbrev pub bool_to_u64 : Bool → ℕ
bool_to_u64 true = 1
bool_to_u64 false = 0
