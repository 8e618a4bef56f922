-- ===== src/Example/Kit.antt =====
-- Instances of byteorder, bitflags, uuid and bytes that satisfy what is relied on of them.
use eventstore_tcp.Prelude.{
  ℕ, zero, suc, Bytes, Option, none, some, Outcome, ok, err, panic, [], ◌∷◌, ◌++◌, ◌+◌, ◌*◌, ◌-◌,
  ◌/◌, ◌%◌, ◌^◌, ◌≤◌, ◌<◌, ◌≡◌, refl, length, drop, ltb, leb, if◌then◌else◌, arith, le→not_ltb,
  lt→ltb,
}
use eventstore_tcp.Errors.{IoError, unexpected_eof}
use eventstore_tcp.Crates.{Crates, IsCrates}

-- `n` bytes
abbrev Block : ℕ → Type 0
Block zero = Unit
Block (suc n) = ℕ × Block n

abbrev pub Id16 : Type 0
Id16 = Block 16

abbrev block_of : (n : ℕ) → Bytes → Option (Block n)
block_of zero [] = some tt
block_of zero (b ∷ s) = none
block_of (suc n) [] = none
block_of (suc n) (b ∷ s) = elim (block_of n s) [ none ↦ none | some v ↦ some (b, v) ]

abbrev bytes_of : (n : ℕ) → Block n → Bytes
bytes_of zero v = []
bytes_of (suc n) (b, v) = b ∷ bytes_of n v

-- A buffer: what it holds, and how much it can still take.
pub record Buffer : Type 0 where
  pub held : Bytes
  pub room : ℕ

abbrev u8 : Bytes → Outcome IoError (ℕ × Bytes)
u8 [] = err unexpected_eof
u8 (b ∷ r) = ok (b, r)

abbrev u32 : Bytes → Outcome IoError (ℕ × Bytes)
u32 (a ∷ b ∷ c ∷ d ∷ r) =
    ok (a % 256 + 256 * (b % 256) + 65536 * (c % 256) + 16777216 * (d % 256), r)
u32 _ = err unexpected_eof

abbrev put_u32 : ℕ → Bytes
put_u32 n = n % 256 ∷ n / 256 % 256 ∷ n / 65536 % 256 ∷ n / 16777216 % 256 ∷ []

abbrev known_bits : ℕ → Option ℕ
known_bits n = if ltb 1 n then none else some n

abbrev put : Bytes → Buffer → Outcome IoError Buffer
put s b =
    if ltb b.room (length s)
    then panic
    else ok (record { held = b.held ++ s; room = b.room - length s })

abbrev pub kit : Crates Id16 Buffer
kit = record {
  read_u8 = u8;
  read_u32 = u32;
  write_u8 = λ b. b ∷ [];
  write_u32 = put_u32;
  from_bits = known_bits;
  bits = λ f. f;
  contains = λ f g. leb (g % 2) (f % 2);
  insert = λ f g. if leb (g % 2) (f % 2) then f else f + 1;
  uuid_from_bytes = block_of 16;
  as_bytes = bytes_of 16;
  view = λ b. b.held;
  remaining_mut = λ b. b.room;
  split_to = λ n b. record b { held = drop n b.held };
  put_slice = put;
}

length-bytes_of : (n : ℕ) (v : Block n) → length (bytes_of n v) ≡ n
length-bytes_of zero v = refl
length-bytes_of (suc n) (b, v) = rw (length-bytes_of n v)

block_of-bytes_of : (n : ℕ) (v : Block n) → block_of n (bytes_of n v) ≡ some v
block_of-bytes_of zero v = refl
block_of-bytes_of (suc n) (b, v) = rw (block_of-bytes_of n v)

block_of-length :
    (n : ℕ) (s : Bytes)
    → length s ≡ n
    → (v : Block n) × (block_of n s ≡ some v) × (bytes_of n v ≡ s)
block_of-length zero [] h = (tt, refl, refl)
block_of-length zero (b ∷ s) h = absurd (omega arith)
block_of-length (suc n) [] h = absurd (omega arith)
block_of-length (suc n) (b ∷ s) h =
    let (v, e, f) = block_of-length n s (omega arith) in ((b, v), rw e, rw f)

u32_back : (n : ℕ) (r : Bytes) → n < 2 ^ 32 → u32 (put_u32 n ++ r) ≡ ok (n, r)
u32_back n r h = ground arith

u32_four : (s : Bytes) → length s ≡ 4 → (n : ℕ) × (n < 2 ^ 32) × (u32 s ≡ ok (n, []))
u32_four (a ∷ b ∷ c ∷ d ∷ []) h = (_, omega arith, refl)
u32_four _ h = absurd (omega arith)

put_fits :
    (s : Bytes) (b : Buffer)
    → length s ≤ b.room
    → (b' : Buffer) × (put s b ≡ ok b') × (b'.held ≡ b.held ++ s)
put_fits s b h = (
  record { held = b.held ++ s; room = b.room - length s },
  rw (le→not_ltb b.room (length s) h),
  refl,
)

put_room : (s : Bytes) (b b' : Buffer) → put s b ≡ ok b' → b.room ≡ length s + b'.room
put_room s b b' h = ground arith

pub kit-IsCrates : IsCrates kit
kit-IsCrates = record {
  read_u8_nil = refl;
  read_u8_cons = λ b r. refl;
  write_u8_byte = λ b h. refl;
  write_u32_size = λ n. refl;
  read_u32_back = u32_back;
  read_u32_four = u32_four;
  from_bits_none = refl;
  from_bits_authenticated = refl;
  from_bits_other = λ n h. rw (lt→ltb 1 n h);
  bits_lem = λ f. refl;
  contains_none = refl;
  contains_authenticated = refl;
  insert_none = refl;
  as_bytes_size = length-bytes_of 16;
  uuid_back = block_of-bytes_of 16;
  uuid_sixteen = block_of-length 16;
  split_to_view = λ n b h. refl;
  put_slice_fits = put_fits;
  put_slice_room = put_room;
  put_slice_full = λ s b h. rw (lt→ltb b.room (length s) h);
}
