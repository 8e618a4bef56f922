-- ===== src/Example/Wire.antt =====
-- A wire format that satisfies what is relied on of `quick_protobuf`: a number is one item of the
-- list, whatever its size, and a block stands behind its length.
use eventstore_tcp.Prelude.{
  ℕ, Bool, true, false, Bytes, Str, IsUtf8, from_utf8, from_utf8_valid, ok, err, stuck, [], ◌∷◌,
  ◌++◌, Option, none, some, ◌+◌, ◌≤◌, ◌<◌, ◌≡◌, ◌≢◌, refl, length, take, drop, take_all, drop_all,
  length-drop, length-append, leb, ◌==◌, if◌then◌else◌, arith, Bool-cases, inl, inr,
}
use eventstore_tcp.Prelude.Int.{ℤ, pos, negsuc, IsI32, IsI64, as_i32, as_i64, as_u64}
use eventstore_tcp.Protobuf.{Rd, Protobuf, ◌>>=◌, pure, bool_to_u64}
use eventstore_tcp.Protobuf.Laws.{IsProtobuf, IsForward}
use eventstore_tcp.Protobuf.Forward.{>>=-IsForward, pure-IsForward}

abbrev item : Rd ℕ
item [] = (err 0, [])
item (n ∷ r) = (ok n, r)

abbrev split : ℕ → Rd Bytes
split n r = if leb n (length r) then (ok (take n r), drop n r) else (err 1, r)

abbrev block : Rd Bytes
block = item >>= split

abbrev text : Option Str → Rd Str
text none r = (err 2, r)
text (some s) r = (ok s, r)

-- The read of a message, run on its block alone.
abbrev inside : {M : Type 0} → Rd M → Bytes → Rd M
inside f s r = ((f s).0, r)

abbrev put_block : Bytes → Bytes
put_block s = length s ∷ s

abbrev pub wire : Protobuf
wire = record {
  is_eof = λ r. length r == 0;
  next_tag = item;
  read_bytes = block;
  read_string = block >>= λ s. text (from_utf8 s);
  read_int32 = item >>= λ n. pure (as_i32 n);
  read_int64 = item >>= λ n. pure (as_i64 n);
  read_bool = item >>= λ n. pure (if n == 0 then false else true);
  read_enum = λ E from. item >>= λ n. pure (from (as_i32 n));
  read_message = λ M f. block >>= inside f;
  read_unknown = λ t. item >>= λ n. pure tt;
  write_with_tag = λ t v. t ∷ v;
  write_bytes = put_block;
  write_string = put_block;
  write_int32 = λ i. as_u64 i ∷ [];
  write_int64 = λ i. as_u64 i ∷ [];
  write_bool = λ b. bool_to_u64 b ∷ [];
  write_enum = λ i. as_u64 i ∷ [];
  write_message = λ n s. n ∷ s;
  sizeof_len = λ n. 1 + n;
  sizeof_varint = λ n. 1;
}

as_i32-as_u64 : (i : ℤ) → IsI32 i → as_i32 (as_u64 i) ≡ i
unfolding as_i32 as_u64
as_i32-as_u64 (pos n) h = ground arith
as_i32-as_u64 (negsuc n) h = ground arith

as_i64-as_u64 : (i : ℤ) → IsI64 i → as_i64 (as_u64 i) ≡ i
unfolding as_i64 as_u64
as_i64-as_u64 (pos n) h = ground arith
as_i64-as_u64 (negsuc n) h = ground arith

block_back : (s r : Bytes) → block (put_block s ++ r) ≡ (ok s, r)
unfolding ◌>>=◌
block_back s r =
    let fits : leb (length s) (length (s ++ r)) ≡ true = ground (arith, length-append s r) in
    rw (fits, take_all s r (length s) refl, drop_all s r (length s) refl)

string_back : (s r : Bytes) → IsUtf8 s → wire.read_string (put_block s ++ r) ≡ (ok s, r)
unfolding ◌>>=◌
string_back s r h = rw (block_back s r, from_utf8_valid s h)

message_back :
    (M : Type 0) (f : Rd M) (m : M) (s r : Bytes)
    → f s ≡ (ok m, [])
    → wire.read_message M f (wire.write_message (length s) s ++ r) ≡ (ok m, r)
unfolding ◌>>=◌
message_back M f m s r h = rw (block_back s r, h)

item_ends : (r : Bytes) → (item r).0 ≢ stuck
item_ends [] e = cc
item_ends (n ∷ r) e = cc

item_onward : (r : Bytes) → length (item r).1 ≤ length r
item_onward [] = omega arith
item_onward (n ∷ r) = omega arith

item-IsForward : IsForward item
item-IsForward = record { ends = item_ends; onward = item_onward }

item_shorter : (r r' : Bytes) (t : ℕ) → item r ≡ (ok t, r') → length r' < length r
item_shorter [] r' t e = cc
item_shorter (n ∷ r) r' t e = ground arith

split_forward : (n : ℕ) (r : Bytes) → ((split n r).0 ≢ stuck) × (length (split n r).1 ≤ length r)
split_forward n r = elim (Bool-cases (leb n (length r))) [
  | inl y ↦ rw y (λ e. cc, omega (arith, length-drop n r))
  | inr y ↦ rw y (λ e. cc, omega arith)
]

split-IsForward : (n : ℕ) → IsForward (split n)
split-IsForward n = record {
  ends = λ r. (split_forward n r).0;
  onward = λ r. (split_forward n r).1;
}

block-IsForward : IsForward block
block-IsForward = >>=-IsForward item split item-IsForward split-IsForward

text-IsForward : (o : Option Str) → IsForward (text o)
text-IsForward none = record { ends = λ r e. cc; onward = λ r. omega arith }
text-IsForward (some s) = record { ends = λ r e. cc; onward = λ r. omega arith }

number-IsForward : {A : Type 0} (f : ℕ → A) → IsForward (item >>= λ n. pure (f n))
number-IsForward f = >>=-IsForward item (λ n. pure (f n)) item-IsForward (λ n. pure-IsForward (f n))

inside-IsForward : {M : Type 0} (f : Rd M) (s : Bytes) → IsForward f → IsForward (inside f s)
inside-IsForward f s h = record { ends = λ r. h.ends s; onward = λ r. omega arith }

bool_back : (b : Bool) (r : Bytes) → wire.read_bool (wire.write_bool b ++ r) ≡ (ok b, r)
unfolding ◌>>=◌ pure
bool_back true r = refl
bool_back false r = refl

pub wire-IsProtobuf : IsProtobuf wire
unfolding ◌>>=◌ pure
wire-IsProtobuf = record {
  eof_nil = refl;
  eof_cons = λ b r. ground arith;
  next_tag_back = λ t v r h. refl;
  bytes_back = λ s r h. block_back s r;
  string_back = λ s r h. string_back s r h.0;
  int32_back = λ i r h. rw (as_i32-as_u64 i h);
  int64_back = λ i r h. rw (as_i64-as_u64 i h);
  bool_back = bool_back;
  enum_back = λ E from i r h. rw (as_i32-as_u64 i h);
  message_back = λ M f m s r _ h. message_back M f m s r h;
  tag_size = λ t v h. omega arith;
  bytes_size = λ s. omega arith;
  string_size = λ s. omega arith;
  int32_size = λ i. refl;
  int64_size = λ i. refl;
  bool_size = λ b. refl;
  enum_size = λ i. refl;
  message_size = λ n s h. omega arith;
  next_tag_forward = item-IsForward;
  next_tag_onward = item_shorter;
  bytes_forward = block-IsForward;
  string_forward =
      >>=-IsForward block (λ s. text (from_utf8 s)) block-IsForward
        (λ s. text-IsForward (from_utf8 s));
  int32_forward = number-IsForward as_i32;
  int64_forward = number-IsForward as_i64;
  bool_forward = number-IsForward (λ n. if n == 0 then false else true);
  enum_forward = λ E from. number-IsForward (λ n. from (as_i32 n));
  message_forward =
      λ M f h. >>=-IsForward block (inside f) block-IsForward (λ s. inside-IsForward f s h);
  unknown_forward = λ t. number-IsForward (λ n. tt);
}
