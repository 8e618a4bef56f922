-- ===== src/Protobuf/Plain.antt =====
-- The reads of single values, behind their writes.
use eventstore_tcp.Prelude.{Bool, Bytes, Str, ◌≡◌}
use eventstore_tcp.Prelude.Int.{ℤ, IsI32, IsI64}
use eventstore_tcp.Protobuf.{Protobuf}
use eventstore_tcp.Protobuf.Laws.{IsProtobuf, Fits, IsText}
use eventstore_tcp.Protobuf.Loop.{ReadsBack}

-- What holds of every value: a Boolean or an enumeration is always written in full.
abbrev pub Always : {A : Type 0} → A → Type 0
Always a = Unit

module _ {p : Protobuf} (q : IsProtobuf p) where
  pub bytes_ReadsBack : (s : Bytes) → Fits s → ReadsBack p.read_bytes (p.write_bytes s) s
  bytes_ReadsBack s h = record { back = λ r. q.bytes_back s r h }

  pub string_ReadsBack : (s : Str) → IsText s → ReadsBack p.read_string (p.write_string s) s
  string_ReadsBack s h = record { back = λ r. q.string_back s r h }

  pub int32_ReadsBack : (i : ℤ) → IsI32 i → ReadsBack p.read_int32 (p.write_int32 i) i
  int32_ReadsBack i h = record { back = λ r. q.int32_back i r h }

  pub int64_ReadsBack : (i : ℤ) → IsI64 i → ReadsBack p.read_int64 (p.write_int64 i) i
  int64_ReadsBack i h = record { back = λ r. q.int64_back i r h }

  pub bool_ReadsBack : (b : Bool) → Always b → ReadsBack p.read_bool (p.write_bool b) b
  bool_ReadsBack b h = record { back = λ r. q.bool_back b r }

  pub enum_ReadsBack :
      (E : Type 0) (from : ℤ → E) (to : E → ℤ)
      → ((e : E) → (from (to e) ≡ e) × IsI32 (to e))
      → (e : E) → Always e
      → ReadsBack (p.read_enum E from) (p.write_enum (to e)) e
  enum_ReadsBack E from to inverse e h = record {
    back = λ r. rw (q.enum_back E from (to e) r (inverse e).1, (inverse e).0);
  }
