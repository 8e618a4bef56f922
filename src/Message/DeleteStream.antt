-- ===== src/Message/DeleteStream.antt =====
-- `DeleteStream` of src/raw/client_messages.rs: the message, its reader, its size and its
-- writer, and the lemmas on them.
use eventstore_tcp.Prelude.{
  ◌&◌, ℕ, suc, Bool, false, Bytes, Str, ok, List, [], ◌∷◌, ◌+◌, ◌≡◌, refl, Option, none, some,
  length, arith,
}
use eventstore_tcp.Prelude.Int.{ℤ, pos, IsI32, as_u64}
use eventstore_tcp.Protobuf.{
  Rd, Protobuf, ◌>>=◌, ◌>>◌, pure, read_fields, match_tag, write_all, write_opt, size_opt,
  bool_to_u64,
}
use eventstore_tcp.Protobuf.Laws.{IsProtobuf, IsForward, IsText}
use eventstore_tcp.Protobuf.Loop.{Reads, Reads-nil, Reads-field, Reads-opt, always_opt}
use eventstore_tcp.Protobuf.Plain.{Always, string_ReadsBack, int32_ReadsBack, bool_ReadsBack}
use eventstore_tcp.Protobuf.Forward.{
  read_fields-IsForward, match_tag-IsForward, set-IsForward, >>=-IsForward, pure-IsForward,
}
use eventstore_tcp.Protobuf.Sizes.{length_field, length-write_all, length-write_opt}

pub record DeleteStream : Type 0 where
  pub event_stream_id : Str
  pub expected_version : ℤ
  pub require_master : Bool
  pub hard_delete : Option Bool

-- `Default::default()`
abbrev pub default : DeleteStream
default = record {
  event_stream_id = [];
  expected_version = pos 0;
  require_master = false;
  hard_delete = none;
}

module _ (p : Protobuf) where
  -- The arms of the `match` on a tag.
  arms : DeleteStream → List (ℕ × Rd DeleteStream)
  arms msg =
      (10, (do v ← p.read_string; pure (record msg { event_stream_id = v })))
      ∷ (16, (do v ← p.read_int32; pure (record msg { expected_version = v })))
      ∷ (24, (do v ← p.read_bool; pure (record msg { require_master = v })))
      ∷ (32, (do v ← p.read_bool; pure (record msg { hard_delete = some v })))
      ∷ []

  step : DeleteStream → ℕ → Rd DeleteStream
  unfolding arms
  step msg t = match_tag t (arms msg) (do p.read_unknown t; pure msg)

  unfoldable pub from_reader : Rd DeleteStream
  unfolding step
  from_reader r = read_fields p step (suc (length r)) default r

  unfoldable pub get_size : DeleteStream → ℕ
  get_size x =
      0
      + 1
      + p.sizeof_len (length x.event_stream_id)
      + 1
      + p.sizeof_varint (as_u64 x.expected_version)
      + 1
      + p.sizeof_varint (bool_to_u64 x.require_master)
      + size_opt x.hard_delete (λ m. 1 + p.sizeof_varint (bool_to_u64 m))

  -- The writes, one for each field.
  writes : DeleteStream → List Bytes
  writes x =
      p.write_with_tag 10 (p.write_string x.event_stream_id)
      ∷ p.write_with_tag 16 (p.write_int32 x.expected_version)
      ∷ p.write_with_tag 24 (p.write_bool x.require_master)
      ∷ write_opt x.hard_delete (λ m. p.write_with_tag 32 (p.write_bool m))
      ∷ []

  unfoldable pub write_message : DeleteStream → Bytes
  unfolding writes
  write_message x = write_all (writes x)

  -- What can be written and read back: texts are UTF-8, lengths fit, numbers are in range.
  pub record IsValid (x : DeleteStream) : Type 0 where
    pub event_stream_id : IsText x.event_stream_id
    pub expected_version : IsI32 x.expected_version

module _ {p : Protobuf} (q : IsProtobuf p) where
  -- `get_size` is the number of bytes that `write_message` appends.
  pub length-write_message : (x : DeleteStream) → length (write_message p x) ≡ get_size p x
  unfolding write_message get_size
  length-write_message x = omega (
    arith,
    length-write_all (writes p x)
        ((1 + p.sizeof_len (length x.event_stream_id))
          ∷ (1 + p.sizeof_varint (as_u64 x.expected_version))
          ∷ (1 + p.sizeof_varint (bool_to_u64 x.require_master))
          ∷ size_opt x.hard_delete (λ m. 1 + p.sizeof_varint (bool_to_u64 m))
          ∷ [])
        (length_field q 10 _ _ refl (q.string_size x.event_stream_id)
          & length_field q 16 _ _ refl (q.int32_size x.expected_version)
          & length_field q 24 _ _ refl (q.bool_size x.require_master)
          & length-write_opt x.hard_delete _ _ (λ m. length_field q 32 _ _ refl (q.bool_size m))
          & tt),
  )

  write_message-Reads :
      (x : DeleteStream) → IsValid p x → Reads q (step p) default (write_message p x) x
  unfolding step write_message
  write_message-Reads x h =
      Reads-field q (step p) 10 _ refl (string_ReadsBack q x.event_stream_id h.event_stream_id) refl
        (Reads-field q (step p) 16 _ refl (int32_ReadsBack q x.expected_version h.expected_version)
          refl
          (Reads-field q (step p) 24 _ refl (bool_ReadsBack q x.require_master tt) refl (
            Reads-opt q (step p) 32 Always x.hard_delete (λ m. p.write_bool m)
              (λ v. record x { hard_delete = v }) refl (bool_ReadsBack q) (always_opt x.hard_delete)
              refl (Reads-nil q (step p) x))))

  -- A valid message is read back from what was written, and nothing is left.
  pub from_reader-write_message :
      (x : DeleteStream) → IsValid p x → from_reader p (write_message p x) ≡ (ok x, [])
  unfolding from_reader
  from_reader-write_message x h = (write_message-Reads x h).at _ (omega arith)

  step-IsForward : (m : DeleteStream) (t : ℕ) → IsForward (step p m t)
  unfolding step
  step-IsForward m t =
      match_tag-IsForward t (arms p m) _
        (set-IsForward _ (q.string_forward)
          & set-IsForward _ (q.int32_forward)
          & set-IsForward _ (q.bool_forward)
          & set-IsForward _ (q.bool_forward)
          & tt)
        (>>=-IsForward (p.read_unknown t) (λ _. pure m) (q.unknown_forward t)
          (λ _. pure-IsForward m))

  -- The reader ends on all bytes, and what it leaves is no longer than what it was given.
  pub from_reader-IsForward : IsForward (from_reader p)
  unfolding from_reader
  from_reader-IsForward = read_fields-IsForward q (step p) step-IsForward default
