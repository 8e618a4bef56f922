-- ===== src/Message/ReadStreamEvents.antt =====
-- `ReadStreamEvents` of src/raw/client_messages.rs: the message, its reader, its size and its
-- writer, and the lemmas on them.
use eventstore_tcp.Prelude.{
  ◌&◌, ℕ, suc, Bool, false, Bytes, Str, ok, List, [], ◌∷◌, ◌+◌, ◌≡◌, refl, length, arith,
}
use eventstore_tcp.Prelude.Int.{ℤ, pos, IsI32, as_u64}
use eventstore_tcp.Protobuf.{
  Rd, Protobuf, ◌>>=◌, ◌>>◌, pure, read_fields, match_tag, write_all, bool_to_u64,
}
use eventstore_tcp.Protobuf.Laws.{IsProtobuf, IsForward, IsText}
use eventstore_tcp.Protobuf.Loop.{Reads, Reads-nil, Reads-field}
use eventstore_tcp.Protobuf.Plain.{string_ReadsBack, int32_ReadsBack, bool_ReadsBack}
use eventstore_tcp.Protobuf.Forward.{
  read_fields-IsForward, match_tag-IsForward, set-IsForward, >>=-IsForward, pure-IsForward,
}
use eventstore_tcp.Protobuf.Sizes.{length_field, length-write_all}

pub record ReadStreamEvents : Type 0 where
  pub event_stream_id : Str
  pub from_event_number : ℤ
  pub max_count : ℤ
  pub resolve_link_tos : Bool
  pub require_master : Bool

-- `Default::default()`
abbrev pub default : ReadStreamEvents
default = record {
  event_stream_id = [];
  from_event_number = pos 0;
  max_count = pos 0;
  resolve_link_tos = false;
  require_master = false;
}

module _ (p : Protobuf) where
  -- The arms of the `match` on a tag.
  arms : ReadStreamEvents → List (ℕ × Rd ReadStreamEvents)
  arms msg =
      (10, (do v ← p.read_string; pure (record msg { event_stream_id = v })))
      ∷ (16, (do v ← p.read_int32; pure (record msg { from_event_number = v })))
      ∷ (24, (do v ← p.read_int32; pure (record msg { max_count = v })))
      ∷ (32, (do v ← p.read_bool; pure (record msg { resolve_link_tos = v })))
      ∷ (40, (do v ← p.read_bool; pure (record msg { require_master = v })))
      ∷ []

  step : ReadStreamEvents → ℕ → Rd ReadStreamEvents
  unfolding arms
  step msg t = match_tag t (arms msg) (do p.read_unknown t; pure msg)

  unfoldable pub from_reader : Rd ReadStreamEvents
  unfolding step
  from_reader r = read_fields p step (suc (length r)) default r

  unfoldable pub get_size : ReadStreamEvents → ℕ
  get_size x =
      0
      + 1
      + p.sizeof_len (length x.event_stream_id)
      + 1
      + p.sizeof_varint (as_u64 x.from_event_number)
      + 1
      + p.sizeof_varint (as_u64 x.max_count)
      + 1
      + p.sizeof_varint (bool_to_u64 x.resolve_link_tos)
      + 1
      + p.sizeof_varint (bool_to_u64 x.require_master)

  -- The writes, one for each field.
  writes : ReadStreamEvents → List Bytes
  writes x =
      p.write_with_tag 10 (p.write_string x.event_stream_id)
      ∷ p.write_with_tag 16 (p.write_int32 x.from_event_number)
      ∷ p.write_with_tag 24 (p.write_int32 x.max_count)
      ∷ p.write_with_tag 32 (p.write_bool x.resolve_link_tos)
      ∷ p.write_with_tag 40 (p.write_bool x.require_master)
      ∷ []

  unfoldable pub write_message : ReadStreamEvents → Bytes
  unfolding writes
  write_message x = write_all (writes x)

  -- What can be written and read back: texts are UTF-8, lengths fit, numbers are in range.
  pub record IsValid (x : ReadStreamEvents) : Type 0 where
    pub event_stream_id : IsText x.event_stream_id
    pub from_event_number : IsI32 x.from_event_number
    pub max_count : IsI32 x.max_count

module _ {p : Protobuf} (q : IsProtobuf p) where
  -- `get_size` is the number of bytes that `write_message` appends.
  pub length-write_message : (x : ReadStreamEvents) → length (write_message p x) ≡ get_size p x
  unfolding write_message get_size
  length-write_message x = omega (
    arith,
    length-write_all (writes p x)
        ((1 + p.sizeof_len (length x.event_stream_id))
          ∷ (1 + p.sizeof_varint (as_u64 x.from_event_number))
          ∷ (1 + p.sizeof_varint (as_u64 x.max_count))
          ∷ (1 + p.sizeof_varint (bool_to_u64 x.resolve_link_tos))
          ∷ (1 + p.sizeof_varint (bool_to_u64 x.require_master))
          ∷ [])
        (length_field q 10 _ _ refl (q.string_size x.event_stream_id)
          & length_field q 16 _ _ refl (q.int32_size x.from_event_number)
          & length_field q 24 _ _ refl (q.int32_size x.max_count)
          & length_field q 32 _ _ refl (q.bool_size x.resolve_link_tos)
          & length_field q 40 _ _ refl (q.bool_size x.require_master)
          & tt),
  )

  write_message-Reads :
      (x : ReadStreamEvents) → IsValid p x → Reads q (step p) default (write_message p x) x
  unfolding step write_message
  write_message-Reads x h =
      Reads-field q (step p) 10 _ refl (string_ReadsBack q x.event_stream_id h.event_stream_id) refl
        (Reads-field q (step p) 16 _ refl
          (int32_ReadsBack q x.from_event_number h.from_event_number) refl
          (Reads-field q (step p) 24 _ refl (int32_ReadsBack q x.max_count h.max_count) refl (
            Reads-field q (step p) 32 _ refl (bool_ReadsBack q x.resolve_link_tos tt) refl (
              Reads-field q (step p) 40 _ refl (bool_ReadsBack q x.require_master tt) refl
                (Reads-nil q (step p) x)))))

  -- A valid message is read back from what was written, and nothing is left.
  pub from_reader-write_message :
      (x : ReadStreamEvents) → IsValid p x → from_reader p (write_message p x) ≡ (ok x, [])
  unfolding from_reader
  from_reader-write_message x h = (write_message-Reads x h).at _ (omega arith)

  step-IsForward : (m : ReadStreamEvents) (t : ℕ) → IsForward (step p m t)
  unfolding step
  step-IsForward m t =
      match_tag-IsForward t (arms p m) _
        (set-IsForward _ (q.string_forward)
          & set-IsForward _ (q.int32_forward)
          & set-IsForward _ (q.int32_forward)
          & set-IsForward _ (q.bool_forward)
          & set-IsForward _ (q.bool_forward)
          & tt)
        (>>=-IsForward (p.read_unknown t) (λ _. pure m) (q.unknown_forward t)
          (λ _. pure-IsForward m))

  -- The reader ends on all bytes, and what it leaves is no longer than what it was given.
  pub from_reader-IsForward : IsForward (from_reader p)
  unfolding from_reader
  from_reader-IsForward = read_fields-IsForward q (step p) step-IsForward default
