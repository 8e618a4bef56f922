-- ===== src/Message/SubscribeToStream.antt =====
-- `SubscribeToStream` of src/raw/client_messages.rs: the message, its reader, its size and its
-- writer, and the lemmas on them.
use eventstore_tcp.Prelude.{
  ℕ, suc, Bool, false, Bytes, Str, ok, List, [], ◌∷◌, ◌+◌, ◌≡◌, refl, length, arith,
}
use eventstore_tcp.Protobuf.{
  Rd, Protobuf, ◌>>=◌, ◌>>◌, pure, read_fields, match_tag, write_all, bool_to_u64,
}
use eventstore_tcp.Protobuf.Laws.{IsProtobuf, IsForward, IsText}
use eventstore_tcp.Protobuf.Loop.{Reads, Reads-nil, Reads-field}
use eventstore_tcp.Protobuf.Plain.{string_ReadsBack, bool_ReadsBack}
use eventstore_tcp.Protobuf.Forward.{
  read_fields-IsForward, match_tag-IsForward, set-IsForward, >>=-IsForward, pure-IsForward,
}
use eventstore_tcp.Protobuf.Sizes.{length_field, length-write_all}

pub record SubscribeToStream : Type 0 where
  pub event_stream_id : Str
  pub resolve_link_tos : Bool

-- `Default::default()`
abbrev pub default : SubscribeToStream
default = record { event_stream_id = []; resolve_link_tos = false }

module _ (p : Protobuf) where
  -- The arms of the `match` on a tag.
  arms : SubscribeToStream → List (ℕ × Rd SubscribeToStream)
  arms msg =
      (10, (do v ← p.read_string; pure (record msg { event_stream_id = v })))
      ∷ (16, (do v ← p.read_bool; pure (record msg { resolve_link_tos = v })))
      ∷ []

  step : SubscribeToStream → ℕ → Rd SubscribeToStream
  unfolding arms
  step msg t = match_tag t (arms msg) (do p.read_unknown t; pure msg)

  unfoldable pub from_reader : Rd SubscribeToStream
  unfolding step
  from_reader r = read_fields p step (suc (length r)) default r

  unfoldable pub get_size : SubscribeToStream → ℕ
  get_size x =
      0
      + 1
      + p.sizeof_len (length x.event_stream_id)
      + 1
      + p.sizeof_varint (bool_to_u64 x.resolve_link_tos)

  -- The writes, one for each field.
  writes : SubscribeToStream → List Bytes
  writes x =
      p.write_with_tag 10 (p.write_string x.event_stream_id)
      ∷ p.write_with_tag 16 (p.write_bool x.resolve_link_tos)
      ∷ []

  unfoldable pub write_message : SubscribeToStream → Bytes
  unfolding writes
  write_message x = write_all (writes x)

  -- What can be written and read back: texts are UTF-8, lengths fit, numbers are in range.
  pub record IsValid (x : SubscribeToStream) : Type 0 where
    pub event_stream_id : IsText x.event_stream_id

module _ {p : Protobuf} (q : IsProtobuf p) where
  -- `get_size` is the number of bytes that `write_message` appends.
  pub length-write_message : (x : SubscribeToStream) → length (write_message p x) ≡ get_size p x
  unfolding write_message get_size
  length-write_message x = omega (
    arith,
    length-write_all (writes p x)
        ((1 + p.sizeof_len (length x.event_stream_id))
          ∷ (1 + p.sizeof_varint (bool_to_u64 x.resolve_link_tos))
          ∷ [])
        (
          length_field q 10 _ _ refl (q.string_size x.event_stream_id),
          (length_field q 16 _ _ refl (q.bool_size x.resolve_link_tos), (tt)),
        ),
  )

  write_message-Reads :
      (x : SubscribeToStream) → IsValid p x → Reads q (step p) default (write_message p x) x
  unfolding step write_message
  write_message-Reads x h =
      Reads-field q (step p) 10 _ refl (string_ReadsBack q x.event_stream_id h.event_stream_id) refl
        (Reads-field q (step p) 16 _ refl (bool_ReadsBack q x.resolve_link_tos tt) refl
          (Reads-nil q (step p) x))

  -- A valid message is read back from what was written, and nothing is left.
  pub from_reader-write_message :
      (x : SubscribeToStream) → IsValid p x → from_reader p (write_message p x) ≡ (ok x, [])
  unfolding from_reader
  from_reader-write_message x h = (write_message-Reads x h).at _ (omega arith)

  step-IsForward : (m : SubscribeToStream) (t : ℕ) → IsForward (step p m t)
  unfolding step
  step-IsForward m t =
      match_tag-IsForward t (arms p m) _
        (set-IsForward _ (q.string_forward), (set-IsForward _ (q.bool_forward), (tt)))
        (>>=-IsForward (p.read_unknown t) (λ _. pure m) (q.unknown_forward t)
          (λ _. pure-IsForward m))

  -- The reader ends on all bytes, and what it leaves is no longer than what it was given.
  pub from_reader-IsForward : IsForward (from_reader p)
  unfolding from_reader
  from_reader-IsForward = read_fields-IsForward q (step p) step-IsForward default
