-- ===== src/Message/ReadStreamEventsCompleted.antt =====
-- `ReadStreamEventsCompleted` of src/raw/client_messages.rs: the message, its reader, its
-- size and its writer, and the lemmas on them.
use eventstore_tcp.Prelude.{
  ◌&◌, ℕ, suc, Bool, false, Bytes, Str, ok, List, [], ◌∷◌, ◌++◌, ◌+◌, ◌≡◌, refl, Option, none, some,
  length, arith, All,
}
use eventstore_tcp.Prelude.Int.{ℤ, pos, IsI32, IsI64, as_u64}
use eventstore_tcp.Protobuf.{
  Rd, Protobuf, ◌>>=◌, ◌>>◌, pure, read_fields, match_tag, write_all, write_opt, write_each,
  size_opt, size_each, bool_to_u64,
}
use eventstore_tcp.Protobuf.Laws.{IsProtobuf, IsForward, IsText}
use eventstore_tcp.Protobuf.Loop.{
  Reads, Reads-nil, Reads-field, Reads-opt, Reads-each, always_opt, OptAll,
}
use eventstore_tcp.Protobuf.Plain.{
  Always, string_ReadsBack, int32_ReadsBack, int64_ReadsBack, bool_ReadsBack, enum_ReadsBack,
}
use eventstore_tcp.Protobuf.Forward.{
  read_fields-IsForward, match_tag-IsForward, set-IsForward, >>=-IsForward, pure-IsForward,
}
use eventstore_tcp.Protobuf.Sizes.{
  length_field, length-write_all, length-write_opt, length-write_each,
}
use eventstore_tcp.Message.Enums.{
  ReadStreamResult, read_stream_result_from_i32, read_stream_result_to_i32,
  read_stream_result_inverse,
}
use eventstore_tcp.Message.ResolvedIndexedEvent
use eventstore_tcp.Message.ResolvedIndexedEvent.{ResolvedIndexedEvent}

pub record ReadStreamEventsCompleted : Type 0 where
  pub events : List ResolvedIndexedEvent
  pub result : Option ReadStreamResult
  pub next_event_number : ℤ
  pub last_event_number : ℤ
  pub is_end_of_stream : Bool
  pub last_commit_position : ℤ
  pub error : Option Str

-- `Default::default()`
abbrev pub default : ReadStreamEventsCompleted
default = record {
  events = [];
  result = none;
  next_event_number = pos 0;
  last_event_number = pos 0;
  is_end_of_stream = false;
  last_commit_position = pos 0;
  error = none;
}

module _ (p : Protobuf) where
  -- The arms of the `match` on a tag.
  arms : ReadStreamEventsCompleted → List (ℕ × Rd ReadStreamEventsCompleted)
  arms msg =
      (
        10,
        (do
          v ← p.read_message ResolvedIndexedEvent (ResolvedIndexedEvent.from_reader p)
          pure (record msg { events = msg.events ++ v ∷ [] })),
      )
      ∷ (
        16,
        (do
          v ← p.read_enum ReadStreamResult read_stream_result_from_i32
          pure (record msg { result = some v })),
      )
      ∷ (24, (do v ← p.read_int32; pure (record msg { next_event_number = v })))
      ∷ (32, (do v ← p.read_int32; pure (record msg { last_event_number = v })))
      ∷ (40, (do v ← p.read_bool; pure (record msg { is_end_of_stream = v })))
      ∷ (48, (do v ← p.read_int64; pure (record msg { last_commit_position = v })))
      ∷ (58, (do v ← p.read_string; pure (record msg { error = some v })))
      ∷ []

  step : ReadStreamEventsCompleted → ℕ → Rd ReadStreamEventsCompleted
  unfolding arms
  step msg t = match_tag t (arms msg) (do p.read_unknown t; pure msg)

  unfoldable pub from_reader : Rd ReadStreamEventsCompleted
  unfolding step
  from_reader r = read_fields p step (suc (length r)) default r

  unfoldable pub get_size : ReadStreamEventsCompleted → ℕ
  get_size x =
      0
      + size_each x.events (λ m. 1 + p.sizeof_len (ResolvedIndexedEvent.get_size p m))
      + size_opt x.result (λ m. 1 + p.sizeof_varint (as_u64 (read_stream_result_to_i32 m)))
      + 1
      + p.sizeof_varint (as_u64 x.next_event_number)
      + 1
      + p.sizeof_varint (as_u64 x.last_event_number)
      + 1
      + p.sizeof_varint (bool_to_u64 x.is_end_of_stream)
      + 1
      + p.sizeof_varint (as_u64 x.last_commit_position)
      + size_opt x.error (λ m. 1 + p.sizeof_len (length m))

  -- The writes, one for each field.
  writes : ReadStreamEventsCompleted → List Bytes
  writes x =
      write_each x.events (λ m. p.write_with_tag 10 (
        p.write_message (ResolvedIndexedEvent.get_size p m)
          (ResolvedIndexedEvent.write_message p m)))
      ∷ write_opt x.result (λ m. p.write_with_tag 16 (p.write_enum (read_stream_result_to_i32 m)))
      ∷ p.write_with_tag 24 (p.write_int32 x.next_event_number)
      ∷ p.write_with_tag 32 (p.write_int32 x.last_event_number)
      ∷ p.write_with_tag 40 (p.write_bool x.is_end_of_stream)
      ∷ p.write_with_tag 48 (p.write_int64 x.last_commit_position)
      ∷ write_opt x.error (λ m. p.write_with_tag 58 (p.write_string m))
      ∷ []

  unfoldable pub write_message : ReadStreamEventsCompleted → Bytes
  unfolding writes
  write_message x = write_all (writes x)

  -- What can be written and read back: texts are UTF-8, lengths fit, numbers are in range.
  pub record IsValid (x : ReadStreamEventsCompleted) : Type 0 where
    pub events : All (ResolvedIndexedEvent.Nests p) x.events
    pub next_event_number : IsI32 x.next_event_number
    pub last_event_number : IsI32 x.last_event_number
    pub last_commit_position : IsI64 x.last_commit_position
    pub error : OptAll IsText x.error

module _ {p : Protobuf} (q : IsProtobuf p) where
  -- `get_size` is the number of bytes that `write_message` appends.
  pub length-write_message :
      (x : ReadStreamEventsCompleted) → length (write_message p x) ≡ get_size p x
  unfolding write_message get_size
  length-write_message x = omega (
    arith,
    length-write_all (writes p x)
        (size_each x.events (λ m. 1 + p.sizeof_len (ResolvedIndexedEvent.get_size p m))
          ∷ size_opt x.result (λ m. 1 + p.sizeof_varint (as_u64 (read_stream_result_to_i32 m)))
          ∷ (1 + p.sizeof_varint (as_u64 x.next_event_number))
          ∷ (1 + p.sizeof_varint (as_u64 x.last_event_number))
          ∷ (1 + p.sizeof_varint (bool_to_u64 x.is_end_of_stream))
          ∷ (1 + p.sizeof_varint (as_u64 x.last_commit_position))
          ∷ size_opt x.error (λ m. 1 + p.sizeof_len (length m))
          ∷ [])
        (length-write_each x.events _ _ (λ m.
            length_field q 10 _ _ refl
              (q.message_size _ _ (ResolvedIndexedEvent.length-write_message q m)))
          & length-write_opt x.result _ _
              (λ m. length_field q 16 _ _ refl (q.enum_size (read_stream_result_to_i32 m)))
          & length_field q 24 _ _ refl (q.int32_size x.next_event_number)
          & length_field q 32 _ _ refl (q.int32_size x.last_event_number)
          & length_field q 40 _ _ refl (q.bool_size x.is_end_of_stream)
          & length_field q 48 _ _ refl (q.int64_size x.last_commit_position)
          & length-write_opt x.error _ _ (λ m. length_field q 58 _ _ refl (q.string_size m))
          & tt),
  )

  write_message-Reads :
      (x : ReadStreamEventsCompleted) → IsValid p x → Reads q (step p) default (write_message p x) x
  unfolding step write_message
  write_message-Reads x h =
      Reads-each q (step p) 10 (ResolvedIndexedEvent.Nests p) [] x.events
        (λ m.
          p.write_message (ResolvedIndexedEvent.get_size p m)
            (ResolvedIndexedEvent.write_message p m))
        (λ v. record x {
          events = v;
          result = none;
          next_event_number = pos 0;
          last_event_number = pos 0;
          is_end_of_stream = false;
          last_commit_position = pos 0;
          error = none;
        })
        refl (ResolvedIndexedEvent.nested_ReadsBack q) h.events (λ l. refl)
        (Reads-opt q (step p) 16 Always x.result (λ m. p.write_enum (read_stream_result_to_i32 m))
          (λ v. record x {
            result = v;
            next_event_number = pos 0;
            last_event_number = pos 0;
            is_end_of_stream = false;
            last_commit_position = pos 0;
            error = none;
          })
          refl
          (enum_ReadsBack q ReadStreamResult read_stream_result_from_i32 read_stream_result_to_i32
            read_stream_result_inverse)
          (always_opt x.result) refl
          (Reads-field q (step p) 24 _ refl
            (int32_ReadsBack q x.next_event_number h.next_event_number) refl
            (Reads-field q (step p) 32 _ refl
              (int32_ReadsBack q x.last_event_number h.last_event_number) refl
              (Reads-field q (step p) 40 _ refl (bool_ReadsBack q x.is_end_of_stream tt) refl (
                Reads-field q (step p) 48 _ refl
                  (int64_ReadsBack q x.last_commit_position h.last_commit_position) refl
                  (Reads-opt q (step p) 58 IsText x.error (λ m. p.write_string m)
                    (λ v. record x { error = v }) refl (string_ReadsBack q) h.error refl
                    (Reads-nil q (step p) x)))))))

  -- A valid message is read back from what was written, and nothing is left.
  pub from_reader-write_message :
      (x : ReadStreamEventsCompleted) → IsValid p x → from_reader p (write_message p x) ≡ (ok x, [])
  unfolding from_reader
  from_reader-write_message x h = (write_message-Reads x h).at _ (omega arith)

  step-IsForward : (m : ReadStreamEventsCompleted) (t : ℕ) → IsForward (step p m t)
  unfolding step
  step-IsForward m t =
      match_tag-IsForward t (arms p m) _
        (set-IsForward _ (
            q.message_forward ResolvedIndexedEvent (ResolvedIndexedEvent.from_reader p)
              (ResolvedIndexedEvent.from_reader-IsForward q))
          & set-IsForward _ (q.enum_forward ReadStreamResult read_stream_result_from_i32)
          & set-IsForward _ (q.int32_forward)
          & set-IsForward _ (q.int32_forward)
          & set-IsForward _ (q.bool_forward)
          & set-IsForward _ (q.int64_forward)
          & set-IsForward _ (q.string_forward)
          & tt)
        (>>=-IsForward (p.read_unknown t) (λ _. pure m) (q.unknown_forward t)
          (λ _. pure-IsForward m))

  -- The reader ends on all bytes, and what it leaves is no longer than what it was given.
  pub from_reader-IsForward : IsForward (from_reader p)
  unfolding from_reader
  from_reader-IsForward = read_fields-IsForward q (step p) step-IsForward default
