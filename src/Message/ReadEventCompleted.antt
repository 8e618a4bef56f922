-- ===== src/Message/ReadEventCompleted.antt =====
-- `ReadEventCompleted` of src/raw/client_messages.rs: the message, its reader, its size and its
-- writer, and the lemmas on them.
use eventstore_tcp.Prelude.{
  ◌&◌, ℕ, suc, Bytes, Str, ok, List, [], ◌∷◌, ◌+◌, ◌≡◌, refl, Option, none, some, length, arith,
}
use eventstore_tcp.Prelude.Int.{as_u64}
use eventstore_tcp.Protobuf.{
  Rd, Protobuf, ◌>>=◌, ◌>>◌, pure, read_fields, match_tag, write_all, write_opt, size_opt,
}
use eventstore_tcp.Protobuf.Laws.{IsProtobuf, IsForward, IsText}
use eventstore_tcp.Protobuf.Loop.{Reads, Reads-nil, Reads-field, Reads-opt, always_opt, OptAll}
use eventstore_tcp.Protobuf.Plain.{Always, string_ReadsBack, enum_ReadsBack}
use eventstore_tcp.Protobuf.Forward.{
  read_fields-IsForward, match_tag-IsForward, set-IsForward, >>=-IsForward, pure-IsForward,
}
use eventstore_tcp.Protobuf.Sizes.{length_field, length-write_all, length-write_opt}
use eventstore_tcp.Message.Enums.{
  ReadEventResult, read_event_result_from_i32, read_event_result_to_i32, read_event_result_inverse,
}
use eventstore_tcp.Message.ResolvedIndexedEvent
use eventstore_tcp.Message.ResolvedIndexedEvent.{ResolvedIndexedEvent}

pub record ReadEventCompleted : Type 0 where
  pub result : Option ReadEventResult
  pub event : ResolvedIndexedEvent
  pub error : Option Str

-- `Default::default()`
abbrev pub default : ReadEventCompleted
default = record { result = none; event = ResolvedIndexedEvent.default; error = none }

module _ (p : Protobuf) where
  -- The arms of the `match` on a tag.
  arms : ReadEventCompleted → List (ℕ × Rd ReadEventCompleted)
  arms msg =
      (
        8,
        (do
          v ← p.read_enum ReadEventResult read_event_result_from_i32
          pure (record msg { result = some v })),
      )
      ∷ (
        18,
        (do
          v ← p.read_message ResolvedIndexedEvent (ResolvedIndexedEvent.from_reader p)
          pure (record msg { event = v })),
      )
      ∷ (26, (do v ← p.read_string; pure (record msg { error = some v })))
      ∷ []

  step : ReadEventCompleted → ℕ → Rd ReadEventCompleted
  unfolding arms
  step msg t = match_tag t (arms msg) (do p.read_unknown t; pure msg)

  unfoldable pub from_reader : Rd ReadEventCompleted
  unfolding step
  from_reader r = read_fields p step (suc (length r)) default r

  unfoldable pub get_size : ReadEventCompleted → ℕ
  get_size x =
      0
      + size_opt x.result (λ m. 1 + p.sizeof_varint (as_u64 (read_event_result_to_i32 m)))
      + 1
      + p.sizeof_len (ResolvedIndexedEvent.get_size p x.event)
      + size_opt x.error (λ m. 1 + p.sizeof_len (length m))

  -- The writes, one for each field.
  writes : ReadEventCompleted → List Bytes
  writes x =
      write_opt x.result (λ m. p.write_with_tag 8 (p.write_enum (read_event_result_to_i32 m)))
      ∷ p.write_with_tag 18 (
          p.write_message (ResolvedIndexedEvent.get_size p x.event)
            (ResolvedIndexedEvent.write_message p x.event))
      ∷ write_opt x.error (λ m. p.write_with_tag 26 (p.write_string m))
      ∷ []

  unfoldable pub write_message : ReadEventCompleted → Bytes
  unfolding writes
  write_message x = write_all (writes x)

  -- What can be written and read back: texts are UTF-8, lengths fit, numbers are in range.
  pub record IsValid (x : ReadEventCompleted) : Type 0 where
    pub event : ResolvedIndexedEvent.Nests p x.event
    pub error : OptAll IsText x.error

module _ {p : Protobuf} (q : IsProtobuf p) where
  -- `get_size` is the number of bytes that `write_message` appends.
  pub length-write_message : (x : ReadEventCompleted) → length (write_message p x) ≡ get_size p x
  unfolding write_message get_size
  length-write_message x = omega (
    arith,
    length-write_all (writes p x)
        (size_opt x.result (λ m. 1 + p.sizeof_varint (as_u64 (read_event_result_to_i32 m)))
          ∷ (1 + p.sizeof_len (ResolvedIndexedEvent.get_size p x.event))
          ∷ size_opt x.error (λ m. 1 + p.sizeof_len (length m))
          ∷ [])
        (length-write_opt x.result _ _
            (λ m. length_field q 8 _ _ refl (q.enum_size (read_event_result_to_i32 m)))
          & length_field q 18 _ _ refl
              (q.message_size _ _ (ResolvedIndexedEvent.length-write_message q x.event))
          & length-write_opt x.error _ _ (λ m. length_field q 26 _ _ refl (q.string_size m))
          & tt),
  )

  write_message-Reads :
      (x : ReadEventCompleted) → IsValid p x → Reads q (step p) default (write_message p x) x
  unfolding step write_message
  write_message-Reads x h =
      Reads-opt q (step p) 8 Always x.result (λ m. p.write_enum (read_event_result_to_i32 m))
        (λ v. record x { result = v; event = ResolvedIndexedEvent.default; error = none }) refl
        (enum_ReadsBack q ReadEventResult read_event_result_from_i32 read_event_result_to_i32
          read_event_result_inverse)
        (always_opt x.result) refl
        (Reads-field q (step p) 18 _ refl (ResolvedIndexedEvent.nested_ReadsBack q x.event h.event)
          refl
          (Reads-opt q (step p) 26 IsText x.error (λ m. p.write_string m)
            (λ v. record x { error = v }) refl (string_ReadsBack q) h.error refl
            (Reads-nil q (step p) x)))

  -- A valid message is read back from what was written, and nothing is left.
  pub from_reader-write_message :
      (x : ReadEventCompleted) → IsValid p x → from_reader p (write_message p x) ≡ (ok x, [])
  unfolding from_reader
  from_reader-write_message x h = (write_message-Reads x h).at _ (omega arith)

  step-IsForward : (m : ReadEventCompleted) (t : ℕ) → IsForward (step p m t)
  unfolding step
  step-IsForward m t =
      match_tag-IsForward t (arms p m) _
        (set-IsForward _ (q.enum_forward ReadEventResult read_event_result_from_i32)
          & set-IsForward _ (
              q.message_forward ResolvedIndexedEvent (ResolvedIndexedEvent.from_reader p)
                (ResolvedIndexedEvent.from_reader-IsForward q))
          & set-IsForward _ (q.string_forward)
          & tt)
        (>>=-IsForward (p.read_unknown t) (λ _. pure m) (q.unknown_forward t)
          (λ _. pure-IsForward m))

  -- The reader ends on all bytes, and what it leaves is no longer than what it was given.
  pub from_reader-IsForward : IsForward (from_reader p)
  unfolding from_reader
  from_reader-IsForward = read_fields-IsForward q (step p) step-IsForward default
