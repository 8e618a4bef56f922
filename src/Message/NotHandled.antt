-- ===== src/Message/NotHandled.antt =====
-- `NotHandled` of src/raw/client_messages.rs: the message, its reader, its size and its
-- writer, and the lemmas on them.
use eventstore_tcp.Prelude.{
  ◌&◌, ℕ, suc, Bytes, ok, List, [], ◌∷◌, ◌+◌, ◌≡◌, refl, Option, none, some, length, arith,
}
use eventstore_tcp.Prelude.Int.{as_u64}
use eventstore_tcp.Protobuf.{
  Rd, Protobuf, ◌>>=◌, ◌>>◌, pure, read_fields, match_tag, write_all, write_opt, size_opt,
}
use eventstore_tcp.Protobuf.Laws.{IsProtobuf, IsForward, Fits}
use eventstore_tcp.Protobuf.Loop.{Reads, Reads-nil, Reads-opt, always_opt, OptAll}
use eventstore_tcp.Protobuf.Plain.{Always, bytes_ReadsBack, enum_ReadsBack}
use eventstore_tcp.Protobuf.Forward.{
  read_fields-IsForward, match_tag-IsForward, set-IsForward, >>=-IsForward, pure-IsForward,
}
use eventstore_tcp.Protobuf.Sizes.{length_field, length-write_all, length-write_opt}
use eventstore_tcp.Message.Enums.{
  NotHandledReason, not_handled_reason_from_i32, not_handled_reason_to_i32,
  not_handled_reason_inverse,
}

pub record NotHandled : Type 0 where
  pub reason : Option NotHandledReason
  pub additional_info : Option Bytes

-- `Default::default()`
abbrev pub default : NotHandled
default = record { reason = none; additional_info = none }

module _ (p : Protobuf) where
  -- The arms of the `match` on a tag.
  arms : NotHandled → List (ℕ × Rd NotHandled)
  arms msg =
      (
        8,
        (do
          v ← p.read_enum NotHandledReason not_handled_reason_from_i32
          pure (record msg { reason = some v })),
      )
      ∷ (18, (do v ← p.read_bytes; pure (record msg { additional_info = some v })))
      ∷ []

  step : NotHandled → ℕ → Rd NotHandled
  unfolding arms
  step msg t = match_tag t (arms msg) (do p.read_unknown t; pure msg)

  unfoldable pub from_reader : Rd NotHandled
  unfolding step
  from_reader r = read_fields p step (suc (length r)) default r

  unfoldable pub get_size : NotHandled → ℕ
  get_size x =
      0
      + size_opt x.reason (λ m. 1 + p.sizeof_varint (as_u64 (not_handled_reason_to_i32 m)))
      + size_opt x.additional_info (λ m. 1 + p.sizeof_len (length m))

  -- The writes, one for each field.
  writes : NotHandled → List Bytes
  writes x =
      write_opt x.reason (λ m. p.write_with_tag 8 (p.write_enum (not_handled_reason_to_i32 m)))
      ∷ write_opt x.additional_info (λ m. p.write_with_tag 18 (p.write_bytes m))
      ∷ []

  unfoldable pub write_message : NotHandled → Bytes
  unfolding writes
  write_message x = write_all (writes x)

  -- What can be written and read back: texts are UTF-8, lengths fit, numbers are in range.
  pub record IsValid (x : NotHandled) : Type 0 where
    pub additional_info : OptAll Fits x.additional_info

module _ {p : Protobuf} (q : IsProtobuf p) where
  -- `get_size` is the number of bytes that `write_message` appends.
  pub length-write_message : (x : NotHandled) → length (write_message p x) ≡ get_size p x
  unfolding write_message get_size
  length-write_message x = omega (
    arith,
    length-write_all (writes p x)
        (size_opt x.reason (λ m. 1 + p.sizeof_varint (as_u64 (not_handled_reason_to_i32 m)))
          ∷ size_opt x.additional_info (λ m. 1 + p.sizeof_len (length m))
          ∷ [])
        (length-write_opt x.reason _ _
            (λ m. length_field q 8 _ _ refl (q.enum_size (not_handled_reason_to_i32 m)))
          & length-write_opt x.additional_info _ _
              (λ m. length_field q 18 _ _ refl (q.bytes_size m))
          & tt),
  )

  write_message-Reads :
      (x : NotHandled) → IsValid p x → Reads q (step p) default (write_message p x) x
  unfolding step write_message
  write_message-Reads x h =
      Reads-opt q (step p) 8 Always x.reason (λ m. p.write_enum (not_handled_reason_to_i32 m))
        (λ v. record x { reason = v; additional_info = none }) refl
        (enum_ReadsBack q NotHandledReason not_handled_reason_from_i32 not_handled_reason_to_i32
          not_handled_reason_inverse)
        (always_opt x.reason) refl
        (Reads-opt q (step p) 18 Fits x.additional_info (λ m. p.write_bytes m)
          (λ v. record x { additional_info = v }) refl (bytes_ReadsBack q) h.additional_info refl
          (Reads-nil q (step p) x))

  -- A valid message is read back from what was written, and nothing is left.
  pub from_reader-write_message :
      (x : NotHandled) → IsValid p x → from_reader p (write_message p x) ≡ (ok x, [])
  unfolding from_reader
  from_reader-write_message x h = (write_message-Reads x h).at _ (omega arith)

  step-IsForward : (m : NotHandled) (t : ℕ) → IsForward (step p m t)
  unfolding step
  step-IsForward m t =
      match_tag-IsForward t (arms p m) _
        (set-IsForward _ (q.enum_forward NotHandledReason not_handled_reason_from_i32)
          & set-IsForward _ (q.bytes_forward)
          & tt)
        (>>=-IsForward (p.read_unknown t) (λ _. pure m) (q.unknown_forward t)
          (λ _. pure-IsForward m))

  -- The reader ends on all bytes, and what it leaves is no longer than what it was given.
  pub from_reader-IsForward : IsForward (from_reader p)
  unfolding from_reader
  from_reader-IsForward = read_fields-IsForward q (step p) step-IsForward default
