-- ===== src/Message/SubscriptionConfirmation.antt =====
-- `SubscriptionConfirmation` of src/raw/client_messages.rs: the message, its reader, its
-- size and its writer, and the lemmas on them.
use eventstore_tcp.Prelude.{
  ℕ, suc, Bytes, ok, List, [], ◌∷◌, ◌+◌, ◌≡◌, refl, Option, none, some, length, arith,
}
use eventstore_tcp.Prelude.Int.{ℤ, pos, IsI32, IsI64, as_u64}
use eventstore_tcp.Protobuf.{
  Rd, Protobuf, ◌>>=◌, ◌>>◌, pure, read_fields, match_tag, write_all, write_opt, size_opt,
}
use eventstore_tcp.Protobuf.Laws.{IsProtobuf, IsForward}
use eventstore_tcp.Protobuf.Loop.{Reads, Reads-nil, Reads-field, Reads-opt, OptAll}
use eventstore_tcp.Protobuf.Plain.{int32_ReadsBack, int64_ReadsBack}
use eventstore_tcp.Protobuf.Forward.{
  read_fields-IsForward, match_tag-IsForward, set-IsForward, >>=-IsForward, pure-IsForward,
}
use eventstore_tcp.Protobuf.Sizes.{length_field, length-write_all, length-write_opt}

pub record SubscriptionConfirmation : Type 0 where
  pub last_commit_position : ℤ
  pub last_event_number : Option ℤ

-- `Default::default()`
abbrev pub default : SubscriptionConfirmation
default = record { last_commit_position = pos 0; last_event_number = none }

module _ (p : Protobuf) where
  -- The arms of the `match` on a tag.
  arms : SubscriptionConfirmation → List (ℕ × Rd SubscriptionConfirmation)
  arms msg =
      (8, (do v ← p.read_int64; pure (record msg { last_commit_position = v })))
      ∷ (16, (do v ← p.read_int32; pure (record msg { last_event_number = some v })))
      ∷ []

  step : SubscriptionConfirmation → ℕ → Rd SubscriptionConfirmation
  unfolding arms
  step msg t = match_tag t (arms msg) (do p.read_unknown t; pure msg)

  unfoldable pub from_reader : Rd SubscriptionConfirmation
  unfolding step
  from_reader r = read_fields p step (suc (length r)) default r

  unfoldable pub get_size : SubscriptionConfirmation → ℕ
  get_size x =
      0
      + 1
      + p.sizeof_varint (as_u64 x.last_commit_position)
      + size_opt x.last_event_number (λ m. 1 + p.sizeof_varint (as_u64 m))

  -- The writes, one for each field.
  writes : SubscriptionConfirmation → List Bytes
  writes x =
      p.write_with_tag 8 (p.write_int64 x.last_commit_position)
      ∷ write_opt x.last_event_number (λ m. p.write_with_tag 16 (p.write_int32 m))
      ∷ []

  unfoldable pub write_message : SubscriptionConfirmation → Bytes
  unfolding writes
  write_message x = write_all (writes x)

  -- What can be written and read back: texts are UTF-8, lengths fit, numbers are in range.
  pub record IsValid (x : SubscriptionConfirmation) : Type 0 where
    pub last_commit_position : IsI64 x.last_commit_position
    pub last_event_number : OptAll IsI32 x.last_event_number

module _ {p : Protobuf} (q : IsProtobuf p) where
  -- `get_size` is the number of bytes that `write_message` appends.
  pub length-write_message :
      (x : SubscriptionConfirmation) → length (write_message p x) ≡ get_size p x
  unfolding write_message get_size
  length-write_message x = omega (
    arith,
    length-write_all (writes p x)
        ((1 + p.sizeof_varint (as_u64 x.last_commit_position))
          ∷ size_opt x.last_event_number (λ m. 1 + p.sizeof_varint (as_u64 m))
          ∷ [])
        (
          length_field q 8 _ _ refl (q.int64_size x.last_commit_position),
          (
            length-write_opt x.last_event_number _ _
                (λ m. length_field q 16 _ _ refl (q.int32_size m)),
            (tt),
          ),
        ),
  )

  write_message-Reads :
      (x : SubscriptionConfirmation) → IsValid p x → Reads q (step p) default (write_message p x) x
  unfolding step write_message
  write_message-Reads x h =
      Reads-field q (step p) 8 _ refl
        (int64_ReadsBack q x.last_commit_position h.last_commit_position) refl
        (Reads-opt q (step p) 16 IsI32 x.last_event_number (λ m. p.write_int32 m)
          (λ v. record x { last_event_number = v }) refl (int32_ReadsBack q) h.last_event_number
          refl (Reads-nil q (step p) x))

  -- A valid message is read back from what was written, and nothing is left.
  pub from_reader-write_message :
      (x : SubscriptionConfirmation) → IsValid p x → from_reader p (write_message p x) ≡ (ok x, [])
  unfolding from_reader
  from_reader-write_message x h = (write_message-Reads x h).at _ (omega arith)

  step-IsForward : (m : SubscriptionConfirmation) (t : ℕ) → IsForward (step p m t)
  unfolding step
  step-IsForward m t =
      match_tag-IsForward t (arms p m) _
        (set-IsForward _ (q.int64_forward), (set-IsForward _ (q.int32_forward), (tt)))
        (>>=-IsForward (p.read_unknown t) (λ _. pure m) (q.unknown_forward t)
          (λ _. pure-IsForward m))

  -- The reader ends on all bytes, and what it leaves is no longer than what it was given.
  pub from_reader-IsForward : IsForward (from_reader p)
  unfolding from_reader
  from_reader-IsForward = read_fields-IsForward q (step p) step-IsForward default
