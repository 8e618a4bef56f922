-- ===== src/Message/TransactionCommit.antt =====
-- `TransactionCommit` of src/raw/client_messages.rs: the message, its reader, its size and its
-- writer, and the lemmas on them.
use eventstore_tcp.Prelude.{
  ℕ, suc, Bool, false, Bytes, ok, List, [], ◌∷◌, ◌+◌, ◌≡◌, refl, length, arith,
}
use eventstore_tcp.Prelude.Int.{ℤ, pos, IsI64, as_u64}
use eventstore_tcp.Protobuf.{
  Rd, Protobuf, ◌>>=◌, ◌>>◌, pure, read_fields, match_tag, write_all, bool_to_u64,
}
use eventstore_tcp.Protobuf.Laws.{IsProtobuf, IsForward}
use eventstore_tcp.Protobuf.Loop.{Reads, Reads-nil, Reads-field}
use eventstore_tcp.Protobuf.Plain.{int64_ReadsBack, bool_ReadsBack}
use eventstore_tcp.Protobuf.Forward.{
  read_fields-IsForward, match_tag-IsForward, set-IsForward, >>=-IsForward, pure-IsForward,
}
use eventstore_tcp.Protobuf.Sizes.{length_field, length-write_all}

pub record TransactionCommit : Type 0 where
  pub transaction_id : ℤ
  pub require_master : Bool

-- `Default::default()`
abbrev pub default : TransactionCommit
default = record { transaction_id = pos 0; require_master = false }

module _ (p : Protobuf) where
  -- The arms of the `match` on a tag.
  arms : TransactionCommit → List (ℕ × Rd TransactionCommit)
  arms msg =
      (8, (do v ← p.read_int64; pure (record msg { transaction_id = v })))
      ∷ (16, (do v ← p.read_bool; pure (record msg { require_master = v })))
      ∷ []

  step : TransactionCommit → ℕ → Rd TransactionCommit
  unfolding arms
  step msg t = match_tag t (arms msg) (do p.read_unknown t; pure msg)

  unfoldable pub from_reader : Rd TransactionCommit
  unfolding step
  from_reader r = read_fields p step (suc (length r)) default r

  unfoldable pub get_size : TransactionCommit → ℕ
  get_size x =
      0
      + 1
      + p.sizeof_varint (as_u64 x.transaction_id)
      + 1
      + p.sizeof_varint (bool_to_u64 x.require_master)

  -- The writes, one for each field.
  writes : TransactionCommit → List Bytes
  writes x =
      p.write_with_tag 8 (p.write_int64 x.transaction_id)
      ∷ p.write_with_tag 16 (p.write_bool x.require_master)
      ∷ []

  unfoldable pub write_message : TransactionCommit → Bytes
  unfolding writes
  write_message x = write_all (writes x)

  -- What can be written and read back: texts are UTF-8, lengths fit, numbers are in range.
  pub record IsValid (x : TransactionCommit) : Type 0 where
    pub transaction_id : IsI64 x.transaction_id

module _ {p : Protobuf} (q : IsProtobuf p) where
  -- `get_size` is the number of bytes that `write_message` appends.
  pub length-write_message : (x : TransactionCommit) → length (write_message p x) ≡ get_size p x
  unfolding write_message get_size
  length-write_message x = omega (
    arith,
    length-write_all (writes p x)
        ((1 + p.sizeof_varint (as_u64 x.transaction_id))
          ∷ (1 + p.sizeof_varint (bool_to_u64 x.require_master))
          ∷ [])
        (
          length_field q 8 _ _ refl (q.int64_size x.transaction_id),
          (length_field q 16 _ _ refl (q.bool_size x.require_master), (tt)),
        ),
  )

  write_message-Reads :
      (x : TransactionCommit) → IsValid p x → Reads q (step p) default (write_message p x) x
  unfolding step write_message
  write_message-Reads x h =
      Reads-field q (step p) 8 _ refl (int64_ReadsBack q x.transaction_id h.transaction_id) refl (
        Reads-field q (step p) 16 _ refl (bool_ReadsBack q x.require_master tt) refl
          (Reads-nil q (step p) x))

  -- A valid message is read back from what was written, and nothing is left.
  pub from_reader-write_message :
      (x : TransactionCommit) → IsValid p x → from_reader p (write_message p x) ≡ (ok x, [])
  unfolding from_reader
  from_reader-write_message x h = (write_message-Reads x h).at _ (omega arith)

  step-IsForward : (m : TransactionCommit) (t : ℕ) → IsForward (step p m t)
  unfolding step
  step-IsForward m t =
      match_tag-IsForward t (arms p m) _
        (set-IsForward _ (q.int64_forward), (set-IsForward _ (q.bool_forward), (tt)))
        (>>=-IsForward (p.read_unknown t) (λ _. pure m) (q.unknown_forward t)
          (λ _. pure-IsForward m))

  -- The reader ends on all bytes, and what it leaves is no longer than what it was given.
  pub from_reader-IsForward : IsForward (from_reader p)
  unfolding from_reader
  from_reader-IsForward = read_fields-IsForward q (step p) step-IsForward default
