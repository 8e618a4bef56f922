-- ===== src/Message/TransactionCommitCompleted.antt =====
-- `TransactionCommitCompleted` of src/raw/client_messages.rs: the message, its reader, its
-- size and its writer, and the lemmas on them.
use eventstore_tcp.Prelude.{
  ℕ, suc, Bytes, Str, ok, List, [], ◌∷◌, ◌+◌, ◌≡◌, refl, Option, none, some, length, arith,
}
use eventstore_tcp.Prelude.Int.{ℤ, pos, IsI32, IsI64, as_u64}
use eventstore_tcp.Protobuf.{
  Rd, Protobuf, ◌>>=◌, ◌>>◌, pure, read_fields, match_tag, write_all, write_opt, size_opt,
}
use eventstore_tcp.Protobuf.Laws.{IsProtobuf, IsForward, IsText}
use eventstore_tcp.Protobuf.Loop.{Reads, Reads-nil, Reads-field, Reads-opt, always_opt, OptAll}
use eventstore_tcp.Protobuf.Plain.{
  Always, string_ReadsBack, int32_ReadsBack, int64_ReadsBack, enum_ReadsBack,
}
use eventstore_tcp.Protobuf.Forward.{
  read_fields-IsForward, match_tag-IsForward, set-IsForward, >>=-IsForward, pure-IsForward,
}
use eventstore_tcp.Protobuf.Sizes.{length_field, length-write_all, length-write_opt}
use eventstore_tcp.Message.Enums.{
  OperationResult, operation_result_from_i32, operation_result_to_i32, operation_result_inverse,
}

pub record TransactionCommitCompleted : Type 0 where
  pub transaction_id : ℤ
  pub result : Option OperationResult
  pub message : Option Str
  pub first_event_number : ℤ
  pub last_event_number : ℤ
  pub prepare_position : Option ℤ
  pub commit_position : Option ℤ

-- `Default::default()`
abbrev pub default : TransactionCommitCompleted
default = record {
  transaction_id = pos 0;
  result = none;
  message = none;
  first_event_number = pos 0;
  last_event_number = pos 0;
  prepare_position = none;
  commit_position = none;
}

module _ (p : Protobuf) where
  -- The arms of the `match` on a tag.
  arms : TransactionCommitCompleted → List (ℕ × Rd TransactionCommitCompleted)
  arms msg =
      (8, (do v ← p.read_int64; pure (record msg { transaction_id = v })))
      ∷ (
        16,
        (do
          v ← p.read_enum OperationResult operation_result_from_i32
          pure (record msg { result = some v })),
      )
      ∷ (26, (do v ← p.read_string; pure (record msg { message = some v })))
      ∷ (32, (do v ← p.read_int32; pure (record msg { first_event_number = v })))
      ∷ (40, (do v ← p.read_int32; pure (record msg { last_event_number = v })))
      ∷ (48, (do v ← p.read_int64; pure (record msg { prepare_position = some v })))
      ∷ (56, (do v ← p.read_int64; pure (record msg { commit_position = some v })))
      ∷ []

  step : TransactionCommitCompleted → ℕ → Rd TransactionCommitCompleted
  unfolding arms
  step msg t = match_tag t (arms msg) (do p.read_unknown t; pure msg)

  unfoldable pub from_reader : Rd TransactionCommitCompleted
  unfolding step
  from_reader r = read_fields p step (suc (length r)) default r

  unfoldable pub get_size : TransactionCommitCompleted → ℕ
  get_size x =
      0
      + 1
      + p.sizeof_varint (as_u64 x.transaction_id)
      + size_opt x.result (λ m. 1 + p.sizeof_varint (as_u64 (operation_result_to_i32 m)))
      + size_opt x.message (λ m. 1 + p.sizeof_len (length m))
      + 1
      + p.sizeof_varint (as_u64 x.first_event_number)
      + 1
      + p.sizeof_varint (as_u64 x.last_event_number)
      + size_opt x.prepare_position (λ m. 1 + p.sizeof_varint (as_u64 m))
      + size_opt x.commit_position (λ m. 1 + p.sizeof_varint (as_u64 m))

  -- The writes, one for each field.
  writes : TransactionCommitCompleted → List Bytes
  writes x =
      p.write_with_tag 8 (p.write_int64 x.transaction_id)
      ∷ write_opt x.result (λ m. p.write_with_tag 16 (p.write_enum (operation_result_to_i32 m)))
      ∷ write_opt x.message (λ m. p.write_with_tag 26 (p.write_string m))
      ∷ p.write_with_tag 32 (p.write_int32 x.first_event_number)
      ∷ p.write_with_tag 40 (p.write_int32 x.last_event_number)
      ∷ write_opt x.prepare_position (λ m. p.write_with_tag 48 (p.write_int64 m))
      ∷ write_opt x.commit_position (λ m. p.write_with_tag 56 (p.write_int64 m))
      ∷ []

  unfoldable pub write_message : TransactionCommitCompleted → Bytes
  unfolding writes
  write_message x = write_all (writes x)

  -- What can be written and read back: texts are UTF-8, lengths fit, numbers are in range.
  pub record IsValid (x : TransactionCommitCompleted) : Type 0 where
    pub transaction_id : IsI64 x.transaction_id
    pub message : OptAll IsText x.message
    pub first_event_number : IsI32 x.first_event_number
    pub last_event_number : IsI32 x.last_event_number
    pub prepare_position : OptAll IsI64 x.prepare_position
    pub commit_position : OptAll IsI64 x.commit_position

module _ {p : Protobuf} (q : IsProtobuf p) where
  -- `get_size` is the number of bytes that `write_message` appends.
  pub length-write_message :
      (x : TransactionCommitCompleted) → length (write_message p x) ≡ get_size p x
  unfolding write_message get_size
  length-write_message x = omega (
    arith,
    length-write_all (writes p x)
        ((1 + p.sizeof_varint (as_u64 x.transaction_id))
          ∷ size_opt x.result (λ m. 1 + p.sizeof_varint (as_u64 (operation_result_to_i32 m)))
          ∷ size_opt x.message (λ m. 1 + p.sizeof_len (length m))
          ∷ (1 + p.sizeof_varint (as_u64 x.first_event_number))
          ∷ (1 + p.sizeof_varint (as_u64 x.last_event_number))
          ∷ size_opt x.prepare_position (λ m. 1 + p.sizeof_varint (as_u64 m))
          ∷ size_opt x.commit_position (λ m. 1 + p.sizeof_varint (as_u64 m))
          ∷ [])
        (
          length_field q 8 _ _ refl (q.int64_size x.transaction_id),
          (
            length-write_opt x.result _ _
                (λ m. length_field q 16 _ _ refl (q.enum_size (operation_result_to_i32 m))),
            (
              length-write_opt x.message _ _ (λ m. length_field q 26 _ _ refl (q.string_size m)),
              (
                length_field q 32 _ _ refl (q.int32_size x.first_event_number),
                (
                  length_field q 40 _ _ refl (q.int32_size x.last_event_number),
                  (
                    length-write_opt x.prepare_position _ _
                        (λ m. length_field q 48 _ _ refl (q.int64_size m)),
                    (
                      length-write_opt x.commit_position _ _
                          (λ m. length_field q 56 _ _ refl (q.int64_size m)),
                      (tt),
                    ),
                  ),
                ),
              ),
            ),
          ),
        ),
  )

  write_message-Reads :
      (x : TransactionCommitCompleted)
      → IsValid p x
      → Reads q (step p) default (write_message p x) x
  unfolding step write_message
  write_message-Reads x h =
      Reads-field q (step p) 8 _ refl (int64_ReadsBack q x.transaction_id h.transaction_id) refl (
        Reads-opt q (step p) 16 Always x.result (λ m. p.write_enum (operation_result_to_i32 m))
          (λ v. record x {
            result = v;
            message = none;
            first_event_number = pos 0;
            last_event_number = pos 0;
            prepare_position = none;
            commit_position = none;
          })
          refl
          (enum_ReadsBack q OperationResult operation_result_from_i32 operation_result_to_i32
            operation_result_inverse)
          (always_opt x.result) refl
          (Reads-opt q (step p) 26 IsText x.message (λ m. p.write_string m)
            (λ v. record x {
              message = v;
              first_event_number = pos 0;
              last_event_number = pos 0;
              prepare_position = none;
              commit_position = none;
            })
            refl (string_ReadsBack q) h.message refl
            (Reads-field q (step p) 32 _ refl
              (int32_ReadsBack q x.first_event_number h.first_event_number) refl
              (Reads-field q (step p) 40 _ refl
                (int32_ReadsBack q x.last_event_number h.last_event_number) refl
                (Reads-opt q (step p) 48 IsI64 x.prepare_position (λ m. p.write_int64 m)
                  (λ v. record x { prepare_position = v; commit_position = none }) refl
                  (int64_ReadsBack q) h.prepare_position refl
                  (Reads-opt q (step p) 56 IsI64 x.commit_position (λ m. p.write_int64 m)
                    (λ v. record x { commit_position = v }) refl (int64_ReadsBack q)
                    h.commit_position refl (Reads-nil q (step p) x)))))))

  -- A valid message is read back from what was written, and nothing is left.
  pub from_reader-write_message :
      (x : TransactionCommitCompleted)
      → IsValid p x
      → from_reader p (write_message p x) ≡ (ok x, [])
  unfolding from_reader
  from_reader-write_message x h = (write_message-Reads x h).at _ (omega arith)

  step-IsForward : (m : TransactionCommitCompleted) (t : ℕ) → IsForward (step p m t)
  unfolding step
  step-IsForward m t =
      match_tag-IsForward t (arms p m) _
        (
          set-IsForward _ (q.int64_forward),
          (
            set-IsForward _ (q.enum_forward OperationResult operation_result_from_i32),
            (
              set-IsForward _ (q.string_forward),
              (
                set-IsForward _ (q.int32_forward),
                (
                  set-IsForward _ (q.int32_forward),
                  (set-IsForward _ (q.int64_forward), (set-IsForward _ (q.int64_forward), (tt))),
                ),
              ),
            ),
          ),
        )
        (>>=-IsForward (p.read_unknown t) (λ _. pure m) (q.unknown_forward t)
          (λ _. pure-IsForward m))

  -- The reader ends on all bytes, and what it leaves is no longer than what it was given.
  pub from_reader-IsForward : IsForward (from_reader p)
  unfolding from_reader
  from_reader-IsForward = read_fields-IsForward q (step p) step-IsForward default
