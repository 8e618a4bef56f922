-- ===== src/Message/ReadAllEventsCompleted.antt =====
-- `ReadAllEventsCompleted` of src/raw/client_messages.rs: the message, its reader, its
-- size and its writer, and the lemmas on them.
use eventstore_tcp.Prelude.{
  ◌&◌, ℕ, suc, Bytes, Str, ok, List, [], ◌∷◌, ◌++◌, ◌+◌, ◌≡◌, refl, ap, if◌then◌else◌, Option, none,
  some, length, arith, All,
}
use eventstore_tcp.Prelude.Int.{ℤ, pos, IsI64, as_u64}
use eventstore_tcp.Protobuf.{
  Rd, Protobuf, ◌>>=◌, ◌>>◌, pure, read_fields, match_tag, write_all, write_opt, write_each,
  size_opt, size_each,
}
use eventstore_tcp.Protobuf.Laws.{IsProtobuf, IsForward, IsText}
use eventstore_tcp.Protobuf.Loop.{
  Reads, Reads-nil, Reads-field, Reads-opt, Reads-each, Reads-unless, OptAll,
}
use eventstore_tcp.Protobuf.Plain.{string_ReadsBack, int64_ReadsBack, enum_ReadsBack}
use eventstore_tcp.Protobuf.Forward.{
  read_fields-IsForward, match_tag-IsForward, set-IsForward, >>=-IsForward, pure-IsForward,
}
use eventstore_tcp.Protobuf.Sizes.{
  length_field, length-write_all, length-write_opt, length-write_each, length-write_unless,
}
use eventstore_tcp.Message.Enums.{
  ReadAllResult, read_all_result_from_i32, read_all_result_to_i32, read_all_result_inverse,
  is_read_all_success, read_all_default,
}
use eventstore_tcp.Message.ResolvedEvent
use eventstore_tcp.Message.ResolvedEvent.{ResolvedEvent}

pub record ReadAllEventsCompleted : Type 0 where
  pub commit_position : ℤ
  pub prepare_position : ℤ
  pub events : List ResolvedEvent
  pub next_commit_position : ℤ
  pub next_prepare_position : ℤ
  pub result : ReadAllResult
  pub error : Option Str

-- `Default::default()`, with the result `Success`
abbrev pub default : ReadAllEventsCompleted
default = record {
  commit_position = pos 0;
  prepare_position = pos 0;
  events = [];
  next_commit_position = pos 0;
  next_prepare_position = pos 0;
  result = ReadAllResult.success;
  error = none;
}

module _ (p : Protobuf) where
  -- The arms of the `match` on a tag.
  arms : ReadAllEventsCompleted → List (ℕ × Rd ReadAllEventsCompleted)
  arms msg =
      (8, (do v ← p.read_int64; pure (record msg { commit_position = v })))
      ∷ (16, (do v ← p.read_int64; pure (record msg { prepare_position = v })))
      ∷ (
        26,
        (do
          v ← p.read_message ResolvedEvent (ResolvedEvent.from_reader p)
          pure (record msg { events = msg.events ++ v ∷ [] })),
      )
      ∷ (32, (do v ← p.read_int64; pure (record msg { next_commit_position = v })))
      ∷ (40, (do v ← p.read_int64; pure (record msg { next_prepare_position = v })))
      ∷ (
        48,
        (do
          v ← p.read_enum ReadAllResult read_all_result_from_i32
          pure (record msg { result = v })),
      )
      ∷ (58, (do v ← p.read_string; pure (record msg { error = some v })))
      ∷ []

  step : ReadAllEventsCompleted → ℕ → Rd ReadAllEventsCompleted
  unfolding arms
  step msg t = match_tag t (arms msg) (do p.read_unknown t; pure msg)

  unfoldable pub from_reader : Rd ReadAllEventsCompleted
  unfolding step
  from_reader r = read_fields p step (suc (length r)) default r

  unfoldable pub get_size : ReadAllEventsCompleted → ℕ
  get_size x =
      0
      + 1
      + p.sizeof_varint (as_u64 x.commit_position)
      + 1
      + p.sizeof_varint (as_u64 x.prepare_position)
      + size_each x.events (λ m. 1 + p.sizeof_len (ResolvedEvent.get_size p m))
      + 1
      + p.sizeof_varint (as_u64 x.next_commit_position)
      + 1
      + p.sizeof_varint (as_u64 x.next_prepare_position)
      + (if is_read_all_success x.result
          then 0
          else 1 + p.sizeof_varint (as_u64 (read_all_result_to_i32 x.result)))
      + size_opt x.error (λ m. 1 + p.sizeof_len (length m))

  -- The writes, one for each field.
  writes : ReadAllEventsCompleted → List Bytes
  writes x =
      p.write_with_tag 8 (p.write_int64 x.commit_position)
      ∷ p.write_with_tag 16 (p.write_int64 x.prepare_position)
      ∷ write_each x.events (λ m.
        p.write_with_tag 26
          (p.write_message (ResolvedEvent.get_size p m) (ResolvedEvent.write_message p m)))
      ∷ p.write_with_tag 32 (p.write_int64 x.next_commit_position)
      ∷ p.write_with_tag 40 (p.write_int64 x.next_prepare_position)
      ∷ (if is_read_all_success x.result
          then []
          else p.write_with_tag 48 (p.write_enum (read_all_result_to_i32 x.result)))
      ∷ write_opt x.error (λ m. p.write_with_tag 58 (p.write_string m))
      ∷ []

  unfoldable pub write_message : ReadAllEventsCompleted → Bytes
  unfolding writes
  write_message x = write_all (writes x)

  -- What can be written and read back: texts are UTF-8, lengths fit, numbers are in range.
  pub record IsValid (x : ReadAllEventsCompleted) : Type 0 where
    pub commit_position : IsI64 x.commit_position
    pub prepare_position : IsI64 x.prepare_position
    pub events : All (ResolvedEvent.Nests p) x.events
    pub next_commit_position : IsI64 x.next_commit_position
    pub next_prepare_position : IsI64 x.next_prepare_position
    pub error : OptAll IsText x.error

module _ {p : Protobuf} (q : IsProtobuf p) where
  -- `get_size` is the number of bytes that `write_message` appends.
  pub length-write_message :
      (x : ReadAllEventsCompleted) → length (write_message p x) ≡ get_size p x
  unfolding write_message get_size
  length-write_message x = omega (
    arith,
    length-write_all (writes p x)
        ((1 + p.sizeof_varint (as_u64 x.commit_position))
          ∷ (1 + p.sizeof_varint (as_u64 x.prepare_position))
          ∷ size_each x.events (λ m. 1 + p.sizeof_len (ResolvedEvent.get_size p m))
          ∷ (1 + p.sizeof_varint (as_u64 x.next_commit_position))
          ∷ (1 + p.sizeof_varint (as_u64 x.next_prepare_position))
          ∷ (if is_read_all_success x.result
              then 0
              else 1 + p.sizeof_varint (as_u64 (read_all_result_to_i32 x.result)))
          ∷ size_opt x.error (λ m. 1 + p.sizeof_len (length m))
          ∷ [])
        (length_field q 8 _ _ refl (q.int64_size x.commit_position)
          & length_field q 16 _ _ refl (q.int64_size x.prepare_position)
          & length-write_each x.events _ _ (λ m.
            length_field q 26 _ _ refl
              (q.message_size _ _ (ResolvedEvent.length-write_message q m)))
          & length_field q 32 _ _ refl (q.int64_size x.next_commit_position)
          & length_field q 40 _ _ refl (q.int64_size x.next_prepare_position)
          & length-write_unless (is_read_all_success x.result) _ _
              (length_field q 48 _ _ refl (q.enum_size (read_all_result_to_i32 x.result)))
          & length-write_opt x.error _ _ (λ m. length_field q 58 _ _ refl (q.string_size m))
          & tt),
  )

  write_message-Reads :
      (x : ReadAllEventsCompleted) → IsValid p x → Reads q (step p) default (write_message p x) x
  unfolding step write_message
  write_message-Reads x h =
      Reads-field q (step p) 8 _ refl (int64_ReadsBack q x.commit_position h.commit_position) refl (
        Reads-field q (step p) 16 _ refl (int64_ReadsBack q x.prepare_position h.prepare_position)
          refl
          (Reads-each q (step p) 26 (ResolvedEvent.Nests p) [] x.events
            (λ m. p.write_message (ResolvedEvent.get_size p m) (ResolvedEvent.write_message p m))
            (λ v. record x {
              events = v;
              next_commit_position = pos 0;
              next_prepare_position = pos 0;
              result = ReadAllResult.success;
              error = none;
            })
            refl (ResolvedEvent.nested_ReadsBack q) h.events (λ l. refl)
            (Reads-field q (step p) 32 _ refl
              (int64_ReadsBack q x.next_commit_position h.next_commit_position) refl
              (Reads-field q (step p) 40 _ refl
                (int64_ReadsBack q x.next_prepare_position h.next_prepare_position) refl
                (Reads-unless q (step p) 48 (is_read_all_success x.result)
                  (λ v. record x { result = v; error = none }) refl
                  (enum_ReadsBack q ReadAllResult read_all_result_from_i32 read_all_result_to_i32
                    read_all_result_inverse x.result tt)
                  refl
                  (λ e.
                    ap (λ v. record x { result = v; error = none }) (read_all_default x.result e))
                  (Reads-opt q (step p) 58 IsText x.error (λ m. p.write_string m)
                    (λ v. record x { error = v }) refl (string_ReadsBack q) h.error refl
                    (Reads-nil q (step p) x)))))))

  -- A valid message is read back from what was written, and nothing is left.
  pub from_reader-write_message :
      (x : ReadAllEventsCompleted) → IsValid p x → from_reader p (write_message p x) ≡ (ok x, [])
  unfolding from_reader
  from_reader-write_message x h = (write_message-Reads x h).at _ (omega arith)

  step-IsForward : (m : ReadAllEventsCompleted) (t : ℕ) → IsForward (step p m t)
  unfolding step
  step-IsForward m t =
      match_tag-IsForward t (arms p m) _
        (set-IsForward _ (q.int64_forward)
          & set-IsForward _ (q.int64_forward)
          & set-IsForward _ (
              q.message_forward ResolvedEvent (ResolvedEvent.from_reader p)
                (ResolvedEvent.from_reader-IsForward q))
          & set-IsForward _ (q.int64_forward)
          & set-IsForward _ (q.int64_forward)
          & set-IsForward _ (q.enum_forward ReadAllResult read_all_result_from_i32)
          & set-IsForward _ (q.string_forward)
          & tt)
        (>>=-IsForward (p.read_unknown t) (λ _. pure m) (q.unknown_forward t)
          (λ _. pure-IsForward m))

  -- The reader ends on all bytes, and what it leaves is no longer than what it was given.
  pub from_reader-IsForward : IsForward (from_reader p)
  unfolding from_reader
  from_reader-IsForward = read_fields-IsForward q (step p) step-IsForward default
