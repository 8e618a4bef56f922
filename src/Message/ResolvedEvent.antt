-- ===== src/Message/ResolvedEvent.antt =====
-- `ResolvedEvent` of src/raw/client_messages.rs: the message, its reader, its size and its
-- writer, and the lemmas on them.
use eventstore_tcp.Prelude.{
  ◌&◌, ℕ, suc, Bytes, ok, List, [], ◌∷◌, ◌+◌, ◌^◌, ◌<◌, ◌≡◌, refl, Option, none, some, length,
  arith,
}
use eventstore_tcp.Prelude.Int.{ℤ, pos, IsI64, as_u64}
use eventstore_tcp.Protobuf.{
  Rd, Protobuf, ◌>>=◌, ◌>>◌, pure, read_fields, match_tag, write_all, write_opt, size_opt,
}
use eventstore_tcp.Protobuf.Laws.{IsProtobuf, IsForward}
use eventstore_tcp.Protobuf.Loop.{
  Reads, Reads-nil, Reads-field, Reads-opt, ReadsBack, OptAll, message_ReadsBack,
}
use eventstore_tcp.Protobuf.Plain.{int64_ReadsBack}
use eventstore_tcp.Protobuf.Forward.{
  read_fields-IsForward, match_tag-IsForward, set-IsForward, >>=-IsForward, pure-IsForward,
}
use eventstore_tcp.Protobuf.Sizes.{length_field, length-write_all, length-write_opt}
use eventstore_tcp.Message.EventRecord
use eventstore_tcp.Message.EventRecord.{EventRecord}

pub record ResolvedEvent : Type 0 where
  pub event : EventRecord
  pub link : Option EventRecord
  pub commit_position : ℤ
  pub prepare_position : ℤ

-- `Default::default()`
abbrev pub default : ResolvedEvent
default = record {
  event = EventRecord.default;
  link = none;
  commit_position = pos 0;
  prepare_position = pos 0;
}

module _ (p : Protobuf) where
  -- The arms of the `match` on a tag.
  arms : ResolvedEvent → List (ℕ × Rd ResolvedEvent)
  arms msg =
      (
        10,
        (do
          v ← p.read_message EventRecord (EventRecord.from_reader p)
          pure (record msg { event = v })),
      )
      ∷ (
        18,
        (do
          v ← p.read_message EventRecord (EventRecord.from_reader p)
          pure (record msg { link = some v })),
      )
      ∷ (24, (do v ← p.read_int64; pure (record msg { commit_position = v })))
      ∷ (32, (do v ← p.read_int64; pure (record msg { prepare_position = v })))
      ∷ []

  step : ResolvedEvent → ℕ → Rd ResolvedEvent
  unfolding arms
  step msg t = match_tag t (arms msg) (do p.read_unknown t; pure msg)

  unfoldable pub from_reader : Rd ResolvedEvent
  unfolding step
  from_reader r = read_fields p step (suc (length r)) default r

  unfoldable pub get_size : ResolvedEvent → ℕ
  get_size x =
      0
      + 1
      + p.sizeof_len (EventRecord.get_size p x.event)
      + size_opt x.link (λ m. 1 + p.sizeof_len (EventRecord.get_size p m))
      + 1
      + p.sizeof_varint (as_u64 x.commit_position)
      + 1
      + p.sizeof_varint (as_u64 x.prepare_position)

  -- The writes, one for each field.
  writes : ResolvedEvent → List Bytes
  writes x =
      p.write_with_tag 10
        (p.write_message (EventRecord.get_size p x.event) (EventRecord.write_message p x.event))
      ∷ write_opt x.link (λ m.
        p.write_with_tag 18
          (p.write_message (EventRecord.get_size p m) (EventRecord.write_message p m)))
      ∷ p.write_with_tag 24 (p.write_int64 x.commit_position)
      ∷ p.write_with_tag 32 (p.write_int64 x.prepare_position)
      ∷ []

  unfoldable pub write_message : ResolvedEvent → Bytes
  unfolding writes
  write_message x = write_all (writes x)

  -- What can be written and read back: texts are UTF-8, lengths fit, numbers are in range.
  pub record IsValid (x : ResolvedEvent) : Type 0 where
    pub event : EventRecord.Nests p x.event
    pub link : OptAll (EventRecord.Nests p) x.link
    pub commit_position : IsI64 x.commit_position
    pub prepare_position : IsI64 x.prepare_position

  -- A message that another one can hold.
  pub record Nests (x : ResolvedEvent) : Type 0 where
    pub valid : IsValid x
    pub fits : get_size x < 2 ^ 31

module _ {p : Protobuf} (q : IsProtobuf p) where
  -- `get_size` is the number of bytes that `write_message` appends.
  pub length-write_message : (x : ResolvedEvent) → length (write_message p x) ≡ get_size p x
  unfolding write_message get_size
  length-write_message x = omega (
    arith,
    length-write_all (writes p x)
        ((1 + p.sizeof_len (EventRecord.get_size p x.event))
          ∷ size_opt x.link (λ m. 1 + p.sizeof_len (EventRecord.get_size p m))
          ∷ (1 + p.sizeof_varint (as_u64 x.commit_position))
          ∷ (1 + p.sizeof_varint (as_u64 x.prepare_position))
          ∷ [])
        (length_field q 10 _ _ refl
            (q.message_size _ _ (EventRecord.length-write_message q x.event))
          & length-write_opt x.link _ _ (λ m.
            length_field q 18 _ _ refl (q.message_size _ _ (EventRecord.length-write_message q m)))
          & length_field q 24 _ _ refl (q.int64_size x.commit_position)
          & length_field q 32 _ _ refl (q.int64_size x.prepare_position)
          & tt),
  )

  write_message-Reads :
      (x : ResolvedEvent) → IsValid p x → Reads q (step p) default (write_message p x) x
  unfolding step write_message
  write_message-Reads x h =
      Reads-field q (step p) 10 _ refl (EventRecord.nested_ReadsBack q x.event h.event) refl (
        Reads-opt q (step p) 18 (EventRecord.Nests p) x.link
          (λ m. p.write_message (EventRecord.get_size p m) (EventRecord.write_message p m))
          (λ v. record x { link = v; commit_position = pos 0; prepare_position = pos 0 }) refl
          (EventRecord.nested_ReadsBack q) h.link refl
          (Reads-field q (step p) 24 _ refl (int64_ReadsBack q x.commit_position h.commit_position)
            refl
            (Reads-field q (step p) 32 _ refl
              (int64_ReadsBack q x.prepare_position h.prepare_position) refl
              (Reads-nil q (step p) x))))

  -- A valid message is read back from what was written, and nothing is left.
  pub from_reader-write_message :
      (x : ResolvedEvent) → IsValid p x → from_reader p (write_message p x) ≡ (ok x, [])
  unfolding from_reader
  from_reader-write_message x h = (write_message-Reads x h).at _ (omega arith)

  pub nested_ReadsBack :
      (x : ResolvedEvent)
      → Nests p x
      → ReadsBack
          (p.read_message ResolvedEvent (from_reader p))
          (p.write_message (get_size p x) (write_message p x))
          x
  nested_ReadsBack x h =
      message_ReadsBack q ResolvedEvent (from_reader p) x (get_size p x) (write_message p x) h.fits
        (length-write_message x) (from_reader-write_message x h.valid)

  step-IsForward : (m : ResolvedEvent) (t : ℕ) → IsForward (step p m t)
  unfolding step
  step-IsForward m t =
      match_tag-IsForward t (arms p m) _
        (set-IsForward _ (
            q.message_forward EventRecord (EventRecord.from_reader p)
              (EventRecord.from_reader-IsForward q))
          & set-IsForward _ (
              q.message_forward EventRecord (EventRecord.from_reader p)
                (EventRecord.from_reader-IsForward q))
          & set-IsForward _ (q.int64_forward)
          & set-IsForward _ (q.int64_forward)
          & tt)
        (>>=-IsForward (p.read_unknown t) (λ _. pure m) (q.unknown_forward t)
          (λ _. pure-IsForward m))

  -- The reader ends on all bytes, and what it leaves is no longer than what it was given.
  pub from_reader-IsForward : IsForward (from_reader p)
  unfolding from_reader
  from_reader-IsForward = read_fields-IsForward q (step p) step-IsForward default
