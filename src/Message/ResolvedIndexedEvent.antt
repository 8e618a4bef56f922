-- ===== src/Message/ResolvedIndexedEvent.antt =====
-- `ResolvedIndexedEvent` of src/raw/client_messages.rs: the message, its reader, its
-- size and its writer, and the lemmas on them.
use eventstore_tcp.Prelude.{
  ◌&◌, ℕ, suc, Bytes, ok, List, [], ◌∷◌, ◌+◌, ◌^◌, ◌<◌, ◌≡◌, refl, Option, none, some, length,
  arith,
}
use eventstore_tcp.Protobuf.{
  Rd, Protobuf, ◌>>=◌, ◌>>◌, pure, read_fields, match_tag, write_all, write_opt, size_opt,
}
use eventstore_tcp.Protobuf.Laws.{IsProtobuf, IsForward}
use eventstore_tcp.Protobuf.Loop.{
  Reads, Reads-nil, Reads-field, Reads-opt, ReadsBack, OptAll, message_ReadsBack,
}
use eventstore_tcp.Protobuf.Forward.{
  read_fields-IsForward, match_tag-IsForward, set-IsForward, >>=-IsForward, pure-IsForward,
}
use eventstore_tcp.Protobuf.Sizes.{length_field, length-write_all, length-write_opt}
use eventstore_tcp.Message.EventRecord
use eventstore_tcp.Message.EventRecord.{EventRecord}

pub record ResolvedIndexedEvent : Type 0 where
  pub event : EventRecord
  pub link : Option EventRecord

-- `Default::default()`
abbrev pub default : ResolvedIndexedEvent
default = record { event = EventRecord.default; link = none }

module _ (p : Protobuf) where
  -- The arms of the `match` on a tag.
  arms : ResolvedIndexedEvent → List (ℕ × Rd ResolvedIndexedEvent)
  arms msg =
      (
        10,
        (do
          v ← p.read_message EventRecord (EventRecord.from_reader p)
          pure (record msg { event = v })),
      )
      ∷ (
        18,
        (do
          v ← p.read_message EventRecord (EventRecord.from_reader p)
          pure (record msg { link = some v })),
      )
      ∷ []

  step : ResolvedIndexedEvent → ℕ → Rd ResolvedIndexedEvent
  unfolding arms
  step msg t = match_tag t (arms msg) (do p.read_unknown t; pure msg)

  unfoldable pub from_reader : Rd ResolvedIndexedEvent
  unfolding step
  from_reader r = read_fields p step (suc (length r)) default r

  unfoldable pub get_size : ResolvedIndexedEvent → ℕ
  get_size x =
      0
      + 1
      + p.sizeof_len (EventRecord.get_size p x.event)
      + size_opt x.link (λ m. 1 + p.sizeof_len (EventRecord.get_size p m))

  -- The writes, one for each field.
  writes : ResolvedIndexedEvent → List Bytes
  writes x =
      p.write_with_tag 10
        (p.write_message (EventRecord.get_size p x.event) (EventRecord.write_message p x.event))
      ∷ write_opt x.link (λ m.
        p.write_with_tag 18
          (p.write_message (EventRecord.get_size p m) (EventRecord.write_message p m)))
      ∷ []

  unfoldable pub write_message : ResolvedIndexedEvent → Bytes
  unfolding writes
  write_message x = write_all (writes x)

  -- What can be written and read back: texts are UTF-8, lengths fit, numbers are in range.
  pub record IsValid (x : ResolvedIndexedEvent) : Type 0 where
    pub event : EventRecord.Nests p x.event
    pub link : OptAll (EventRecord.Nests p) x.link

  -- A message that another one can hold.
  pub record Nests (x : ResolvedIndexedEvent) : Type 0 where
    pub valid : IsValid x
    pub fits : get_size x < 2 ^ 31

module _ {p : Protobuf} (q : IsProtobuf p) where
  -- `get_size` is the number of bytes that `write_message` appends.
  pub length-write_message : (x : ResolvedIndexedEvent) → length (write_message p x) ≡ get_size p x
  unfolding write_message get_size
  length-write_message x = omega (
    arith,
    length-write_all (writes p x)
        ((1 + p.sizeof_len (EventRecord.get_size p x.event))
          ∷ size_opt x.link (λ m. 1 + p.sizeof_len (EventRecord.get_size p m))
          ∷ [])
        (length_field q 10 _ _ refl
            (q.message_size _ _ (EventRecord.length-write_message q x.event))
          & length-write_opt x.link _ _ (λ m.
            length_field q 18 _ _ refl (q.message_size _ _ (EventRecord.length-write_message q m)))
          & tt),
  )

  write_message-Reads :
      (x : ResolvedIndexedEvent) → IsValid p x → Reads q (step p) default (write_message p x) x
  unfolding step write_message
  write_message-Reads x h =
      Reads-field q (step p) 10 _ refl (EventRecord.nested_ReadsBack q x.event h.event) refl (
        Reads-opt q (step p) 18 (EventRecord.Nests p) x.link
          (λ m. p.write_message (EventRecord.get_size p m) (EventRecord.write_message p m))
          (λ v. record x { link = v }) refl (EventRecord.nested_ReadsBack q) h.link refl
          (Reads-nil q (step p) x))

  -- A valid message is read back from what was written, and nothing is left.
  pub from_reader-write_message :
      (x : ResolvedIndexedEvent) → IsValid p x → from_reader p (write_message p x) ≡ (ok x, [])
  unfolding from_reader
  from_reader-write_message x h = (write_message-Reads x h).at _ (omega arith)

  pub nested_ReadsBack :
      (x : ResolvedIndexedEvent)
      → Nests p x
      → ReadsBack
          (p.read_message ResolvedIndexedEvent (from_reader p))
          (p.write_message (get_size p x) (write_message p x))
          x
  nested_ReadsBack x h =
      message_ReadsBack q ResolvedIndexedEvent (from_reader p) x (get_size p x) (write_message p x)
        h.fits (length-write_message x) (from_reader-write_message x h.valid)

  step-IsForward : (m : ResolvedIndexedEvent) (t : ℕ) → IsForward (step p m t)
  unfolding step
  step-IsForward m t =
      match_tag-IsForward t (arms p m) _
        (set-IsForward _ (
            q.message_forward EventRecord (EventRecord.from_reader p)
              (EventRecord.from_reader-IsForward q))
          & set-IsForward _ (
              q.message_forward EventRecord (EventRecord.from_reader p)
                (EventRecord.from_reader-IsForward q))
          & tt)
        (>>=-IsForward (p.read_unknown t) (λ _. pure m) (q.unknown_forward t)
          (λ _. pure-IsForward m))

  -- The reader ends on all bytes, and what it leaves is no longer than what it was given.
  pub from_reader-IsForward : IsForward (from_reader p)
  unfolding from_reader
  from_reader-IsForward = read_fields-IsForward q (step p) step-IsForward default
