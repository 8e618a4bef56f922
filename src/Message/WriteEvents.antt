-- ===== src/Message/WriteEvents.antt =====
-- `WriteEvents` of src/raw/client_messages.rs: the message, its reader, its size and its
-- writer, and the lemmas on them.
use eventstore_tcp.Prelude.{
  ◌&◌, ℕ, suc, Bool, false, Bytes, Str, ok, List, [], ◌∷◌, ◌++◌, ◌+◌, ◌≡◌, refl, length, arith, All,
}
use eventstore_tcp.Prelude.Int.{ℤ, pos, IsI32, as_u64}
use eventstore_tcp.Protobuf.{
  Rd, Protobuf, ◌>>=◌, ◌>>◌, pure, read_fields, match_tag, write_all, write_each, size_each,
  bool_to_u64,
}
use eventstore_tcp.Protobuf.Laws.{IsProtobuf, IsForward, IsText}
use eventstore_tcp.Protobuf.Loop.{Reads, Reads-nil, Reads-field, Reads-each}
use eventstore_tcp.Protobuf.Plain.{string_ReadsBack, int32_ReadsBack, bool_ReadsBack}
use eventstore_tcp.Protobuf.Forward.{
  read_fields-IsForward, match_tag-IsForward, set-IsForward, >>=-IsForward, pure-IsForward,
}
use eventstore_tcp.Protobuf.Sizes.{length_field, length-write_all, length-write_each}
use eventstore_tcp.Message.NewEvent
use eventstore_tcp.Message.NewEvent.{NewEvent}

pub record WriteEvents : Type 0 where
  pub event_stream_id : Str
  pub expected_version : ℤ
  pub events : List NewEvent
  pub require_master : Bool

-- `Default::default()`
abbrev pub default : WriteEvents
default = record {
  event_stream_id = [];
  expected_version = pos 0;
  events = [];
  require_master = false;
}

module _ (p : Protobuf) where
  -- The arms of the `match` on a tag.
  arms : WriteEvents → List (ℕ × Rd WriteEvents)
  arms msg =
      (10, (do v ← p.read_string; pure (record msg { event_stream_id = v })))
      ∷ (16, (do v ← p.read_int32; pure (record msg { expected_version = v })))
      ∷ (
        26,
        (do
          v ← p.read_message NewEvent (NewEvent.from_reader p)
          pure (record msg { events = msg.events ++ v ∷ [] })),
      )
      ∷ (32, (do v ← p.read_bool; pure (record msg { require_master = v })))
      ∷ []

  step : WriteEvents → ℕ → Rd WriteEvents
  unfolding arms
  step msg t = match_tag t (arms msg) (do p.read_unknown t; pure msg)

  unfoldable pub from_reader : Rd WriteEvents
  unfolding step
  from_reader r = read_fields p step (suc (length r)) default r

  unfoldable pub get_size : WriteEvents → ℕ
  get_size x =
      0
      + 1
      + p.sizeof_len (length x.event_stream_id)
      + 1
      + p.sizeof_varint (as_u64 x.expected_version)
      + size_each x.events (λ m. 1 + p.sizeof_len (NewEvent.get_size p m))
      + 1
      + p.sizeof_varint (bool_to_u64 x.require_master)

  -- The writes, one for each field.
  writes : WriteEvents → List Bytes
  writes x =
      p.write_with_tag 10 (p.write_string x.event_stream_id)
      ∷ p.write_with_tag 16 (p.write_int32 x.expected_version)
      ∷ write_each x.events (λ m.
        p.write_with_tag 26 (p.write_message (NewEvent.get_size p m) (NewEvent.write_message p m)))
      ∷ p.write_with_tag 32 (p.write_bool x.require_master)
      ∷ []

  unfoldable pub write_message : WriteEvents → Bytes
  unfolding writes
  write_message x = write_all (writes x)

  -- What can be written and read back: texts are UTF-8, lengths fit, numbers are in range.
  pub record IsValid (x : WriteEvents) : Type 0 where
    pub event_stream_id : IsText x.event_stream_id
    pub expected_version : IsI32 x.expected_version
    pub events : All (NewEvent.Nests p) x.events

module _ {p : Protobuf} (q : IsProtobuf p) where
  -- `get_size` is the number of bytes that `write_message` appends.
  pub length-write_message : (x : WriteEvents) → length (write_message p x) ≡ get_size p x
  unfolding write_message get_size
  length-write_message x = omega (
    arith,
    length-write_all (writes p x)
        ((1 + p.sizeof_len (length x.event_stream_id))
          ∷ (1 + p.sizeof_varint (as_u64 x.expected_version))
          ∷ size_each x.events (λ m. 1 + p.sizeof_len (NewEvent.get_size p m))
          ∷ (1 + p.sizeof_varint (bool_to_u64 x.require_master))
          ∷ [])
        (length_field q 10 _ _ refl (q.string_size x.event_stream_id)
          & length_field q 16 _ _ refl (q.int32_size x.expected_version)
          & length-write_each x.events _ _ (λ m.
            length_field q 26 _ _ refl (q.message_size _ _ (NewEvent.length-write_message q m)))
          & length_field q 32 _ _ refl (q.bool_size x.require_master)
          & tt),
  )

  write_message-Reads :
      (x : WriteEvents) → IsValid p x → Reads q (step p) default (write_message p x) x
  unfolding step write_message
  write_message-Reads x h =
      Reads-field q (step p) 10 _ refl (string_ReadsBack q x.event_stream_id h.event_stream_id) refl
        (Reads-field q (step p) 16 _ refl (int32_ReadsBack q x.expected_version h.expected_version)
          refl
          (Reads-each q (step p) 26 (NewEvent.Nests p) [] x.events
            (λ m. p.write_message (NewEvent.get_size p m) (NewEvent.write_message p m))
            (λ v. record x { events = v; require_master = false }) refl
            (NewEvent.nested_ReadsBack q) h.events (λ l. refl)
            (Reads-field q (step p) 32 _ refl (bool_ReadsBack q x.require_master tt) refl
              (Reads-nil q (step p) x))))

  -- A valid message is read back from what was written, and nothing is left.
  pub from_reader-write_message :
      (x : WriteEvents) → IsValid p x → from_reader p (write_message p x) ≡ (ok x, [])
  unfolding from_reader
  from_reader-write_message x h = (write_message-Reads x h).at _ (omega arith)

  step-IsForward : (m : WriteEvents) (t : ℕ) → IsForward (step p m t)
  unfolding step
  step-IsForward m t =
      match_tag-IsForward t (arms p m) _
        (set-IsForward _ (q.string_forward)
          & set-IsForward _ (q.int32_forward)
          & set-IsForward _ (
              q.message_forward NewEvent (NewEvent.from_reader p)
                (NewEvent.from_reader-IsForward q))
          & set-IsForward _ (q.bool_forward)
          & tt)
        (>>=-IsForward (p.read_unknown t) (λ _. pure m) (q.unknown_forward t)
          (λ _. pure-IsForward m))

  -- The reader ends on all bytes, and what it leaves is no longer than what it was given.
  pub from_reader-IsForward : IsForward (from_reader p)
  unfolding from_reader
  from_reader-IsForward = read_fields-IsForward q (step p) step-IsForward default
