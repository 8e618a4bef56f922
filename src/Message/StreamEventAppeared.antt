-- ===== src/Message/StreamEventAppeared.antt =====
-- `StreamEventAppeared` of src/raw/client_messages.rs: the message, its reader, its size and its
-- writer, and the lemmas on them.
use eventstore_tcp.Prelude.{ℕ, suc, Bytes, ok, List, [], ◌∷◌, ◌+◌, ◌≡◌, refl, length, arith}
use eventstore_tcp.Protobuf.{Rd, Protobuf, ◌>>=◌, ◌>>◌, pure, read_fields, match_tag, write_all}
use eventstore_tcp.Protobuf.Laws.{IsProtobuf, IsForward}
use eventstore_tcp.Protobuf.Loop.{Reads, Reads-nil, Reads-field}
use eventstore_tcp.Protobuf.Forward.{
  read_fields-IsForward, match_tag-IsForward, set-IsForward, >>=-IsForward, pure-IsForward,
}
use eventstore_tcp.Protobuf.Sizes.{length_field, length-write_all}
use eventstore_tcp.Message.ResolvedEvent
use eventstore_tcp.Message.ResolvedEvent.{ResolvedEvent}

pub record StreamEventAppeared : Type 0 where
  pub event : ResolvedEvent

-- `Default::default()`
abbrev pub default : StreamEventAppeared
default = record { event = ResolvedEvent.default }

module _ (p : Protobuf) where
  -- The arms of the `match` on a tag.
  arms : StreamEventAppeared → List (ℕ × Rd StreamEventAppeared)
  arms msg =
      (
        10,
        (do
          v ← p.read_message ResolvedEvent (ResolvedEvent.from_reader p)
          pure (record msg { event = v })),
      )
      ∷ []

  step : StreamEventAppeared → ℕ → Rd StreamEventAppeared
  unfolding arms
  step msg t = match_tag t (arms msg) (do p.read_unknown t; pure msg)

  unfoldable pub from_reader : Rd StreamEventAppeared
  unfolding step
  from_reader r = read_fields p step (suc (length r)) default r

  unfoldable pub get_size : StreamEventAppeared → ℕ
  get_size x = 0 + 1 + p.sizeof_len (ResolvedEvent.get_size p x.event)

  -- The writes, one for each field.
  writes : StreamEventAppeared → List Bytes
  writes x =
      p.write_with_tag 10
        (p.write_message (ResolvedEvent.get_size p x.event) (ResolvedEvent.write_message p x.event))
      ∷ []

  unfoldable pub write_message : StreamEventAppeared → Bytes
  unfolding writes
  write_message x = write_all (writes x)

  -- What can be written and read back: texts are UTF-8, lengths fit, numbers are in range.
  pub record IsValid (x : StreamEventAppeared) : Type 0 where
    pub event : ResolvedEvent.Nests p x.event

module _ {p : Protobuf} (q : IsProtobuf p) where
  -- `get_size` is the number of bytes that `write_message` appends.
  pub length-write_message : (x : StreamEventAppeared) → length (write_message p x) ≡ get_size p x
  unfolding write_message get_size
  length-write_message x = omega (
    arith,
    length-write_all (writes p x) ((1 + p.sizeof_len (ResolvedEvent.get_size p x.event)) ∷ []) (
      length_field q 10 _ _ refl
          (q.message_size _ _ (ResolvedEvent.length-write_message q x.event)),
      (tt),
    ),
  )

  write_message-Reads :
      (x : StreamEventAppeared) → IsValid p x → Reads q (step p) default (write_message p x) x
  unfolding step write_message
  write_message-Reads x h =
      Reads-field q (step p) 10 _ refl (ResolvedEvent.nested_ReadsBack q x.event h.event) refl
        (Reads-nil q (step p) x)

  -- A valid message is read back from what was written, and nothing is left.
  pub from_reader-write_message :
      (x : StreamEventAppeared) → IsValid p x → from_reader p (write_message p x) ≡ (ok x, [])
  unfolding from_reader
  from_reader-write_message x h = (write_message-Reads x h).at _ (omega arith)

  step-IsForward : (m : StreamEventAppeared) (t : ℕ) → IsForward (step p m t)
  unfolding step
  step-IsForward m t =
      match_tag-IsForward t (arms p m) _
        (
          set-IsForward _ (
              q.message_forward ResolvedEvent (ResolvedEvent.from_reader p)
                (ResolvedEvent.from_reader-IsForward q)),
          (tt),
        )
        (>>=-IsForward (p.read_unknown t) (λ _. pure m) (q.unknown_forward t)
          (λ _. pure-IsForward m))

  -- The reader ends on all bytes, and what it leaves is no longer than what it was given.
  pub from_reader-IsForward : IsForward (from_reader p)
  unfolding from_reader
  from_reader-IsForward = read_fields-IsForward q (step p) step-IsForward default
