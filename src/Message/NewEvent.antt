-- ===== src/Message/NewEvent.antt =====
-- `NewEvent` of src/raw/client_messages.rs: the message, its reader, its size and its
-- writer, and the lemmas on them.
use eventstore_tcp.Prelude.{
  ◌&◌, ℕ, suc, Bytes, Str, ok, List, [], ◌∷◌, ◌+◌, ◌^◌, ◌<◌, ◌≡◌, refl, Option, none, some, length,
  arith,
}
use eventstore_tcp.Prelude.Int.{ℤ, pos, IsI32, as_u64}
use eventstore_tcp.Protobuf.{
  Rd, Protobuf, ◌>>=◌, ◌>>◌, pure, read_fields, match_tag, write_all, write_opt, size_opt,
}
use eventstore_tcp.Protobuf.Laws.{IsProtobuf, IsForward, Fits, IsText}
use eventstore_tcp.Protobuf.Loop.{
  Reads, Reads-nil, Reads-field, Reads-opt, ReadsBack, OptAll, message_ReadsBack,
}
use eventstore_tcp.Protobuf.Plain.{bytes_ReadsBack, string_ReadsBack, int32_ReadsBack}
use eventstore_tcp.Protobuf.Forward.{
  read_fields-IsForward, match_tag-IsForward, set-IsForward, >>=-IsForward, pure-IsForward,
}
use eventstore_tcp.Protobuf.Sizes.{length_field, length-write_all, length-write_opt}

pub record NewEvent : Type 0 where
  pub event_id : Bytes
  pub event_type : Str
  pub data_content_type : ℤ
  pub metadata_content_type : ℤ
  pub data_bytes : Bytes
  pub metadata : Option Bytes

-- `Default::default()`
abbrev pub default : NewEvent
default = record {
  event_id = [];
  event_type = [];
  data_content_type = pos 0;
  metadata_content_type = pos 0;
  data_bytes = [];
  metadata = none;
}

module _ (p : Protobuf) where
  -- The arms of the `match` on a tag.
  arms : NewEvent → List (ℕ × Rd NewEvent)
  arms msg =
      (10, (do v ← p.read_bytes; pure (record msg { event_id = v })))
      ∷ (18, (do v ← p.read_string; pure (record msg { event_type = v })))
      ∷ (24, (do v ← p.read_int32; pure (record msg { data_content_type = v })))
      ∷ (32, (do v ← p.read_int32; pure (record msg { metadata_content_type = v })))
      ∷ (42, (do v ← p.read_bytes; pure (record msg { data_bytes = v })))
      ∷ (50, (do v ← p.read_bytes; pure (record msg { metadata = some v })))
      ∷ []

  step : NewEvent → ℕ → Rd NewEvent
  unfolding arms
  step msg t = match_tag t (arms msg) (do p.read_unknown t; pure msg)

  unfoldable pub from_reader : Rd NewEvent
  unfolding step
  from_reader r = read_fields p step (suc (length r)) default r

  unfoldable pub get_size : NewEvent → ℕ
  get_size x =
      0
      + 1
      + p.sizeof_len (length x.event_id)
      + 1
      + p.sizeof_len (length x.event_type)
      + 1
      + p.sizeof_varint (as_u64 x.data_content_type)
      + 1
      + p.sizeof_varint (as_u64 x.metadata_content_type)
      + 1
      + p.sizeof_len (length x.data_bytes)
      + size_opt x.metadata (λ m. 1 + p.sizeof_len (length m))

  -- The writes, one for each field.
  writes : NewEvent → List Bytes
  writes x =
      p.write_with_tag 10 (p.write_bytes x.event_id)
      ∷ p.write_with_tag 18 (p.write_string x.event_type)
      ∷ p.write_with_tag 24 (p.write_int32 x.data_content_type)
      ∷ p.write_with_tag 32 (p.write_int32 x.metadata_content_type)
      ∷ p.write_with_tag 42 (p.write_bytes x.data_bytes)
      ∷ write_opt x.metadata (λ m. p.write_with_tag 50 (p.write_bytes m))
      ∷ []

  unfoldable pub write_message : NewEvent → Bytes
  unfolding writes
  write_message x = write_all (writes x)

  -- What can be written and read back: texts are UTF-8, lengths fit, numbers are in range.
  pub record IsValid (x : NewEvent) : Type 0 where
    pub event_id : Fits x.event_id
    pub event_type : IsText x.event_type
    pub data_content_type : IsI32 x.data_content_type
    pub metadata_content_type : IsI32 x.metadata_content_type
    pub data_bytes : Fits x.data_bytes
    pub metadata : OptAll Fits x.metadata

  -- A message that another one can hold.
  pub record Nests (x : NewEvent) : Type 0 where
    pub valid : IsValid x
    pub fits : get_size x < 2 ^ 31

module _ {p : Protobuf} (q : IsProtobuf p) where
  -- `get_size` is the number of bytes that `write_message` appends.
  pub length-write_message : (x : NewEvent) → length (write_message p x) ≡ get_size p x
  unfolding write_message get_size
  length-write_message x = omega (
    arith,
    length-write_all (writes p x)
        ((1 + p.sizeof_len (length x.event_id))
          ∷ (1 + p.sizeof_len (length x.event_type))
          ∷ (1 + p.sizeof_varint (as_u64 x.data_content_type))
          ∷ (1 + p.sizeof_varint (as_u64 x.metadata_content_type))
          ∷ (1 + p.sizeof_len (length x.data_bytes))
          ∷ size_opt x.metadata (λ m. 1 + p.sizeof_len (length m))
          ∷ [])
        (length_field q 10 _ _ refl (q.bytes_size x.event_id)
          & length_field q 18 _ _ refl (q.string_size x.event_type)
          & length_field q 24 _ _ refl (q.int32_size x.data_content_type)
          & length_field q 32 _ _ refl (q.int32_size x.metadata_content_type)
          & length_field q 42 _ _ refl (q.bytes_size x.data_bytes)
          & length-write_opt x.metadata _ _ (λ m. length_field q 50 _ _ refl (q.bytes_size m))
          & tt),
  )

  write_message-Reads :
      (x : NewEvent) → IsValid p x → Reads q (step p) default (write_message p x) x
  unfolding step write_message
  write_message-Reads x h =
      Reads-field q (step p) 10 _ refl (bytes_ReadsBack q x.event_id h.event_id) refl (
        Reads-field q (step p) 18 _ refl (string_ReadsBack q x.event_type h.event_type) refl (
          Reads-field q (step p) 24 _ refl
            (int32_ReadsBack q x.data_content_type h.data_content_type) refl
            (Reads-field q (step p) 32 _ refl
              (int32_ReadsBack q x.metadata_content_type h.metadata_content_type) refl
              (Reads-field q (step p) 42 _ refl (bytes_ReadsBack q x.data_bytes h.data_bytes) refl (
                Reads-opt q (step p) 50 Fits x.metadata (λ m. p.write_bytes m)
                  (λ v. record x { metadata = v }) refl (bytes_ReadsBack q) h.metadata refl
                  (Reads-nil q (step p) x))))))

  -- A valid message is read back from what was written, and nothing is left.
  pub from_reader-write_message :
      (x : NewEvent) → IsValid p x → from_reader p (write_message p x) ≡ (ok x, [])
  unfolding from_reader
  from_reader-write_message x h = (write_message-Reads x h).at _ (omega arith)

  pub nested_ReadsBack :
      (x : NewEvent)
      → Nests p x
      → ReadsBack
          (p.read_message NewEvent (from_reader p))
          (p.write_message (get_size p x) (write_message p x))
          x
  nested_ReadsBack x h =
      message_ReadsBack q NewEvent (from_reader p) x (get_size p x) (write_message p x) h.fits
        (length-write_message x) (from_reader-write_message x h.valid)

  step-IsForward : (m : NewEvent) (t : ℕ) → IsForward (step p m t)
  unfolding step
  step-IsForward m t =
      match_tag-IsForward t (arms p m) _
        (set-IsForward _ (q.bytes_forward)
          & set-IsForward _ (q.string_forward)
          & set-IsForward _ (q.int32_forward)
          & set-IsForward _ (q.int32_forward)
          & set-IsForward _ (q.bytes_forward)
          & set-IsForward _ (q.bytes_forward)
          & tt)
        (>>=-IsForward (p.read_unknown t) (λ _. pure m) (q.unknown_forward t)
          (λ _. pure-IsForward m))

  -- The reader ends on all bytes, and what it leaves is no longer than what it was given.
  pub from_reader-IsForward : IsForward (from_reader p)
  unfolding from_reader
  from_reader-IsForward = read_fields-IsForward q (step p) step-IsForward default
