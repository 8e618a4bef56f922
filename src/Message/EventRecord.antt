-- ===== src/Message/EventRecord.antt =====
-- `EventRecord` of src/raw/client_messages.rs: the message, its reader, its size and its
-- writer, and the lemmas on them.
use eventstore_tcp.Prelude.{
  ◌&◌, ℕ, suc, Bytes, Str, ok, List, [], ◌∷◌, ◌+◌, ◌^◌, ◌<◌, ◌≡◌, refl, Option, none, some, length,
  arith,
}
use eventstore_tcp.Prelude.Int.{ℤ, pos, IsI32, IsI64, as_u64}
use eventstore_tcp.Protobuf.{
  Rd, Protobuf, ◌>>=◌, ◌>>◌, pure, read_fields, match_tag, write_all, write_opt, size_opt,
}
use eventstore_tcp.Protobuf.Laws.{IsProtobuf, IsForward, Fits, IsText}
use eventstore_tcp.Protobuf.Loop.{
  Reads, Reads-nil, Reads-field, Reads-opt, ReadsBack, OptAll, message_ReadsBack,
}
use eventstore_tcp.Protobuf.Plain.{
  bytes_ReadsBack, string_ReadsBack, int32_ReadsBack, int64_ReadsBack,
}
use eventstore_tcp.Protobuf.Forward.{
  read_fields-IsForward, match_tag-IsForward, set-IsForward, >>=-IsForward, pure-IsForward,
}
use eventstore_tcp.Protobuf.Sizes.{length_field, length-write_all, length-write_opt}

pub record EventRecord : Type 0 where
  pub event_stream_id : Str
  pub event_number : ℤ
  pub event_id : Bytes
  pub event_type : Str
  pub data_content_type : ℤ
  pub metadata_content_type : ℤ
  pub data_bytes : Bytes
  pub metadata : Option Bytes
  pub created : Option ℤ
  pub created_epoch : Option ℤ

-- `Default::default()`
abbrev pub default : EventRecord
default = record {
  event_stream_id = [];
  event_number = pos 0;
  event_id = [];
  event_type = [];
  data_content_type = pos 0;
  metadata_content_type = pos 0;
  data_bytes = [];
  metadata = none;
  created = none;
  created_epoch = none;
}

module _ (p : Protobuf) where
  -- The arms of the `match` on a tag.
  arms : EventRecord → List (ℕ × Rd EventRecord)
  arms msg =
      (10, (do v ← p.read_string; pure (record msg { event_stream_id = v })))
      ∷ (16, (do v ← p.read_int32; pure (record msg { event_number = v })))
      ∷ (26, (do v ← p.read_bytes; pure (record msg { event_id = v })))
      ∷ (34, (do v ← p.read_string; pure (record msg { event_type = v })))
      ∷ (40, (do v ← p.read_int32; pure (record msg { data_content_type = v })))
      ∷ (48, (do v ← p.read_int32; pure (record msg { metadata_content_type = v })))
      ∷ (58, (do v ← p.read_bytes; pure (record msg { data_bytes = v })))
      ∷ (66, (do v ← p.read_bytes; pure (record msg { metadata = some v })))
      ∷ (72, (do v ← p.read_int64; pure (record msg { created = some v })))
      ∷ (80, (do v ← p.read_int64; pure (record msg { created_epoch = some v })))
      ∷ []

  step : EventRecord → ℕ → Rd EventRecord
  unfolding arms
  step msg t = match_tag t (arms msg) (do p.read_unknown t; pure msg)

  unfoldable pub from_reader : Rd EventRecord
  unfolding step
  from_reader r = read_fields p step (suc (length r)) default r

  unfoldable pub get_size : EventRecord → ℕ
  get_size x =
      0
      + 1
      + p.sizeof_len (length x.event_stream_id)
      + 1
      + p.sizeof_varint (as_u64 x.event_number)
      + 1
      + p.sizeof_len (length x.event_id)
      + 1
      + p.sizeof_len (length x.event_type)
      + 1
      + p.sizeof_varint (as_u64 x.data_content_type)
      + 1
      + p.sizeof_varint (as_u64 x.metadata_content_type)
      + 1
      + p.sizeof_len (length x.data_bytes)
      + size_opt x.metadata (λ m. 1 + p.sizeof_len (length m))
      + size_opt x.created (λ m. 1 + p.sizeof_varint (as_u64 m))
      + size_opt x.created_epoch (λ m. 1 + p.sizeof_varint (as_u64 m))

  -- The writes, one for each field.
  writes : EventRecord → List Bytes
  writes x =
      p.write_with_tag 10 (p.write_string x.event_stream_id)
      ∷ p.write_with_tag 16 (p.write_int32 x.event_number)
      ∷ p.write_with_tag 26 (p.write_bytes x.event_id)
      ∷ p.write_with_tag 34 (p.write_string x.event_type)
      ∷ p.write_with_tag 40 (p.write_int32 x.data_content_type)
      ∷ p.write_with_tag 48 (p.write_int32 x.metadata_content_type)
      ∷ p.write_with_tag 58 (p.write_bytes x.data_bytes)
      ∷ write_opt x.metadata (λ m. p.write_with_tag 66 (p.write_bytes m))
      ∷ write_opt x.created (λ m. p.write_with_tag 72 (p.write_int64 m))
      ∷ write_opt x.created_epoch (λ m. p.write_with_tag 80 (p.write_int64 m))
      ∷ []

  unfoldable pub write_message : EventRecord → Bytes
  unfolding writes
  write_message x = write_all (writes x)

  -- What can be written and read back: texts are UTF-8, lengths fit, numbers are in range.
  pub record IsValid (x : EventRecord) : Type 0 where
    pub event_stream_id : IsText x.event_stream_id
    pub event_number : IsI32 x.event_number
    pub event_id : Fits x.event_id
    pub event_type : IsText x.event_type
    pub data_content_type : IsI32 x.data_content_type
    pub metadata_content_type : IsI32 x.metadata_content_type
    pub data_bytes : Fits x.data_bytes
    pub metadata : OptAll Fits x.metadata
    pub created : OptAll IsI64 x.created
    pub created_epoch : OptAll IsI64 x.created_epoch

  -- A message that another one can hold.
  pub record Nests (x : EventRecord) : Type 0 where
    pub valid : IsValid x
    pub fits : get_size x < 2 ^ 31

module _ {p : Protobuf} (q : IsProtobuf p) where
  -- `get_size` is the number of bytes that `write_message` appends.
  pub length-write_message : (x : EventRecord) → length (write_message p x) ≡ get_size p x
  unfolding write_message get_size
  length-write_message x = omega (
    arith,
    length-write_all (writes p x)
        ((1 + p.sizeof_len (length x.event_stream_id))
          ∷ (1 + p.sizeof_varint (as_u64 x.event_number))
          ∷ (1 + p.sizeof_len (length x.event_id))
          ∷ (1 + p.sizeof_len (length x.event_type))
          ∷ (1 + p.sizeof_varint (as_u64 x.data_content_type))
          ∷ (1 + p.sizeof_varint (as_u64 x.metadata_content_type))
          ∷ (1 + p.sizeof_len (length x.data_bytes))
          ∷ size_opt x.metadata (λ m. 1 + p.sizeof_len (length m))
          ∷ size_opt x.created (λ m. 1 + p.sizeof_varint (as_u64 m))
          ∷ size_opt x.created_epoch (λ m. 1 + p.sizeof_varint (as_u64 m))
          ∷ [])
        (length_field q 10 _ _ refl (q.string_size x.event_stream_id)
          & length_field q 16 _ _ refl (q.int32_size x.event_number)
          & length_field q 26 _ _ refl (q.bytes_size x.event_id)
          & length_field q 34 _ _ refl (q.string_size x.event_type)
          & length_field q 40 _ _ refl (q.int32_size x.data_content_type)
          & length_field q 48 _ _ refl (q.int32_size x.metadata_content_type)
          & length_field q 58 _ _ refl (q.bytes_size x.data_bytes)
          & length-write_opt x.metadata _ _ (λ m. length_field q 66 _ _ refl (q.bytes_size m))
          & length-write_opt x.created _ _ (λ m. length_field q 72 _ _ refl (q.int64_size m))
          & length-write_opt x.created_epoch _ _ (λ m. length_field q 80 _ _ refl (q.int64_size m))
          & tt),
  )

  write_message-Reads :
      (x : EventRecord) → IsValid p x → Reads q (step p) default (write_message p x) x
  unfolding step write_message
  write_message-Reads x h =
      Reads-field q (step p) 10 _ refl (string_ReadsBack q x.event_stream_id h.event_stream_id) refl
        (Reads-field q (step p) 16 _ refl (int32_ReadsBack q x.event_number h.event_number) refl (
          Reads-field q (step p) 26 _ refl (bytes_ReadsBack q x.event_id h.event_id) refl (
            Reads-field q (step p) 34 _ refl (string_ReadsBack q x.event_type h.event_type) refl (
              Reads-field q (step p) 40 _ refl
                (int32_ReadsBack q x.data_content_type h.data_content_type) refl
                (Reads-field q (step p) 48 _ refl
                  (int32_ReadsBack q x.metadata_content_type h.metadata_content_type) refl
                  (Reads-field q (step p) 58 _ refl (bytes_ReadsBack q x.data_bytes h.data_bytes)
                    refl
                    (Reads-opt q (step p) 66 Fits x.metadata (λ m. p.write_bytes m)
                      (λ v. record x { metadata = v; created = none; created_epoch = none }) refl
                      (bytes_ReadsBack q) h.metadata refl
                      (Reads-opt q (step p) 72 IsI64 x.created (λ m. p.write_int64 m)
                        (λ v. record x { created = v; created_epoch = none }) refl
                        (int64_ReadsBack q) h.created refl
                        (Reads-opt q (step p) 80 IsI64 x.created_epoch (λ m. p.write_int64 m)
                          (λ v. record x { created_epoch = v }) refl (int64_ReadsBack q)
                          h.created_epoch refl (Reads-nil q (step p) x))))))))))

  -- A valid message is read back from what was written, and nothing is left.
  pub from_reader-write_message :
      (x : EventRecord) → IsValid p x → from_reader p (write_message p x) ≡ (ok x, [])
  unfolding from_reader
  from_reader-write_message x h = (write_message-Reads x h).at _ (omega arith)

  pub nested_ReadsBack :
      (x : EventRecord)
      → Nests p x
      → ReadsBack
          (p.read_message EventRecord (from_reader p))
          (p.write_message (get_size p x) (write_message p x))
          x
  nested_ReadsBack x h =
      message_ReadsBack q EventRecord (from_reader p) x (get_size p x) (write_message p x) h.fits
        (length-write_message x) (from_reader-write_message x h.valid)

  step-IsForward : (m : EventRecord) (t : ℕ) → IsForward (step p m t)
  unfolding step
  step-IsForward m t =
      match_tag-IsForward t (arms p m) _
        (set-IsForward _ (q.string_forward)
          & set-IsForward _ (q.int32_forward)
          & set-IsForward _ (q.bytes_forward)
          & set-IsForward _ (q.string_forward)
          & set-IsForward _ (q.int32_forward)
          & set-IsForward _ (q.int32_forward)
          & set-IsForward _ (q.bytes_forward)
          & set-IsForward _ (q.bytes_forward)
          & set-IsForward _ (q.int64_forward)
          & set-IsForward _ (q.int64_forward)
          & tt)
        (>>=-IsForward (p.read_unknown t) (λ _. pure m) (q.unknown_forward t)
          (λ _. pure-IsForward m))

  -- The reader ends on all bytes, and what it leaves is no longer than what it was given.
  pub from_reader-IsForward : IsForward (from_reader p)
  unfolding from_reader
  from_reader-IsForward = read_fields-IsForward q (step p) step-IsForward default
