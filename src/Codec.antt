-- ===== src/Codec.antt =====
-- src/package.rs and src/codec.rs: packages and their framing. A frame is a length prefix of four
-- bytes, a discriminator, the flags, the correlation id, the credentials if there are any, and the
-- message.
pub mod Frame
pub mod RoundTrip
pub mod Encoder
pub mod Buffer
pub mod Ends
pub mod Refusals
pub mod Sender
pub mod Pending
pub mod Link
use eventstore_tcp.Prelude.{
  ℕ, Bool, true, false, Bytes, Option, none, some, Outcome, ok, err, panic, ◌>>=◌, ◌>>◌, assert,
  unwrap, is_some, [], ◌++◌, ◌+◌, ◌-◌, ◌%◌, ◌^◌, length, take, drop, ltb, if◌then◌else◌,
}
use eventstore_tcp.Errors.{IoError, invalid_data, length_is_too_small, other, invalid_flags}
use eventstore_tcp.Protobuf.{Protobuf}
use eventstore_tcp.Crates.{Crates, flag_none, flag_authenticated}
use eventstore_tcp.Auth
use eventstore_tcp.Auth.{UsernamePassword, read_exact}
use eventstore_tcp.Raw
use eventstore_tcp.Raw.{RawMessage}

pub record Package (Uuid : Type 0) : Type 0 where
  pub authentication : Option UsernamePassword
  pub correlation_id : Uuid
  pub message : RawMessage

-- `u32 - u32`: with overflow checks a result below 0 panics, without them it wraps around.
unfoldable pub sub_u32 : {E : Type 0} → Bool → ℕ → ℕ → Outcome E ℕ
sub_u32 checks a b = if ltb a b then (if checks then panic else ok (a + 2 ^ 32 - b)) else ok (a - b)

-- `match TcpFlags::from_bits(flags) { … None => bail!(…) }`
checked_flags : ℕ → Option ℕ → Outcome IoError ℕ
checked_flags flags none = err (other (invalid_flags flags))
checked_flags flags (some f) = ok f

module _ {Uuid Buf : Type 0} (c : Crates Uuid Buf) where
  -- `if flags.contains(FLAG_AUTHENTICATED) { Some(…) } else { None }`, and what is left to read
  credentials : Bool → Bytes → Outcome IoError (Option UsernamePassword × Bytes)
  credentials true r = do (a, r') ← Auth.decode c r; ok (some a, r')
  credentials false r = ok (none, r)

  -- The discriminator, the correlation id, the credentials, and the position of the cursor.
  unfoldable pub decode_header : Bytes → Outcome IoError (ℕ × Uuid × Option UsernamePassword × ℕ)
  unfolding checked_flags credentials
  decode_header buf = do
    (discriminator, r1) ← c.read_u8 buf
    (bits, r2) ← c.read_u8 r1
    flags ← checked_flags bits (c.from_bits bits)
    (uuid_bytes, r3) ← read_exact 16 r2
    correlation_id ← unwrap (c.uuid_from_bytes uuid_bytes)
    (authentication, r4) ← credentials (c.contains flags flag_authenticated) r3
    ok (discriminator, correlation_id, authentication, length buf - length r4)

  -- `decoded_frame.and_then(…)`: the buffer loses the frame only if it was decoded.
  take_frame :
      ℕ
      → Buf
      → Outcome IoError (Uuid × Option UsernamePassword × RawMessage)
      → Outcome IoError (Option (Package Uuid)) × Buf
  take_frame n buf (ok (id, a, m)) = (
    ok (some (record { authentication = a; correlation_id = id; message = m })),
    c.split_to n buf,
  )
  take_frame n buf (err e) = (err e, buf)
  take_frame n buf panic = (panic, buf)
  take_frame n buf Outcome.stuck = (Outcome.stuck, buf)

  -- What stands in a frame for the credentials: `expect` and `assert!` of `encode_parts`.
  unfoldable pub credential_bytes : Bool → Option UsernamePassword → Outcome IoError Bytes
  credential_bytes true a = do x ← unwrap a; ok (Auth.encode c x).0
  credential_bytes false a = do assert (if is_some a then false else true); ok []

  -- The flags of a package.
  unfoldable pub flags_of : Option UsernamePassword → ℕ
  flags_of a = if is_some a then c.insert flag_none flag_authenticated else flag_none

module _ {Uuid Buf : Type 0} (c : Crates Uuid Buf) (p : Protobuf) where
  unfoldable pub decode_body : Bytes → Outcome IoError (Uuid × Option UsernamePassword × RawMessage)
  decode_body buf = do
    (d, id, a, position) ← decode_header c buf
    message ← Raw.decode p d (drop position buf)
    ok (id, a, message)

  -- `decode_inner` behind the read of the length prefix.
  decode_frame : Buf → Outcome IoError (ℕ × Bytes) → Outcome IoError (Option (Package Uuid)) × Buf
  unfolding take_frame
  decode_frame buf (ok (len, _)) =
      if ltb len 18
      then (err (invalid_data length_is_too_small), buf)
      else if ltb (length (c.view buf)) (len + 4)
      then (ok none, buf)
      else take_frame c (4 + len) buf (decode_body (take len (drop 4 (c.view buf))))
  decode_frame buf (err e) = (err e, buf)
  decode_frame buf panic = (panic, buf)
  decode_frame buf Outcome.stuck = (Outcome.stuck, buf)

  -- `decode_inner`, and `Decoder::decode`, which only converts the error to itself.
  unfoldable pub decode : Buf → Outcome IoError (Option (Package Uuid)) × Buf
  unfolding decode_frame
  decode buf =
      if ltb (length (c.view buf)) (4 + 1 + 1 + 16)
      then (ok none, buf)
      else decode_frame buf (c.read_u32 (take 4 (c.view buf)))

  -- A cursor at its end is the bytes written so far; the last step writes over the first four.
  unfoldable pub encode_parts :
      Bool → Uuid → Option UsernamePassword → RawMessage → Outcome IoError Bytes
  encode_parts checks correlation_id authentication raw = do
    let flags = flags_of c authentication
    let cursor =
        c.write_u32 0
        ++ (c.write_u8 (Raw.discriminator raw)
            ++ (c.write_u8 (c.bits flags) ++ c.as_bytes correlation_id))
    written ← credential_bytes c (c.contains flags flag_authenticated) authentication
    let whole = cursor ++ (written ++ Raw.encode p raw)
    len ← sub_u32 checks (length whole % 2 ^ 32) 4
    ok (c.write_u32 len ++ drop 4 whole)

  -- `Encoder::encode`: the buffer with the frame put behind what it holds.
  unfoldable pub encode : Bool → Package Uuid → Buf → Outcome IoError Buf
  encode checks msg buf = do
    tmp ← encode_parts checks msg.correlation_id msg.authentication msg.message
    c.put_slice tmp buf
