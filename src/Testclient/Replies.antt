-- ===== src/Testclient/Replies.antt =====
-- What the commands of testclient/src make of a reply.
use eventstore_tcp.Prelude.{
  ℕ, Bool, Bytes, Option, none, some, ok, [], ◌∷◌, ◌++◌, All, ◌+◌, ◌-◌, ◌*◌, ◌≡◌, ◌↔◌, refl, sym,
  arith, ap, append_assoc, append-nil, ltb, if◌then◌else◌, IsByte,
}
use eventstore_tcp.Message.Enums.{OperationResult}
use eventstore_tcp.Message.DeleteStreamCompleted.{DeleteStreamCompleted}
use eventstore_tcp.Prelude.Hex.{hex_byte}
use eventstore_tcp.Message.EventRecord.{EventRecord}
use eventstore_tcp.Raw.{RawMessage}
use eventstore_tcp.Testclient.Output.{Printing, Written, hex, format_event, write_hex}
use eventstore_tcp.Testclient.Commands.{delete_reply, delete_result}

-- The text of `{:02x}` read back: a digit of lower case.
abbrev digit_value : ℕ → ℕ
digit_value d = if ltb d 58 then d - 48 else d - 87

abbrev pub unhex : Bytes → Bytes
unhex [] = []
unhex (a ∷ []) = []
unhex (a ∷ b ∷ s) = (16 * digit_value a + digit_value b) ∷ unhex s

unhex-hex_byte : (b : ℕ) (s : Bytes) → IsByte b → unhex (hex_byte b ++ s) ≡ b ∷ unhex s
unfolding hex_byte
unhex-hex_byte b s h = ground arith

hex_text : Bytes → Bytes
hex_text [] = []
hex_text (b ∷ bs) = hex_byte b ++ hex_text bs

write_hex-out :
    (bs : Bytes) (w : Written) → write_hex bs w ≡ record w { out = w.out ++ hex_text bs }
unfolding write_hex hex_text
write_hex-out [] w = rw append-nil
write_hex-out (b ∷ bs) w = rw (write_hex-out bs, append_assoc)

unhex-hex_text : (bs : Bytes) → All IsByte bs → unhex (hex_text bs) ≡ bs
unfolding hex_text
unhex-hex_text [] h = refl
unhex-hex_text (b ∷ bs) h = rw (unhex-hex_byte b (hex_text bs) h.0, unhex-hex_text bs h.1)

-- In the mode hex, an event without metadata is printed as a line that is read back as the bytes of its
-- data, and nothing is printed as an error.
pub unhex-format_event :
    {V J : Type 0} (pr : Printing V J) (verbose : Bool) (x : EventRecord) (w : Written)
    → x.metadata ≡ none
    → All IsByte x.data_bytes
    → (line : Bytes) × (format_event pr hex verbose x w
        ≡ record w { out = w.out ++ (line ++ (10 ∷ [])) })
      × (unhex line ≡ x.data_bytes)
unfolding format_event
unhex-format_event pr verbose x w no_metadata h = (
  hex_text x.data_bytes,
  rw (no_metadata, write_hex-out x.data_bytes w, append_assoc),
  unhex-hex_text x.data_bytes h,
)

delete_result_iff :
    (x body : DeleteStreamCompleted) (o : Option OperationResult)
    → (delete_result x o ≡ ok body) ↔ ((x ≡ body) × (o ≡ some OperationResult.success))
unfolding delete_result
delete_result_iff x body none = (λ e. cc, λ h. let k = h.1 in cc)
delete_result_iff x body (some OperationResult.success) =
    (λ e. (let same : x ≡ body = cc in same, refl), λ h. let same = h.0 in cc)
delete_result_iff x body (some _) = (λ e. cc, λ h. let k = h.1 in cc)

-- A deletion succeeds on exactly the reply of a completed deletion whose result is a success.
pub delete_reply_iff :
    (msg : RawMessage) (body : DeleteStreamCompleted)
    → (delete_reply msg ≡ ok body) ↔ (
        (msg ≡ RawMessage.delete_stream_completed body)
        × (body.result ≡ some OperationResult.success))
unfolding delete_reply
delete_reply_iff (RawMessage.delete_stream_completed x) body = (
  λ e.
      let (same, got) = (delete_result_iff x body x.result).0 e in
      (ap RawMessage.delete_stream_completed same, rw (sym same) got),
  λ h.
      let message = h.0 in
      let same : x ≡ body = cc in (delete_result_iff x body x.result).1 (same, rw same h.1),
)
delete_reply_iff _ body = (λ e. cc, λ h. let k = h.0 in cc)
