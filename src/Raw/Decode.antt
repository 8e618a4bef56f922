-- ===== src/Raw/Decode.antt =====
-- What `RawMessage::decode` returns on any discriminator and any bytes.
use eventstore_tcp.Prelude.{
  ◌&◌, ℕ, Bool, false, true, Bytes, List, [], ◌∷◌, Outcome, ok, err, panic, stuck, ◌≡◌, ◌≢◌, refl,
  ◌==◌, All, ◌∙◌, ap, ◌>>=◌, >>=-eq-ok, Bool-cases, inl, inr, ==_iff,
}
use eventstore_tcp.Errors.{IoError}
use eventstore_tcp.Protobuf.{Rd, Protobuf, match_tag}
use eventstore_tcp.Protobuf.Laws.{IsProtobuf, IsForward}
use eventstore_tcp.Raw.{
  RawMessage, heartbeat_request, heartbeat_response, ping, pong, write_events,
  write_events_completed, delete_stream, delete_stream_completed, read_event, read_event_completed,
  read_stream_events, read_stream_events_completed, read_all_events, read_all_events_completed,
  bad_request, not_handled, authenticate, authenticated, not_authenticated, unsupported, forward,
  backward, decode_body, decoders, decoded, finish, decode, discriminator,
}
use eventstore_tcp.Message.WriteEvents
use eventstore_tcp.Message.WriteEvents.{WriteEvents}
use eventstore_tcp.Message.WriteEventsCompleted
use eventstore_tcp.Message.WriteEventsCompleted.{WriteEventsCompleted}
use eventstore_tcp.Message.DeleteStream
use eventstore_tcp.Message.DeleteStream.{DeleteStream}
use eventstore_tcp.Message.DeleteStreamCompleted
use eventstore_tcp.Message.DeleteStreamCompleted.{DeleteStreamCompleted}
use eventstore_tcp.Message.ReadEvent
use eventstore_tcp.Message.ReadEvent.{ReadEvent}
use eventstore_tcp.Message.ReadEventCompleted
use eventstore_tcp.Message.ReadEventCompleted.{ReadEventCompleted}
use eventstore_tcp.Message.ReadStreamEvents
use eventstore_tcp.Message.ReadStreamEvents.{ReadStreamEvents}
use eventstore_tcp.Message.ReadStreamEventsCompleted
use eventstore_tcp.Message.ReadStreamEventsCompleted.{ReadStreamEventsCompleted}
use eventstore_tcp.Message.ReadAllEvents
use eventstore_tcp.Message.ReadAllEvents.{ReadAllEvents}
use eventstore_tcp.Message.ReadAllEventsCompleted
use eventstore_tcp.Message.ReadAllEventsCompleted.{ReadAllEventsCompleted}
use eventstore_tcp.Message.NotHandled
use eventstore_tcp.Message.NotHandled.{NotHandled}

-- What holds of every arm and of the catch-all holds of the match.
match_tag_all :
    {A : Type 0} (P : ℕ → A → Type 0) (t : ℕ) (arms : List (ℕ × A)) (other : A)
    → All (λ arm. P arm.0 arm.1) arms
    → P t other
    → P t (match_tag t arms other)
match_tag_all P t [] other h k = k
match_tag_all P t ((n, arm) ∷ arms) other h k = elim (Bool-cases (t == n)) [
  | inl e ↦ rw (e, (==_iff t n).0 e) h.0
  | inr e ↦ rw e (match_tag_all P t arms other h.1 k)
]

abbrev Carries : ℕ → Outcome IoError RawMessage → Type 0
Carries d r = (m : RawMessage) → r ≡ ok m → discriminator m ≡ d

constant : (d : ℕ) (x : RawMessage) → discriminator x ≡ d → Carries d (ok x)
constant d x h m e = ap discriminator same ∙ h
  where
    same : m ≡ x
    same = cc

module _ (p : Protobuf) where
  carries :
      (d : ℕ) (M : Type 0) (rd : Rd M) (buf : Bytes) (var : M → RawMessage)
      → ((x : M) → discriminator (var x) ≡ d)
      → Carries d (decoded p M rd buf var)
  carries d M rd buf var h m e =
      let (x, got, made) = >>=-eq-ok (decode_body p M rd buf) (λ x. ok (var x)) e in
      constant d (var x) (h x) m made

  -- A message that is decoded has the discriminator that it was decoded by.
  pub discriminator-decode :
      (d : ℕ) (buf : Bytes) (m : RawMessage) → decode p d buf ≡ ok m → discriminator m ≡ d
  unfolding decode discriminator
  discriminator-decode d buf =
      match_tag_all Carries d (decoders p buf) (ok (unsupported d buf))
        (constant 0x01 heartbeat_request refl
          & constant 0x02 heartbeat_response refl
          & constant 0x03 ping refl
          & constant 0x04 pong refl
          & carries 0x82 WriteEvents (WriteEvents.from_reader p) buf write_events (λ x. refl)
          & carries 0x83 WriteEventsCompleted (WriteEventsCompleted.from_reader p) buf
              write_events_completed (λ x. refl)
          & carries 0x8a DeleteStream (DeleteStream.from_reader p) buf delete_stream (λ x. refl)
          & carries 0x8b DeleteStreamCompleted (DeleteStreamCompleted.from_reader p) buf
              delete_stream_completed (λ x. refl)
          & carries 0xb0 ReadEvent (ReadEvent.from_reader p) buf read_event (λ x. refl)
          & carries 0xb1 ReadEventCompleted (ReadEventCompleted.from_reader p) buf
              read_event_completed (λ x. refl)
          & carries 0xb2 ReadStreamEvents (ReadStreamEvents.from_reader p) buf
              (read_stream_events forward) (λ x. refl)
          & carries 0xb3 ReadStreamEventsCompleted (ReadStreamEventsCompleted.from_reader p) buf
              (read_stream_events_completed forward) (λ x. refl)
          & carries 0xb4 ReadStreamEvents (ReadStreamEvents.from_reader p) buf
              (read_stream_events backward) (λ x. refl)
          & carries 0xb5 ReadStreamEventsCompleted (ReadStreamEventsCompleted.from_reader p) buf
              (read_stream_events_completed backward) (λ x. refl)
          & carries 0xb6 ReadAllEvents (ReadAllEvents.from_reader p) buf (read_all_events forward)
              (λ x. refl)
          & carries 0xb7 ReadAllEventsCompleted (ReadAllEventsCompleted.from_reader p) buf
              (read_all_events_completed forward) (λ x. refl)
          & carries 0xb8 ReadAllEvents (ReadAllEvents.from_reader p) buf (read_all_events backward)
              (λ x. refl)
          & carries 0xb9 ReadAllEventsCompleted (ReadAllEventsCompleted.from_reader p) buf
              (read_all_events_completed backward) (λ x. refl)
          & constant 0xf0 (bad_request buf) refl
          & carries 0xf1 NotHandled (NotHandled.from_reader p) buf not_handled (λ x. refl)
          & constant 0xf2 authenticate refl
          & constant 0xf3 authenticated refl
          & constant 0xf4 (not_authenticated buf) refl
          & tt)
        (constant d (unsupported d buf) refl)

  -- A body on which the reader fails with bytes left does not come back as an error: the assertion
  -- that the reader is at its end panics. Stated of the response to a write.
  pub decode_panics :
      (buf : Bytes) (e b : ℕ) (left : Bytes)
      → IsProtobuf p
      → WriteEventsCompleted.from_reader p buf ≡ (err e, b ∷ left)
      → decode p 0x83 buf ≡ panic
  unfolding decode decode_body
  decode_panics buf e b left q h = rw (h, q.eof_cons b left)

module _ {p : Protobuf} (q : IsProtobuf p) where
  body_ends :
      (M : Type 0) (rd : Rd M) (buf : Bytes) (var : M → RawMessage)
      → IsForward rd
      → decoded p M rd buf var ≢ stuck
  unfolding decode_body
  body_ends M rd buf var f = ends (rd buf).0 (p.is_eof (rd buf).1) (f.ends buf)
    where
      ends : (o : Outcome ℕ M) (eof : Bool) → o ≢ stuck → (finish o eof >>= λ x. ok (var x)) ≢ stuck
      ends (ok x) true ne e = cc
      ends (ok x) false ne e = cc
      ends (err x) true ne e = cc
      ends (err x) false ne e = cc
      ends panic eof ne e = cc
      ends stuck eof ne e = absurd (ne refl)

  -- `decode` ends on every discriminator and all bytes: no read loop runs out of its fuel.
  pub decode-ne-stuck : (d : ℕ) (buf : Bytes) → decode p d buf ≢ stuck
  unfolding decode
  decode-ne-stuck d buf =
      match_tag_all (λ k o. o ≢ stuck) d (decoders p buf) (ok (unsupported d buf))
        ((λ e. cc)
          & (λ e. cc)
          & (λ e. cc)
          & (λ e. cc)
          & body_ends WriteEvents (WriteEvents.from_reader p) buf write_events
              (WriteEvents.from_reader-IsForward q)
          & body_ends WriteEventsCompleted (WriteEventsCompleted.from_reader p) buf
              write_events_completed (WriteEventsCompleted.from_reader-IsForward q)
          & body_ends DeleteStream (DeleteStream.from_reader p) buf delete_stream
              (DeleteStream.from_reader-IsForward q)
          & body_ends DeleteStreamCompleted (DeleteStreamCompleted.from_reader p) buf
              delete_stream_completed (DeleteStreamCompleted.from_reader-IsForward q)
          & body_ends ReadEvent (ReadEvent.from_reader p) buf read_event
              (ReadEvent.from_reader-IsForward q)
          & body_ends ReadEventCompleted (ReadEventCompleted.from_reader p) buf read_event_completed
              (ReadEventCompleted.from_reader-IsForward q)
          & body_ends ReadStreamEvents (ReadStreamEvents.from_reader p) buf
              (read_stream_events forward) (ReadStreamEvents.from_reader-IsForward q)
          & body_ends ReadStreamEventsCompleted (ReadStreamEventsCompleted.from_reader p) buf
              (read_stream_events_completed forward)
              (ReadStreamEventsCompleted.from_reader-IsForward q)
          & body_ends ReadStreamEvents (ReadStreamEvents.from_reader p) buf
              (read_stream_events backward) (ReadStreamEvents.from_reader-IsForward q)
          & body_ends ReadStreamEventsCompleted (ReadStreamEventsCompleted.from_reader p) buf
              (read_stream_events_completed backward)
              (ReadStreamEventsCompleted.from_reader-IsForward q)
          & body_ends ReadAllEvents (ReadAllEvents.from_reader p) buf (read_all_events forward)
              (ReadAllEvents.from_reader-IsForward q)
          & body_ends ReadAllEventsCompleted (ReadAllEventsCompleted.from_reader p) buf
              (read_all_events_completed forward) (ReadAllEventsCompleted.from_reader-IsForward q)
          & body_ends ReadAllEvents (ReadAllEvents.from_reader p) buf (read_all_events backward)
              (ReadAllEvents.from_reader-IsForward q)
          & body_ends ReadAllEventsCompleted (ReadAllEventsCompleted.from_reader p) buf
              (read_all_events_completed backward) (ReadAllEventsCompleted.from_reader-IsForward q)
          & (λ e. cc)
          & body_ends NotHandled (NotHandled.from_reader p) buf not_handled
              (NotHandled.from_reader-IsForward q)
          & (λ e. cc)
          & (λ e. cc)
          & (λ e. cc)
          & tt)
        (λ e. cc)
