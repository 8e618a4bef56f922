-- ===== src/Testclient/Accepts.antt =====
-- For which modes, positions and streams `ReadMode::into_request` of testclient/src/read.rs panics, and
-- which request it sends for the others.
use eventstore_tcp.Prelude.{
  ℕ, Bool, true, false, Str, Option, Outcome, ok, panic, ◌≡◌, ◌⊎◌, ◌&&◌, not, refl, ltb, ◌==◌,
  if◌then◌else◌, Bool-cases, inl, inr, length,
}
use eventstore_tcp.Auth.{UsernamePassword}
use eventstore_tcp.Raw.{ReadDirection, discriminator, read_stream_events, read_all_events}
use eventstore_tcp.Message.ReadStreamEvents.{ReadStreamEvents}
use eventstore_tcp.Message.ReadAllEvents.{ReadAllEvents}
use eventstore_tcp.Codec.{Package}
use eventstore_tcp.Builder.Package
use eventstore_tcp.Builder.ReadEvent
use eventstore_tcp.Builder.ReadStream
use eventstore_tcp.Builder.ReadAll
use eventstore_tcp.Testclient.Parse.{eq_str}
use eventstore_tcp.Testclient.Read.{
  Position, exact, log, ReadMode, forward_once, backward, direction_of, position_in, count_in,
  all_stream, one_event, all_events, stream_events, into_request, into_event_number,
  into_log_position,
}

abbrev is_log : Position → Bool
is_log (log a b) = true
is_log _ = false

abbrev is_exact : Position → Bool
is_exact (exact v) = true
is_exact _ = false

abbrev one_accepts : Position → Str → Bool
one_accepts position id = not (is_log position) && ltb 0 (length id)

abbrev all_accepts : Position → ℕ → Bool
all_accepts position count = not (is_exact position) && ltb 0 count

abbrev stream_accepts : Position → ℕ → Str → Bool
stream_accepts position count id = one_accepts position id && ltb 0 count

-- Whether there is a request for what was asked: of one event or of a stream, from a number; of all
-- events, from a position in the log; never of no events, or of a stream without a name.
abbrev pub accepts : ReadMode → Str → Bool
accepts mode id =
    if count_in mode == 1
    then one_accepts (position_in mode) id
    else if eq_str id all_stream
    then all_accepts (position_in mode) (count_in mode)
    else stream_accepts (position_in mode) (count_in mode) id

abbrev pub stream_code : ReadDirection → ℕ
stream_code ReadDirection.forward = 0xb2
stream_code ReadDirection.backward = 0xb4

abbrev pub all_code : ReadDirection → ℕ
all_code ReadDirection.forward = 0xb6
all_code ReadDirection.backward = 0xb8

-- The direction of a mode, by its name.
abbrev pub way : ReadMode → ReadDirection
way (forward_once position count) = ReadDirection.forward
way (backward position count) = ReadDirection.backward

direction_of-way : (mode : ReadMode) → direction_of mode ≡ way mode
unfolding direction_of
direction_of-way (forward_once position count) = refl
direction_of-way (backward position count) = refl

-- The discriminator of the request: of one event, of a stream or of all events.
abbrev pub code : ReadMode → Str → ℕ
code mode id =
    if count_in mode == 1
    then 0xb0
    else if eq_str id all_stream
    then all_code (way mode)
    else stream_code (way mode)

-- What is asked for is accepted, and a package with that discriminator comes back, under the id and
-- with the credentials, or it panics.
abbrev pub Answers :
    {E Uuid : Type 0}
    → Bool
    → ℕ
    → Uuid
    → Option UsernamePassword
    → Outcome E (Package Uuid)
    → Type 0
Answers {Uuid = Uuid} accepted d id cred o =
    ((accepted ≡ true)
      × (pkg : Package Uuid) × (o ≡ ok pkg)
      × (discriminator pkg.message ≡ d)
      × (pkg.correlation_id ≡ id)
      × (pkg.authentication ≡ cred))
    ⊎ ((accepted ≡ false) × (o ≡ panic))

stream_code-discriminator :
    (dir : ReadDirection) (x : ReadStreamEvents)
    → discriminator (read_stream_events dir x) ≡ stream_code dir
unfolding discriminator
stream_code-discriminator ReadDirection.forward x = refl
stream_code-discriminator ReadDirection.backward x = refl

all_code-discriminator :
    (dir : ReadDirection) (x : ReadAllEvents) → discriminator (read_all_events dir x) ≡ all_code dir
unfolding discriminator
all_code-discriminator ReadDirection.forward x = refl
all_code-discriminator ReadDirection.backward x = refl

module _ {E Uuid : Type 0} (fresh : Uuid) (cred : Option UsernamePassword) where
  one_event-Answers :
      (id : Str) (position : Position)
      → Answers (one_accepts position id) 0xb0 fresh cred (one_event {E = E} fresh id cred position)
  unfolding one_event discriminator into_event_number ReadEvent.set_stream_id
      ReadEvent.set_event_number ReadEvent.set_resolve_link_tos ReadEvent.set_require_master
      ReadEvent.build_package ReadEvent.build_message ReadEvent.build_command Package.build_package
      Package.checked_id
  one_event-Answers id Position.first = elim (Bool-cases (ltb 0 (length id))) [
    | inl some_id ↦ rw some_id (inl (refl, _, refl, refl, refl, refl))
    | inr no_id ↦ rw no_id (inr (refl, refl))
  ]
  one_event-Answers id (exact v) = elim (Bool-cases (ltb 0 (length id))) [
    | inl some_id ↦ rw some_id (inl (refl, _, refl, refl, refl, refl))
    | inr no_id ↦ rw no_id (inr (refl, refl))
  ]
  one_event-Answers id (log a b) = elim (Bool-cases (ltb 0 (length id))) [
    | inl some_id ↦ rw some_id (inr (refl, refl))
    | inr no_id ↦ rw no_id (inr (refl, refl))
  ]
  one_event-Answers id Position.last = elim (Bool-cases (ltb 0 (length id))) [
    | inl some_id ↦ rw some_id (inl (refl, _, refl, refl, refl, refl))
    | inr no_id ↦ rw no_id (inr (refl, refl))
  ]

  all_events-Answers :
      (dir : ReadDirection) (position : Position) (count : ℕ)
      → Answers
          (all_accepts position count)
          (all_code dir)
          fresh
          cred
          (all_events {E = E} fresh cred dir position count)
  unfolding all_events into_log_position ReadAll.set_direction ReadAll.set_positions
      ReadAll.set_max_count ReadAll.build_package ReadAll.build_message Package.build_package
      Package.checked_count
  all_events-Answers dir Position.first count = elim (Bool-cases (ltb 0 count)) [
    | inl positive ↦ rw positive (inl (refl, _, refl, all_code-discriminator dir _, refl, refl))
    | inr zero_count ↦ rw zero_count (inr (refl, refl))
  ]
  all_events-Answers dir (exact v) count = inr (refl, refl)
  all_events-Answers dir (log a b) count = elim (Bool-cases (ltb 0 count)) [
    | inl positive ↦ rw positive (inl (refl, _, refl, all_code-discriminator dir _, refl, refl))
    | inr zero_count ↦ rw zero_count (inr (refl, refl))
  ]
  all_events-Answers dir Position.last count = elim (Bool-cases (ltb 0 count)) [
    | inl positive ↦ rw positive (inl (refl, _, refl, all_code-discriminator dir _, refl, refl))
    | inr zero_count ↦ rw zero_count (inr (refl, refl))
  ]

  stream_events-Answers :
      (id : Str) (dir : ReadDirection) (position : Position) (count : ℕ)
      → Answers
          (stream_accepts position count id)
          (stream_code dir)
          fresh
          cred
          (stream_events {E = E} fresh id cred dir position count)
  unfolding stream_events into_event_number ReadStream.set_direction ReadStream.set_stream_id
      ReadStream.set_from_event_number ReadStream.set_max_count ReadStream.build_package
      ReadStream.build_message ReadStream.build_command Package.build_package Package.checked_id
      Package.checked_count
  stream_events-Answers id dir Position.first count = elim (Bool-cases (ltb 0 (length id))) [
    | inl some_id ↦ elim (Bool-cases (ltb 0 count)) [
      | inl positive ↦
          rw (some_id, positive) (inl (refl, _, refl, stream_code-discriminator dir _, refl, refl))
      | inr zero_count ↦ rw (some_id, zero_count) (inr (refl, refl))
    ]
    | inr no_id ↦ rw no_id (inr (refl, refl))
  ]
  stream_events-Answers id dir (exact v) count = elim (Bool-cases (ltb 0 (length id))) [
    | inl some_id ↦ elim (Bool-cases (ltb 0 count)) [
      | inl positive ↦
          rw (some_id, positive) (inl (refl, _, refl, stream_code-discriminator dir _, refl, refl))
      | inr zero_count ↦ rw (some_id, zero_count) (inr (refl, refl))
    ]
    | inr no_id ↦ rw no_id (inr (refl, refl))
  ]
  stream_events-Answers id dir (log a b) count = elim (Bool-cases (ltb 0 (length id))) [
    | inl some_id ↦ rw some_id (inr (refl, refl))
    | inr no_id ↦ rw no_id (inr (refl, refl))
  ]
  stream_events-Answers id dir Position.last count = elim (Bool-cases (ltb 0 (length id))) [
    | inl some_id ↦ elim (Bool-cases (ltb 0 count)) [
      | inl positive ↦
          rw (some_id, positive) (inl (refl, _, refl, stream_code-discriminator dir _, refl, refl))
      | inr zero_count ↦ rw (some_id, zero_count) (inr (refl, refl))
    ]
    | inr no_id ↦ rw no_id (inr (refl, refl))
  ]

  -- A read has a request exactly for what is accepted: of one event or of a stream from a number, and of
  -- all events from a position in the log; the stream has a name and the count is not zero. Then it is
  -- the request of one event for a count of one, of all events for the stream "$all", and of the stream
  -- otherwise, forward or backward as the mode is, under a fresh id and with the credentials. For anything
  -- else it panics.
  pub into_request-Answers :
      (mode : ReadMode) (id : Str)
      → Answers
          (accepts mode id)
          (code mode id)
          fresh
          cred
          (into_request {E = E} fresh mode id cred)
  unfolding into_request
  into_request-Answers mode id = elim (Bool-cases (count_in mode == 1)) [
    | inl one ↦ rw one (one_event-Answers id (position_in mode))
    | inr more ↦ elim (Bool-cases (eq_str id all_stream)) [
      | inl all ↦
          rw (more, all, direction_of-way mode)
            (all_events-Answers (way mode) (position_in mode) (count_in mode))
      | inr other ↦
          rw (more, other, direction_of-way mode)
            (stream_events-Answers id (way mode) (position_in mode) (count_in mode))
    ]
  ]
