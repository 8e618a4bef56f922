-- ===== src/Builder/WriteEvents/Laws.antt =====
-- What any use of a `WriteEventsBuilder` of src/builder.rs builds.
use eventstore_tcp.Prelude.{
  false, Bytes, Str, some, ok, List, [], ◌∷◌, ◌++◌, ◌^◌, ◌<◌, ◌≡◌, arith, All, All-append_right,
  unwrap, unwrap_or, >>=-eq-ok,
}
use eventstore_tcp.Version.{any, bytes, expected_version_to_i32, content_type_to_i32}
use eventstore_tcp.Version.Wire.{IsExpected}
use eventstore_tcp.Protobuf.{Protobuf}
use eventstore_tcp.Protobuf.Laws.{IsText, Fits}
use eventstore_tcp.Protobuf.Loop.{OptAll}
use eventstore_tcp.Crates.{Crates, IsCrates}
use eventstore_tcp.Message.NewEvent
use eventstore_tcp.Message.NewEvent.{NewEvent}
use eventstore_tcp.Raw.{RawMessage, write_events}
use eventstore_tcp.Raw.Validity.{IsValid}
use eventstore_tcp.Builder.Package.{checked_id}
use eventstore_tcp.Builder.Ranges.{
  checked_id-same, IsI32-expected_version_to_i32, IsI32-content_type_to_i32, OptAll-unwrap,
  OptAll-unwrap_or,
}
use eventstore_tcp.Builder.WriteEvents.{
  WriteEventsBuilder, NewEventBuilder, new, set_stream_id, set_expected_version, set_require_master,
  build_command, build_message, new_event, set_event_id, set_event_type, set_data,
  set_data_content_type, set_metadata, set_metadata_content_type, cancel, done, event_of,
  push_event,
}
use eventstore_tcp.Builder.WriteEvents.Session.{
  State, building, in_event, Step, stream_id, expected_version, require_master, begin, event_id,
  event_type, event_data, data_content_type, metadata, metadata_content_type, finish, give_up,
  build, Reach, here, next,
}

module _ (p : Protobuf) where
  -- What was set of a request is in range.
  pub record InRange (b : WriteEventsBuilder) : Type 0 where
    pub stream : OptAll IsText b.event_stream_id
    pub version : OptAll IsExpected b.expected_version
    pub events : All (NewEvent.Nests p) b.events

  -- What was set of an event is in range, and so is its parent.
  pub record InRangeEvent {Uuid : Type 0} (e : NewEventBuilder Uuid) : Type 0 where
    pub parent : InRange e.parent
    pub event_type : OptAll IsText e.event_type
    pub data_bytes : OptAll Fits e.data_bytes
    pub metadata : OptAll Fits e.metadata

  abbrev pub StateInRange : {Uuid : Type 0} → State Uuid → Type 0
  StateInRange (building b) = InRange b
  StateInRange (in_event e) = InRangeEvent e

All-snoc :
    {A : Type 0} (P : A → Type 0) (xs : List A) (x : A) → All P xs → P x → All P (xs ++ (x ∷ []))
All-snoc P [] x h k = (k, tt)
All-snoc P (y ∷ ys) x h k = (h.0, All-snoc P ys x h.1 k)

-- The request and the builder that is left, from a build that returned.
pub built :
    {E : Type 0} (b b' : WriteEventsBuilder) (m : RawMessage)
    → build_message {E = E} b ≡ ok (m, b')
    → (id : Str) × (unwrap {E = E} b.event_stream_id ≡ ok id)
      × (m
          ≡ write_events (record {
            event_stream_id = id;
            expected_version = expected_version_to_i32 (unwrap_or b.expected_version any);
            events = b.events;
            require_master = unwrap_or b.require_master false;
          }))
      × (b' ≡ new)
unfolding build_message build_command
built b b' m e =
    let ((cmd, b1), got, e1) = >>=-eq-ok (build_command b) _ e in
    let (id, got', e2) = >>=-eq-ok (unwrap b.event_stream_id) _ got in (id, got', cc, cc)

-- The event that `done` pushes, from a call that returned.
pub made :
    {Uuid Buf E : Type 0} (c : Crates Uuid Buf) (fresh : Uuid) (e : NewEventBuilder Uuid)
    (x : NewEvent)
    → event_of c {E = E} fresh e ≡ ok x
    → (ty : Str) × (d : Bytes) × (unwrap {E = E} e.event_type ≡ ok ty)
      × (unwrap {E = E} e.data_bytes ≡ ok d)
      × (x ≡ record {
        event_id = c.as_bytes (unwrap_or e.event_id fresh);
        event_type = ty;
        data_content_type = content_type_to_i32 (unwrap_or e.data_content_type bytes);
        metadata_content_type = content_type_to_i32 (unwrap_or e.metadata_content_type bytes);
        data_bytes = d;
        metadata = e.metadata;
      })
unfolding event_of
made c fresh e x eq =
    let (ty, got, e1) = >>=-eq-ok (unwrap e.event_type) _ eq in
    let (d, got', e2) = >>=-eq-ok (unwrap e.data_bytes) _ e1 in (ty, d, got, got', cc)

module _ (p : Protobuf) where
  pub empty-InRange : InRange p new
  empty-InRange = record { stream = tt; version = tt; events = tt }

  pub built-IsValid :
      {E : Type 0} (b b' : WriteEventsBuilder) (m : RawMessage)
      → InRange p b
      → build_message {E = E} b ≡ ok (m, b')
      → IsValid p m
  built-IsValid b b' m h e =
      let (id, got, same, left) = built b b' m e in
      rw same (record {
        event_stream_id = OptAll-unwrap IsText b.event_stream_id id h.stream got;
        expected_version =
            IsI32-expected_version_to_i32 (unwrap_or b.expected_version any)
              (OptAll-unwrap_or IsExpected b.expected_version any h.version tt);
        events = h.events;
      })

  pub set_stream_id-InRange :
      {E : Type 0} (b b' : WriteEventsBuilder) (id : Str)
      → InRange p b
      → IsText id
      → set_stream_id {E = E} id b ≡ ok b'
      → InRange p b'
  unfolding set_stream_id
  set_stream_id-InRange b b' id h t e =
      let (s, got, e1) = >>=-eq-ok (checked_id id) _ e in
      let same_id = checked_id-same id s got in
      let same : b' ≡ record b { event_stream_id = some id } = cc in
      rw same (record { stream = t; version = h.version; events = h.events })

  module _ {Uuid Buf : Type 0} {c : Crates Uuid Buf} (q : IsCrates c) where
    made-Nests :
        {E : Type 0} (fresh : Uuid) (e : NewEventBuilder Uuid) (x : NewEvent)
        → InRangeEvent p e
        → event_of c {E = E} fresh e ≡ ok x
        → NewEvent.get_size p x < 2 ^ 31
        → NewEvent.Nests p x
    made-Nests fresh e x h eq size =
        let (ty, d, got, got', same) = made c fresh e x eq in
        let valid : NewEvent.IsValid p x = rw same (record {
          event_id = rw (q.as_bytes_size) (omega arith);
          event_type = OptAll-unwrap IsText e.event_type ty h.event_type got;
          data_content_type = IsI32-content_type_to_i32 _;
          metadata_content_type = IsI32-content_type_to_i32 _;
          data_bytes = OptAll-unwrap Fits e.data_bytes d h.data_bytes got';
          metadata = h.metadata;
        }) in
        record { valid = valid; fits = size }

    pub done-InRange :
        {E : Type 0} (fresh : Uuid) (e : NewEventBuilder Uuid) (x : NewEvent)
        (b : WriteEventsBuilder)
        → InRangeEvent p e
        → event_of c {E = E} fresh e ≡ ok x
        → NewEvent.get_size p x < 2 ^ 31
        → done c {E = E} fresh e ≡ ok b
        → InRange p b
    unfolding done push_event
    done-InRange fresh e x b h eq size d =
        let (y, got, e1) = >>=-eq-ok (event_of c fresh e) _ d in
        let same : b ≡ record (e.parent) { events = e.parent.events ++ (x ∷ []) } = cc in
        rw same (record {
          stream = h.parent.stream;
          version = h.parent.version;
          events =
              All-snoc (NewEvent.Nests p) e.parent.events x h.parent.events
                (made-Nests fresh e x h eq size);
        })

    -- A finished event leaves its parent in range, if every event can be told by a length.
    pub done_sizes :
        {E : Type 0} (fresh : Uuid) (e : NewEventBuilder Uuid) (b : WriteEventsBuilder)
        → InRangeEvent p e
        → All (λ x. NewEvent.get_size p x < 2 ^ 31) b.events
        → done c {E = E} fresh e ≡ ok b
        → InRange p b
    unfolding done push_event
    done_sizes fresh e b h sizes d =
        let (x, got, e1) = >>=-eq-ok (event_of c fresh e) _ d in
        let same : b ≡ record (e.parent) { events = e.parent.events ++ (x ∷ []) } = cc in
        let found = rw same at sizes in
        let size =
          (All-append_right (λ y. NewEvent.get_size p y < 2 ^ 31) e.parent.events (x ∷ [])
            found).0 in
        done-InRange fresh e x b h got size d

    Step-InRange :
        {E : Type 0} (s t : State Uuid) → StateInRange p s → Step c p E s t → StateInRange p t
    unfolding set_expected_version set_require_master new_event set_event_id set_event_type set_data
        set_data_content_type set_metadata set_metadata_content_type cancel
    Step-InRange s t h (stream_id b b' id ok_text e) = set_stream_id-InRange b b' id h ok_text e
    Step-InRange s t h (expected_version b v k) = record {
      stream = h.stream;
      version = k;
      events = h.events;
    }
    Step-InRange s t h (require_master b r) = record {
      stream = h.stream;
      version = h.version;
      events = h.events;
    }
    Step-InRange s t h (begin b) = record {
      parent = h;
      event_type = tt;
      data_bytes = tt;
      metadata = tt;
    }
    Step-InRange s t h (event_id e id) = record {
      parent = h.parent;
      event_type = h.event_type;
      data_bytes = h.data_bytes;
      metadata = h.metadata;
    }
    Step-InRange s t h (event_type e ty k) = record {
      parent = h.parent;
      event_type = k;
      data_bytes = h.data_bytes;
      metadata = h.metadata;
    }
    Step-InRange s t h (event_data e d k) = record {
      parent = h.parent;
      event_type = h.event_type;
      data_bytes = k;
      metadata = h.metadata;
    }
    Step-InRange s t h (data_content_type e ct) = record {
      parent = h.parent;
      event_type = h.event_type;
      data_bytes = h.data_bytes;
      metadata = h.metadata;
    }
    Step-InRange s t h (metadata e m k) = record {
      parent = h.parent;
      event_type = h.event_type;
      data_bytes = h.data_bytes;
      metadata = k;
    }
    Step-InRange s t h (metadata_content_type e ct) = record {
      parent = h.parent;
      event_type = h.event_type;
      data_bytes = h.data_bytes;
      metadata = h.metadata;
    }
    Step-InRange s t h (finish e fresh x b made' size d) = done-InRange fresh e x b h made' size d
    Step-InRange s t h (give_up e) = h.parent
    Step-InRange s t h (build b b' m e) =
        let (id, got, same, left) = built b b' m e in
        rw left (record { stream = tt; version = tt; events = tt })

    Reach-InRange : {E : Type 0} {t : State Uuid} → Reach c p E (building new) t → StateInRange p t
    Reach-InRange here = empty-InRange
    Reach-InRange (next {t} {u} r st) = Step-InRange t u (Reach-InRange r) st

    -- Whatever calls were made on a new WriteEventsBuilder, a request that it then builds has numbers,
    -- texts and lengths in range, if what was set is in range.
    pub session_message-IsValid :
        {E : Type 0} (b b' : WriteEventsBuilder) (m : RawMessage)
        → Reach c p E (building new) (building b)
        → build_message {E = E} b ≡ ok (m, b')
        → IsValid p m
    session_message-IsValid b b' m r e = built-IsValid b b' m (Reach-InRange r) e
