-- ===== src/Builder/WriteEvents/Asked.antt =====
-- That a `WriteEventsBuilder` of src/builder.rs builds what its calls asked for.
use eventstore_tcp.Prelude.{
  Str, Option, none, some, ok, List, [], ◌∷◌, ◌++◌, ◌≡◌, refl, ◌∙◌, unwrap, unwrap_or, >>=-eq-ok,
}
use eventstore_tcp.Protobuf.{Protobuf}
use eventstore_tcp.Crates.{Crates, IsCrates}
use eventstore_tcp.Message.NewEvent.{NewEvent}
use eventstore_tcp.Raw.{RawMessage, write_events}
use eventstore_tcp.Raw.Validity.{IsValid}
use eventstore_tcp.Builder.Package.{checked_id}
use eventstore_tcp.Builder.Ranges.{checked_id-same}
use eventstore_tcp.Builder.WriteEvents.{
  WriteEventsBuilder, NewEventBuilder, new, set_stream_id, set_expected_version, set_require_master,
  build_message, new_event, set_event_id, set_event_type, set_data, set_data_content_type,
  set_metadata, set_metadata_content_type, cancel, done, event_of, push_event,
}
use eventstore_tcp.Builder.WriteEvents.Session.{
  State, building, in_event, Step, stream_id, expected_version, require_master, begin, event_id,
  event_type, event_data, data_content_type, metadata, metadata_content_type, finish, give_up,
  build, Reach, here, next,
}
use eventstore_tcp.Builder.WriteEvents.Calls.{
  Call, stream_set, version_set, master_set, id_set, type_set, data_set, data_type_set,
  metadata_set, metadata_type_set, event_asked, events_asked, request_asked, call, calls,
}
use eventstore_tcp.Builder.WriteEvents.Laws.{built, made, session_message-IsValid}

pub unwrap-unwrap_or :
    {E A : Type 0} (o : Option A) (a d : A) → unwrap {E = E} o ≡ ok a → a ≡ unwrap_or o d
unwrap-unwrap_or (some x) a d e = cc
unwrap-unwrap_or none a d e = cc

module _ {Uuid Buf : Type 0} (c : Crates Uuid Buf) where
  -- A builder holds what was asked for.
  record Holds (b : WriteEventsBuilder) (cs : List (Call Uuid)) : Type 0 where
    stream : b.event_stream_id ≡ stream_set cs
    version : b.expected_version ≡ version_set cs
    master : b.require_master ≡ master_set cs
    events : b.events ≡ events_asked c cs

  record HoldsEvent (e : NewEventBuilder Uuid) (cs : List (Call Uuid)) : Type 0 where
    parent : Holds e.parent cs
    id : e.event_id ≡ id_set cs
    ty : e.event_type ≡ type_set cs
    body : e.data_bytes ≡ data_set cs
    body_type : e.data_content_type ≡ data_type_set cs
    more : e.metadata ≡ metadata_set cs
    more_type : e.metadata_content_type ≡ metadata_type_set cs

  abbrev StateHolds : State Uuid → List (Call Uuid) → Type 0
  StateHolds (building b) cs = Holds b cs
  StateHolds (in_event e) cs = HoldsEvent e cs

  -- Calls that set nothing of the request.
  kept-Holds :
      {b : WriteEventsBuilder} {cs ds : List (Call Uuid)}
      → Holds b cs
      → stream_set cs ≡ stream_set ds
      → version_set cs ≡ version_set ds
      → master_set cs ≡ master_set ds
      → events_asked c cs ≡ events_asked c ds
      → Holds b ds
  kept-Holds h s v m x = record {
    stream = h.stream ∙ s;
    version = h.version ∙ v;
    master = h.master ∙ m;
    events = h.events ∙ x;
  }

  Holds-set_stream_id :
      {E : Type 0} (b b' : WriteEventsBuilder) (name : Str) (cs : List (Call Uuid))
      → Holds b cs
      → set_stream_id {E = E} name b ≡ ok b'
      → Holds b' (Call.stream_id name ∷ cs)
  unfolding set_stream_id
  Holds-set_stream_id b b' name cs h e =
      let (s, got, e1) = >>=-eq-ok (checked_id name) _ e in
      let same_id = checked_id-same name s got in
      let same : b' ≡ record b { event_stream_id = some name } = cc in
      rw same (record { stream = refl; version = h.version; master = h.master; events = h.events })

  -- The event that is pushed is the one that was asked for.
  made-asked :
      {E : Type 0} (fresh : Uuid) (e : NewEventBuilder Uuid) (x : NewEvent) (cs : List (Call Uuid))
      → HoldsEvent e cs
      → event_of c {E = E} fresh e ≡ ok x
      → x ≡ event_asked c fresh cs
  made-asked fresh e x cs h eq =
      let (t, d, got, got', same) = made c fresh e x eq in
      let named = unwrap-unwrap_or e.event_type t [] got in
      let filled = unwrap-unwrap_or e.data_bytes d [] got' in
      same ∙ rw (named, filled, h.id, h.ty, h.body, h.body_type, h.more, h.more_type)

  Holds-done :
      {E : Type 0} (fresh : Uuid) (e : NewEventBuilder Uuid) (b : WriteEventsBuilder)
      (cs : List (Call Uuid))
      → HoldsEvent e cs
      → done c {E = E} fresh e ≡ ok b
      → Holds b (Call.finish fresh ∷ cs)
  unfolding done push_event
  Holds-done fresh e b cs h d =
      let (x, got, e1) = >>=-eq-ok (event_of c fresh e) _ d in
      let asked = made-asked fresh e x cs h got in
      let same : b ≡ record (e.parent) { events = e.parent.events ++ (x ∷ []) } = cc in
      rw same (record {
        stream = h.parent.stream;
        version = h.parent.version;
        master = h.parent.master;
        events = rw (h.parent.events, asked);
      })

  Step-Holds :
      {p : Protobuf} {E : Type 0} (s t : State Uuid) (cs : List (Call Uuid))
      → StateHolds s cs
      → (st : Step c p E s t) → StateHolds t (call c st ∷ cs)
  unfolding set_expected_version set_require_master new_event set_event_id set_event_type set_data
      set_data_content_type set_metadata set_metadata_content_type cancel
  Step-Holds s t cs h (stream_id b b' name ok_text e) = Holds-set_stream_id b b' name cs h e
  Step-Holds s t cs h (expected_version b v k) = record {
    stream = h.stream;
    version = refl;
    master = h.master;
    events = h.events;
  }
  Step-Holds s t cs h (require_master b r) = record {
    stream = h.stream;
    version = h.version;
    master = refl;
    events = h.events;
  }
  Step-Holds s t cs h (begin b) = record {
    parent = record {
      stream = h.stream;
      version = h.version;
      master = h.master;
      events = h.events;
    };
    id = refl;
    ty = refl;
    body = refl;
    body_type = refl;
    more = refl;
    more_type = refl;
  }
  Step-Holds s t cs h (event_id e u) = record {
    parent = kept-Holds h.parent refl refl refl refl;
    id = refl;
    ty = h.ty;
    body = h.body;
    body_type = h.body_type;
    more = h.more;
    more_type = h.more_type;
  }
  Step-Holds s t cs h (event_type e name k) = record {
    parent = kept-Holds h.parent refl refl refl refl;
    id = h.id;
    ty = refl;
    body = h.body;
    body_type = h.body_type;
    more = h.more;
    more_type = h.more_type;
  }
  Step-Holds s t cs h (event_data e d k) = record {
    parent = kept-Holds h.parent refl refl refl refl;
    id = h.id;
    ty = h.ty;
    body = refl;
    body_type = h.body_type;
    more = h.more;
    more_type = h.more_type;
  }
  Step-Holds s t cs h (data_content_type e ct) = record {
    parent = kept-Holds h.parent refl refl refl refl;
    id = h.id;
    ty = h.ty;
    body = h.body;
    body_type = refl;
    more = h.more;
    more_type = h.more_type;
  }
  Step-Holds s t cs h (metadata e m k) = record {
    parent = kept-Holds h.parent refl refl refl refl;
    id = h.id;
    ty = h.ty;
    body = h.body;
    body_type = h.body_type;
    more = refl;
    more_type = h.more_type;
  }
  Step-Holds s t cs h (metadata_content_type e ct) = record {
    parent = kept-Holds h.parent refl refl refl refl;
    id = h.id;
    ty = h.ty;
    body = h.body;
    body_type = h.body_type;
    more = h.more;
    more_type = refl;
  }
  Step-Holds s t cs h (finish e fresh x b made' size d) = Holds-done fresh e b cs h d
  Step-Holds s t cs h (give_up e) = kept-Holds h.parent refl refl refl refl
  Step-Holds s t cs h (build b b' m e) =
      let (name, got, same, left) = built b b' m e in
      rw left (record { stream = refl; version = refl; master = refl; events = refl })

  Reach-Holds :
      {p : Protobuf} {E : Type 0} {t : State Uuid} (r : Reach c p E (building new) t)
      → StateHolds t (calls c r)
  Reach-Holds here = record { stream = refl; version = refl; master = refl; events = refl }
  Reach-Holds (next {t} {u} r st) = Step-Holds t u (calls c r) (Reach-Holds r) st

module _ {Uuid Buf : Type 0} {c : Crates Uuid Buf} (q : IsCrates c) (p : Protobuf) where
  -- Whatever calls were made on a new WriteEventsBuilder, events finished, given up and requests built
  -- before among them, a request that it then builds is the one that the calls ask for: the last stream,
  -- version and flag that were set since the last build, and the events that were finished since, in
  -- order, each with what was last set in it. Its numbers, texts and lengths are in range, if those of
  -- the calls are.
  pub session_message-asked :
      {E : Type 0} (b b' : WriteEventsBuilder) (m : RawMessage)
      (r : Reach c p E (building new) (building b))
      → build_message {E = E} b ≡ ok (m, b')
      → (m ≡ write_events (request_asked c (calls c r))) × IsValid p m
  session_message-asked b b' m r e =
      let h : Holds c b (calls c r) = Reach-Holds c r in
      let (name, got, same, left) = built b b' m e in
      let named = unwrap-unwrap_or b.event_stream_id name [] got in
      (
        same ∙ rw (named, h.stream, h.version, h.master, h.events),
        session_message-IsValid p q b b' m r e,
      )
