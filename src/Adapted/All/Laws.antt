-- ===== src/Adapted/All/Laws.antt =====
-- When the conversion of `ReadAllEventsCompleted` of src/adapted/mod.rs returns and when it panics.
use eventstore_tcp.Prelude.{true, false, some, ok, panic, List, [], ◌∷◌, ◌≡◌, refl, All}
use eventstore_tcp.Position.{from_i64, from_i64_opt}
use eventstore_tcp.Position.Laws.{lt_minus_one, from_i64_panics, from_i64_total}
use eventstore_tcp.Message.Enums.{ReadAllResult}
use eventstore_tcp.Message.ResolvedEvent.{ResolvedEvent as RawEvent}
use eventstore_tcp.Message.ReadAllEventsCompleted.{ReadAllEventsCompleted}
use eventstore_tcp.Adapted.Keeps.{success, Keeps, Keeps-ok, Keeps->>=, Keeps-from_i64}
use eventstore_tcp.Adapted.All.{
  ResolvedEvent, ReadAllCompleted, from_result, from_raw, map_events, by_status, try_from,
}

-- Neither position of an event is below -1.
abbrev pub IsPlaced : RawEvent → Type 0
IsPlaced e = (lt_minus_one e.commit_position ≡ false) × (lt_minus_one e.prepare_position ≡ false)

-- An event of a page and what is made of it: the same record and link, and the positions that
-- `from_i64_opt` reads of its numbers.
pub record Converted (e : RawEvent) (x : ResolvedEvent) : Type 0 where
  pub event : x.event ≡ e.event
  pub link : x.link ≡ e.link
  pub commit_position : from_i64_opt e.commit_position ≡ some x.commit_position
  pub prepare_position : from_i64_opt e.prepare_position ≡ some x.prepare_position

-- Event by event, in order.
abbrev pub AllConverted : List RawEvent → List ResolvedEvent → Type 0
AllConverted [] [] = Unit
AllConverted (e ∷ es) (x ∷ xs) = Converted e x × AllConverted es xs
AllConverted [] (x ∷ xs) = ⊥
AllConverted (e ∷ es) [] = ⊥

map_events_total :
    {E : Type 0} (es : List RawEvent)
    → All IsPlaced es
    → (xs : List ResolvedEvent) × (map_events {E = E} es ≡ ok xs) × AllConverted es xs
unfolding map_events from_raw
map_events_total [] h = ([], refl, tt)
map_events_total {E = E} (e ∷ es) (h, hs) =
    let (c, commit, back_c) = from_i64_total {E = E} e.commit_position h.0 in
    let (p, prepare, back_p) = from_i64_total {E = E} e.prepare_position h.1 in
    let (xs, rest, same) = map_events_total {E = E} es hs in
    let x : ResolvedEvent = record {
      event = e.event;
      link = e.link;
      commit_position = c;
      prepare_position = p;
    } in
    (
      x ∷ xs,
      rw (commit, prepare, rest),
      (
        record { event = refl; link = refl; commit_position = back_c; prepare_position = back_p },
        same,
      ),
    )

-- A successful page of all events is converted if no position of the page and of its events is below
-- -1: its events become events in the same order, with the same records and links, and every position
-- is what `from_i64_opt` reads; those for paging may be any number.
pub try_from_total :
    {E : Type 0} (msg : ReadAllEventsCompleted)
    → msg.result ≡ ReadAllResult.success
    → lt_minus_one msg.commit_position ≡ false
    → lt_minus_one msg.prepare_position ≡ false
    → All IsPlaced msg.events
    → (x : ReadAllCompleted) × (try_from {E = E} msg ≡ ok (success x))
      × AllConverted msg.events x.events
      × (from_i64_opt msg.commit_position ≡ some x.commit_position)
      × (from_i64_opt msg.prepare_position ≡ some x.prepare_position)
      × (x.next_commit_position ≡ from_i64_opt msg.next_commit_position)
      × (x.next_prepare_position ≡ from_i64_opt msg.next_prepare_position)
unfolding try_from by_status
try_from_total {E = E} msg status hc hp hs =
    let (c, commit, back_c) = from_i64_total {E = E} msg.commit_position hc in
    let (p, prepare, back_p) = from_i64_total {E = E} msg.prepare_position hp in
    let (xs, events, same) = map_events_total {E = E} msg.events hs in
    let x : ReadAllCompleted = record {
      commit_position = c;
      prepare_position = p;
      events = xs;
      next_commit_position = from_i64_opt msg.next_commit_position;
      next_prepare_position = from_i64_opt msg.next_prepare_position;
    } in
    (x, rw (status, commit, prepare, events), same, back_c, back_p, refl, refl)

-- A successful page of all events whose commit position is below -1 makes the conversion panic.
pub try_from_panics :
    {E : Type 0} (msg : ReadAllEventsCompleted)
    → msg.result ≡ ReadAllResult.success
    → lt_minus_one msg.commit_position ≡ true
    → try_from {E = E} msg ≡ panic
unfolding try_from by_status
try_from_panics {E = E} msg status below =
    rw (status, (from_i64_panics {E = E} msg.commit_position).1 below)

module _ {M : Type 0} {m : M} where
  map_events-Keeps : (es : List RawEvent) → Keeps m (map_events es)
  unfolding map_events from_raw
  map_events-Keeps [] = Keeps-ok []
  map_events-Keeps (e ∷ es) =
      Keeps->>= (from_raw e) _
        (Keeps->>= (from_i64 e.commit_position) _ (Keeps-from_i64 e.commit_position) (λ c.
          Keeps->>= (from_i64 e.prepare_position) _ (Keeps-from_i64 e.prepare_position)
            (λ p. Keeps-ok _)))
        (λ x. Keeps->>= (map_events es) _ (map_events-Keeps es) (λ xs. Keeps-ok (x ∷ xs)))

  by_status-Keeps : (msg : ReadAllEventsCompleted) (r : ReadAllResult) → Keeps m (by_status msg r)
  unfolding by_status from_result
  by_status-Keeps msg ReadAllResult.success =
      Keeps->>= (from_i64 msg.commit_position) _ (Keeps-from_i64 msg.commit_position) (λ c.
        Keeps->>= (from_i64 msg.prepare_position) _ (Keeps-from_i64 msg.prepare_position) (λ p.
          Keeps->>= (map_events msg.events) _ (map_events-Keeps msg.events) (λ xs. Keeps-ok _)))
  by_status-Keeps msg ReadAllResult.not_modified = Keeps-ok _
  by_status-Keeps msg ReadAllResult.error = Keeps-ok _
  by_status-Keeps msg ReadAllResult.access_denied = Keeps-ok _

  -- The conversion returns no error of its own.
  pub try_from-Keeps : (msg : ReadAllEventsCompleted) → Keeps m (try_from msg)
  unfolding try_from
  try_from-Keeps msg = by_status-Keeps msg msg.result
