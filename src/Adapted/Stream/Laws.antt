-- ===== src/Adapted/Stream/Laws.antt =====
-- Lemmas on the conversions of `ReadStreamEventsCompleted` of src/adapted/mod.rs.
use eventstore_tcp.Prelude.{
  ap, false, Option, none, some, Outcome, ok, err, panic, stuck, ◌>>=◌, map_err, ◌≡◌, refl, arith,
  >>=-eq-ok, Bool-cases, inl, inr,
}
use eventstore_tcp.Prelude.Int.{ℤ, negsuc, IsI32, is_neg, as_i32_small}
use eventstore_tcp.Errors.{invalid_stream_version}
use eventstore_tcp.Version.{
  StreamVersion, EventNumber, exact, first, last, try_from_i32, version_to_i32, event_number_to_i32,
}
use eventstore_tcp.Version.Bounds.{
  IsVersion, try_from_i32-version_to_i32, version_to_i32-try_from_i32,
}
use eventstore_tcp.Message.Enums.{ReadStreamResult}
use eventstore_tcp.Message.ReadStreamEventsCompleted.{ReadStreamEventsCompleted}
use eventstore_tcp.Raw.{ReadDirection, forward, backward}
use eventstore_tcp.Adapted.Keeps.{success}
use eventstore_tcp.Adapted.Stream.{
  ReadStreamCompleted, ReadStreamError, from_result, next_page_of, by_status, on_status, try_from,
  next_page_to_i32, completed_as_raw, error_as_raw,
}

-- A next page is an exact version in range, and only behind the start of a stream there is none.
abbrev pub IsNext : ReadDirection → Option EventNumber → Type 0
IsNext dir (some (exact v)) = IsVersion v
IsNext dir (some first) = ⊥
IsNext dir (some last) = ⊥
IsNext forward none = ⊥
IsNext backward none = Unit

pub record IsPage (dir : ReadDirection) (x : ReadStreamCompleted) : Type 0 where
  pub next : IsNext dir x.next_page
  pub last : IsVersion x.last_event_number

version_not_negative : (v : StreamVersion) → IsVersion v → is_neg (version_to_i32 v) ≡ false
unfolding version_to_i32
version_not_negative v h = rw (as_i32_small v.value h)

next_back :
    (dir : ReadDirection) (o : Option EventNumber)
    → IsNext dir o
    → next_page_of dir (next_page_to_i32 o) ≡ ok o
unfolding next_page_of next_page_to_i32 event_number_to_i32
next_back forward none h = absurd h
next_back backward none h = refl
next_back dir (some first) h = absurd h
next_back dir (some last) h = absurd h
next_back forward (some (exact v)) h = rw (try_from_i32-version_to_i32 v h)
next_back backward (some (exact v)) h =
    rw (version_not_negative v h, try_from_i32-version_to_i32 v h)

-- A page of a stream, read in either direction, is written as a raw message that is converted back
-- to it, if its version and the next page are in range and only a page read backward has no next one.
pub try_from-completed_as_raw_page :
    (dir : ReadDirection) (x : ReadStreamCompleted)
    → IsPage dir x
    → try_from dir (completed_as_raw x) ≡ ok (success x)
unfolding try_from on_status by_status completed_as_raw
try_from-completed_as_raw_page dir x h =
    rw (next_back dir x.next_page h.next, try_from_i32-version_to_i32 x.last_event_number h.last)

map_err-eq-ok :
    {E F A : Type 0} (f : E → F) (o : Outcome E A) {a : A} → map_err f o ≡ ok a → o ≡ ok a
map_err-eq-ok f (ok a) h = ap (λ x. x) (cc h)
map_err-eq-ok f (err e) h = cc
map_err-eq-ok f panic h = cc
map_err-eq-ok f stuck h = cc

IsNext-exact :
    (dir : ReadDirection) (i : ℤ) (o : Option EventNumber)
    → IsI32 i
    → (try_from_i32 i >>= λ v. ok (some (exact v))) ≡ ok o
    → IsNext dir o
IsNext-exact dir i o h e =
    let (v, got, made) = >>=-eq-ok (try_from_i32 i) (λ v. ok (some (exact v))) e in
    let same : o ≡ some (exact v) = cc in rw same ((version_to_i32-try_from_i32 i v h got).1)

IsNext-next_page_of :
    (dir : ReadDirection) (i : ℤ) (o : Option EventNumber)
    → IsI32 i
    → next_page_of dir i ≡ ok o
    → IsNext dir o
unfolding next_page_of
IsNext-next_page_of forward i o h e = IsNext-exact forward i o h e
IsNext-next_page_of backward i o h e = elim (Bool-cases (is_neg i)) [
  | inl before ↦ let e' = rw before at e in let same : o ≡ none = cc in rw same tt
  | inr there ↦ IsNext-exact backward i o h (rw there at e)
]

by_status_success :
    (msg : ReadStreamEventsCompleted) (next : Option EventNumber) (v : StreamVersion)
    (status : ReadStreamResult) (x : ReadStreamCompleted)
    → by_status msg next v status ≡ ok (success x)
    → (x.next_page ≡ next) × (x.last_event_number ≡ v)
unfolding by_status from_result
by_status_success msg next v ReadStreamResult.success x e = ground arith
by_status_success msg next v ReadStreamResult.no_stream x e = cc
by_status_success msg next v ReadStreamResult.stream_deleted x e = cc
by_status_success msg next v ReadStreamResult.not_modified x e = cc
by_status_success msg next v ReadStreamResult.error x e = cc
by_status_success msg next v ReadStreamResult.access_denied x e = cc

IsPage-on_status :
    (dir : ReadDirection) (msg : ReadStreamEventsCompleted) (o : Option ReadStreamResult)
    (x : ReadStreamCompleted)
    → IsI32 msg.next_event_number
    → IsI32 msg.last_event_number
    → on_status dir msg o ≡ ok (success x)
    → IsPage dir x
unfolding on_status
IsPage-on_status dir msg none x hn hl e = cc
IsPage-on_status dir msg (some status) x hn hl e =
    let (next, got, e1) = >>=-eq-ok _ _ e in
    let (v, got', e2) = >>=-eq-ok _ _ e1 in
    let (same, same') = by_status_success msg next v status x e2 in
    let n = IsNext-next_page_of dir msg.next_event_number next hn (map_err-eq-ok _ _ got) in
    let l = version_to_i32-try_from_i32 msg.last_event_number v hl (map_err-eq-ok _ _ got') in
    record { next = rw same n; last = rw same' l.1 }

-- A page that the conversion of a raw reply makes has its version and its next page in range, and
-- only a page read backward can have no next one.
pub try_from-IsPage :
    (dir : ReadDirection) (msg : ReadStreamEventsCompleted) (x : ReadStreamCompleted)
    → IsI32 msg.next_event_number
    → IsI32 msg.last_event_number
    → try_from dir msg ≡ ok (success x)
    → IsPage dir x
unfolding try_from
try_from-IsPage dir msg x hn hl e = IsPage-on_status dir msg msg.result x hn hl e

-- The raw message of a read that failed is never converted back to the error: its event numbers,
-- -1 both, are refused before its status is looked at, when reading forward for the next one, and
-- when reading backward for the last one.
pub try_from-error_as_raw :
    (dir : ReadDirection) (f : ReadStreamError)
    → try_from dir (error_as_raw f) ≡ err ((dir, error_as_raw f), invalid_stream_version (negsuc 0))
unfolding try_from on_status error_as_raw next_page_of try_from_i32
try_from-error_as_raw forward f = refl
try_from-error_as_raw backward f = refl
