-- ===== src/Testclient/Ranges.antt =====
-- The ranges of what testclient/src reads from the command line.
use eventstore_tcp.Prelude.{
  ℕ, zero, suc, Str, Option, none, some, Outcome, ok, err, panic, stuck, unwrap, ◌^◌, ◌-◌, ◌≡◌,
  arith, >>=-eq-ok, Bool-cases, inl, inr,
}
use eventstore_tcp.Prelude.Int.{ℤ, pos, negsuc, IsI64}
use eventstore_tcp.Version.{
  StreamVersion, EventNumber, ExpectedVersion, any, no_stream, exact, try_from_u32,
}
use eventstore_tcp.Version.Bounds.{IsVersion}
use eventstore_tcp.Version.Wire.{IsNumber, IsExpected}
use eventstore_tcp.Position.{LogPosition, from_i64, from_i64_opt}
use eventstore_tcp.Position.Laws.{IsPosition, into_i64-from_i64_opt}
use eventstore_tcp.Testclient.Parse.{
  eq_str, split_comma, parse_unsigned, parse_i64, parse_i64-IsI64,
}
use eventstore_tcp.Testclient.Read.{
  Position, log, expect, position_of, log_or_number, into_event_number, into_log_position,
  first_name, last_name,
}
use eventstore_tcp.Testclient.Prepare.{version_of, any_name, created_name}

abbrev pub IsReadPosition : Position → Type 0
IsReadPosition (Position.exact v) = IsVersion v
IsReadPosition (log a b) = IsPosition a × IsPosition b
IsReadPosition _ = Unit

from_i64-opt :
    {E : Type 0} (i : ℤ) (x : LogPosition) → from_i64 {E = E} i ≡ ok x → from_i64_opt i ≡ some x
unfolding from_i64 from_i64_opt
from_i64-opt (pos zero) x e = cc
from_i64-opt (pos (suc n)) x e = cc
from_i64-opt (negsuc zero) x e = cc
from_i64-opt (negsuc (suc n)) x e = cc

from_i64-IsPosition :
    {E : Type 0} (i : ℤ) (x : LogPosition) → IsI64 i → from_i64 {E = E} i ≡ ok x → IsPosition x
from_i64-IsPosition i x h e = (into_i64-from_i64_opt i x h (from_i64-opt i x e)).1

pub ok-subst :
    {E A : Type 0} (P : A → Type 0) (a b : A) → ◌≡◌ {A = Outcome E A} (ok a) (ok b) → P a → P b
ok-subst P a b e h = let same : b ≡ a = cc in rw same h

pub expect-ok : {E F A : Type 0} (o : Outcome F A) (a : A) → expect {E = E} o ≡ ok a → o ≡ ok a
unfolding expect
expect-ok (ok x) a e = cc
expect-ok (err x) a e = cc
expect-ok panic a e = cc
expect-ok stuck a e = cc

try_from_u32-IsVersion : (n : ℕ) (v : StreamVersion) → try_from_u32 n ≡ ok v → IsVersion v
unfolding try_from_u32
try_from_u32-IsVersion n v e = ground arith

-- A version of the command line is in range.
pub version_of-IsExpected :
    {E : Type 0} (s : Str) (v : ExpectedVersion) → version_of {E = E} s ≡ ok v → IsExpected v
unfolding version_of
version_of-IsExpected s v e = elim (Bool-cases (eq_str s any_name)) [
  | inl t ↦ ok-subst IsExpected any v (let h = rw t at e in h) tt
  | inr t ↦ elim (Bool-cases (eq_str s created_name)) [
    | inl u ↦ ok-subst IsExpected no_stream v (let h = rw (t, u) at e in h) tt
    | inr u ↦
        let h = rw (t, u) at e in
        let (n, got, e1) = >>=-eq-ok (unwrap (parse_unsigned (2 ^ 32 - 1) s)) _ h in
        let (x, got', e2) = >>=-eq-ok (expect (try_from_u32 n)) _ e1 in
        ok-subst IsExpected (exact x) v e2
          (try_from_u32-IsVersion n x (expect-ok (try_from_u32 n) x got'))
  ]
]

pub unwrap-ok : {E A : Type 0} (o : Option A) (a : A) → unwrap {E = E} o ≡ ok a → o ≡ some a
unwrap-ok none a e = cc
unwrap-ok (some x) a e = cc

log_or_number-IsReadPosition :
    {E : Type 0} (s : Str) (pieces : Str × Option Str) (x : Position)
    → log_or_number {E = E} s pieces ≡ ok x
    → IsReadPosition x
unfolding log_or_number
log_or_number-IsReadPosition s (a, some rest) x e =
    let (i, gi, e1) = >>=-eq-ok (unwrap (parse_i64 a)) _ e in
    let (commit, gc, e2) = >>=-eq-ok (from_i64 i) _ e1 in
    let (j, gj, e3) = >>=-eq-ok (unwrap (parse_i64 (split_comma rest).0)) _ e2 in
    let (prepare, gp, e4) = >>=-eq-ok (from_i64 j) _ e3 in
    let same : x ≡ log commit prepare = cc in
    rw same (
      from_i64-IsPosition i commit (parse_i64-IsI64 a i (unwrap-ok _ i gi)) gc,
      from_i64-IsPosition j prepare (parse_i64-IsI64 _ j (unwrap-ok _ j gj)) gp,
    )
log_or_number-IsReadPosition s (a, none) x e =
    let (n, got, e1) = >>=-eq-ok (unwrap (parse_unsigned (2 ^ 32 - 1) s)) _ e in
    let (v, got', e2) = >>=-eq-ok (expect (try_from_u32 n)) _ e1 in
    let same : x ≡ Position.exact v = cc in
    rw same (try_from_u32-IsVersion n v (expect-ok (try_from_u32 n) v got'))

-- A position of the command line is in range.
pub position_of-IsReadPosition :
    {E : Type 0} (s : Str) (x : Position) → position_of {E = E} s ≡ ok x → IsReadPosition x
unfolding position_of
position_of-IsReadPosition s x e = elim (Bool-cases (eq_str s first_name)) [
  | inl t ↦ ok-subst IsReadPosition Position.first x (let h = rw t at e in h) tt
  | inr t ↦ elim (Bool-cases (eq_str s last_name)) [
    | inl u ↦ ok-subst IsReadPosition Position.last x (let h = rw (t, u) at e in h) tt
    | inr u ↦ log_or_number-IsReadPosition s (split_comma s) x (let h = rw (t, u) at e in h)
  ]
]

-- What a position is turned into is in range.
pub into_event_number-IsNumber :
    {E : Type 0} (x : Position) (n : EventNumber)
    → IsReadPosition x
    → into_event_number {E = E} x ≡ ok n
    → IsNumber n
unfolding into_event_number
into_event_number-IsNumber Position.first n h e =
    let same : n ≡ EventNumber.first = cc in rw same tt
into_event_number-IsNumber (Position.exact v) n h e =
    let same : n ≡ EventNumber.exact v = cc in rw same h
into_event_number-IsNumber (log a b) n h e = cc
into_event_number-IsNumber Position.last n h e = let same : n ≡ EventNumber.last = cc in rw same tt

pub into_log_position-IsPosition :
    {E : Type 0} (x : Position) (a b : LogPosition)
    → IsReadPosition x
    → into_log_position {E = E} x ≡ ok (a, b)
    → IsPosition a × IsPosition b
unfolding into_log_position
into_log_position-IsPosition Position.first a b h e =
    let sa : a ≡ LogPosition.first = cc in
    let sb : b ≡ LogPosition.first = cc in rw (sa, sb) (tt, tt)
into_log_position-IsPosition (Position.exact v) a b h e = cc
into_log_position-IsPosition (log x y) a b h e =
    let sa : a ≡ x = cc in let sb : b ≡ y = cc in rw (sa, sb) h
into_log_position-IsPosition Position.last a b h e =
    let sa : a ≡ LogPosition.last = cc in let sb : b ≡ LogPosition.last = cc in rw (sa, sb) (tt, tt)
