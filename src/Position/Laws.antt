-- ===== src/Position/Laws.antt =====
-- Log positions and the `i64`s that stand for them on the wire.
use eventstore_tcp.Prelude.{
  ◌↔◌, ◌≢◌, Option-cases, inl, inr, sym, ap, ◌∙◌, ℕ, zero, suc, ◌-◌, ◌^◌, ◌≤◌, ◌<◌, ◌≡◌, refl, ok,
  panic, some, arith, Bool, true, false,
}
use eventstore_tcp.Prelude.Int.{ℤ, pos, negsuc, IsI64, as_i64, as_u64, as_i64_small}
use eventstore_tcp.Position.{
  LogPosition, first, exact, last, from_i64_opt, from_i64, into_i64, from_opt,
}

-- `i < -1`
abbrev pub lt_minus_one : ℤ → Bool
lt_minus_one (negsuc (suc n)) = true
lt_minus_one _ = false

-- An exact position stands behind the first one and fits an `i64`.
abbrev pub IsPosition : LogPosition → Type 0
IsPosition (exact n) = (1 ≤ n) × (n < 2 ^ 63)
IsPosition _ = Unit

-- Every well-formed position is read back from the `i64` that it is written as.
pub from_i64_opt-into_i64 : (p : LogPosition) → IsPosition p → from_i64_opt (into_i64 p) ≡ some p
unfolding from_i64_opt into_i64 as_u64
from_i64_opt-into_i64 first h = refl
from_i64_opt-into_i64 (exact zero) h = absurd (omega arith)
from_i64_opt-into_i64 (exact (suc n)) h = rw (as_i64_small (suc n) h.1) (ground arith)
from_i64_opt-into_i64 last h = refl

-- An `i64` that is read comes from a well-formed position that is written back as the same `i64`.
pub into_i64-from_i64_opt :
    (i : ℤ) (p : LogPosition) → IsI64 i → from_i64_opt i ≡ some p → (into_i64 p ≡ i) × IsPosition p
unfolding from_i64_opt into_i64 as_u64 as_i64
into_i64-from_i64_opt (pos zero) first h e = (refl, tt)
into_i64-from_i64_opt (pos zero) _ h e = cc
into_i64-from_i64_opt (pos (suc n)) (exact m) h e = (ground arith, ground arith)
into_i64-from_i64_opt (pos (suc n)) _ h e = cc
into_i64-from_i64_opt (negsuc zero) last h e = (refl, tt)
into_i64-from_i64_opt (negsuc zero) _ h e = cc
into_i64-from_i64_opt (negsuc (suc n)) p h e = cc

-- `From<i64>` panics on exactly the numbers below -1.
pub from_i64_panics : {E : Type 0} (i : ℤ) → (from_i64 {E = E} i ≡ panic) ↔ (lt_minus_one i ≡ true)
unfolding from_i64 from_i64_opt
from_i64_panics (pos zero) = (λ h. cc, λ h. cc)
from_i64_panics (pos (suc n)) = (λ h. cc, λ h. cc)
from_i64_panics (negsuc zero) = (λ h. cc, λ h. cc)
from_i64_panics (negsuc (suc n)) = (λ h. refl, λ h. refl)

-- On the non-negative `i64`s, `from_opt` makes the position that `from_i64_opt` reads of all but the
-- largest: `i64::max_value` itself it refuses.
pub from_opt-from_i64_opt :
    (n : ℕ) → n < 2 ^ 63 → (from_opt n ≡ from_i64_opt (pos n)) ↔ (n ≢ 2 ^ 63 - 1)
unfolding from_opt from_i64_opt as_u64
from_opt-from_i64_opt zero h = (λ e m. omega arith, λ ne. refl)
from_opt-from_i64_opt (suc n) h = (λ e m. (let e2 = rw m at e in cc), λ ne. ground arith)

-- The same through `From<i64>`, which panics where `from_i64_opt` answers nothing.
pub from_i64-into_i64 :
    {E : Type 0} (p : LogPosition) → IsPosition p → from_i64 {E = E} (into_i64 p) ≡ ok p
unfolding from_i64
from_i64-into_i64 p h = rw (from_i64, from_i64_opt-into_i64 p h)

pub into_i64-from_i64 :
    {E : Type 0} (i : ℤ) (p : LogPosition)
    → IsI64 i
    → from_i64 {E = E} i ≡ ok p
    → (into_i64 p ≡ i) × IsPosition p
unfolding from_i64
into_i64-from_i64 {E} i p h e = elim (Option-cases (from_i64_opt i)) [
  | inl refused ↦ let e' = rw (from_i64, refused) at e in cc
  | inr (p', read) ↦
      let e' = rw (from_i64, read) at e in
      let same : p ≡ p' = cc in into_i64-from_i64_opt i p h (read ∙ ap some (sym same))
]

-- On the other numbers `From<i64>` returns the position that `from_i64_opt` reads.
pub from_i64_total :
    {E : Type 0} (i : ℤ)
    → lt_minus_one i ≡ false
    → (p : LogPosition) × (from_i64 {E = E} i ≡ ok p) × (from_i64_opt i ≡ some p)
unfolding from_i64 from_i64_opt
from_i64_total (pos zero) h = (first, refl, refl)
from_i64_total (pos (suc n)) h = (_, refl, refl)
from_i64_total (negsuc zero) h = (last, refl, refl)
from_i64_total (negsuc (suc n)) h = cc
