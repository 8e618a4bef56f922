-- ===== src/Testclient/Parse.antt =====
-- What testclient/src calls of `str` of the standard library: equality, `split` at a comma and
-- `parse` of numbers.
use eventstore_tcp.Prelude.{
  ℕ, zero, suc, Bool, true, false, Str, Option, none, some, [], ◌∷◌, ◌+◌, ◌-◌, ◌*◌, ◌≤◌, ◌^◌, ◌≡◌,
  ◌&&◌, leb, ◌==◌, if◌then◌else◌, arith, Bool-cases, inl, inr,
}
use eventstore_tcp.Prelude.Int.{ℤ, pos, negsuc, IsI64}

unfoldable pub eq_str : Str → Str → Bool
eq_str [] [] = true
eq_str [] (b ∷ bs) = false
eq_str (a ∷ rest) [] = false
eq_str (a ∷ rest) (b ∷ bs) = (a == b) && eq_str rest bs

-- `split(",")`: the first piece, and what stands behind its comma, where there is one.
unfoldable pub split_comma : Str → Str × Option Str
split_comma [] = ([], none)
split_comma (b ∷ bs) =
    let (piece, rest) = split_comma bs in if b == 44 then ([], some bs) else (b ∷ piece, rest)

-- The number that decimal digits spell behind `n`; none where there is another byte.
digits : ℕ → Str → Option ℕ
digits n [] = some n
digits n (b ∷ bs) =
    let rest = digits (10 * n + (b - 48)) bs in if leb 48 b && leb b 57 then rest else none

-- One digit at least.
number : Str → Option ℕ
unfolding digits
number [] = none
number (b ∷ bs) = digits 0 (b ∷ bs)

at_most : ℕ → Option ℕ → Option ℕ
at_most max none = none
at_most max (some n) = if leb n max then some n else none

-- `parse` of an unsigned type whose largest value is `max`, with or without a plus sign. The source
-- refuses as soon as a digit overflows, which is when the whole number is too large.
unfoldable pub parse_unsigned : ℕ → Str → Option ℕ
unfolding number at_most
parse_unsigned max [] = none
parse_unsigned max (b ∷ bs) = at_most max (if b == 43 then number bs else number (b ∷ bs))

positive : Option ℕ → Option ℤ
positive none = none
positive (some n) = some (pos n)

negative : Option ℕ → Option ℤ
negative none = none
negative (some zero) = some (pos zero)
negative (some (suc n)) = some (negsuc n)

-- `parse::<i64>`
unfoldable pub parse_i64 : Str → Option ℤ
unfolding number at_most positive negative
parse_i64 [] = none
parse_i64 (b ∷ bs) =
    if b == 45
    then negative (at_most (2 ^ 63) (number bs))
    else positive (at_most (2 ^ 63 - 1) (if b == 43 then number bs else number (b ∷ bs)))

at_most_le : (max n : ℕ) (o : Option ℕ) → at_most max o ≡ some n → n ≤ max
unfolding at_most
at_most_le max n none e = cc
at_most_le max n (some k) e = ground arith

pub parse_unsigned_le : (max n : ℕ) (s : Str) → parse_unsigned max s ≡ some n → n ≤ max
unfolding parse_unsigned
parse_unsigned_le max n [] e = cc
parse_unsigned_le max n (b ∷ bs) e = at_most_le max n _ e

positive-IsI64 : (i : ℤ) (o : Option ℕ) → positive (at_most (2 ^ 63 - 1) o) ≡ some i → IsI64 i
unfolding positive at_most
positive-IsI64 i none e = cc
positive-IsI64 i (some n) e = ground arith

negative-IsI64 : (i : ℤ) (o : Option ℕ) → negative (at_most (2 ^ 63) o) ≡ some i → IsI64 i
unfolding negative at_most
negative-IsI64 i none e = cc
negative-IsI64 i (some n) e = ground arith

pub parse_i64-IsI64 : (s : Str) (i : ℤ) → parse_i64 s ≡ some i → IsI64 i
unfolding parse_i64
parse_i64-IsI64 [] i e = cc
parse_i64-IsI64 (b ∷ bs) i e = elim (Bool-cases (b == 45)) [
  | inl minus ↦ negative-IsI64 i (number bs) (let h = rw minus at e in h)
  | inr plus ↦
      positive-IsI64 i (if b == 43 then number bs else number (b ∷ bs)) (let h = rw plus at e in h)
]
