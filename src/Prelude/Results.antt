-- ===== src/Prelude/Results.antt =====
-- What a Rust function ends in: a value, an error of its `Result`, or a panic. `stuck` is no Rust
-- outcome: it marks a loop of the model that ran out of fuel.
use mathlib.Core.Path.{◌≡◌, refl}
use mathlib.Core.Option.{Option, none, some}
use mathlib.Core.Bool.{Bool, true, false}

pub data Outcome {ℓ} (E : Type 0) (A : Type ℓ) : Type ℓ where
  ok : A → Outcome E A
  err : E → Outcome E A
  panic : Outcome E A
  stuck : Outcome E A

module _ {ℓ κ} {E : Type 0} {A : Type ℓ} {B : Type κ} where
  infixl 5 ◌>>=◌
  -- `?`: only a value goes on to what follows.
  abbrev pub ◌>>=◌ : Outcome E A → (A → Outcome E B) → Outcome E B
  panic >>= next = panic
  stuck >>= next = stuck
  err failure >>= next = err failure
  ok value >>= next = next value

  -- What a value at the end says of the first of two steps, and of the second.
  pub >>=-eq-ok :
      (first : Outcome E A) (next : A → Outcome E B) {result : B}
      → (first >>= next) ≡ ok result
      → (value : A) × (first ≡ ok value) × (next value ≡ ok result)
  >>=-eq-ok panic next ends = cc
  >>=-eq-ok stuck next ends = cc
  >>=-eq-ok (err failure) next ends = cc
  >>=-eq-ok (ok value) next ends = (value, refl, ends)

module _ {ℓ} {E : Type 0} {B : Type ℓ} where
  infixl 5 ◌>>◌
  abbrev pub ◌>>◌ : Outcome E (Unit {0}) → Outcome E B → Outcome E B
  done >> next = done >>= λ _. next

-- `map_err`
abbrev pub map_err {ℓ} : {E F : Type 0} {A : Type ℓ} → (E → F) → Outcome E A → Outcome F A
map_err f (ok a) = ok a
map_err f (err e) = err (f e)
map_err f panic = panic
map_err f stuck = stuck

-- `assert!`
abbrev pub assert : {E : Type 0} → Bool → Outcome E (Unit {0})
assert true = ok tt
assert false = panic

-- `Option::unwrap` and `Option::expect`
abbrev pub unwrap {ℓ} : {E : Type 0} {A : Type ℓ} → Option A → Outcome E A
unwrap none = panic
unwrap (some a) = ok a
