-- ===== src/Adapted/Keeps.antt =====
-- What the conversions of src/adapted/mod.rs share: `Result`, and errors that hold a message.
use eventstore_tcp.Prelude.{
  Outcome, ok, err, panic, stuck, ◌>>=◌, map_err, ◌≡◌, Option-cases, inl, inr,
}
use eventstore_tcp.Prelude.Int.{ℤ}
use eventstore_tcp.Errors.{ErrorKind}
use eventstore_tcp.Position.{from_i64, from_i64_opt}

-- `Result<A, E>` inside a message.
pub data Result (A E : Type 0) : Type 0 where
  success : A → Result A E
  failure : E → Result A E

-- An error of a conversion holds the message that was to be converted.
abbrev pub Keeps : {M A : Type 0} → M → Outcome (M × ErrorKind) A → Type 0
Keeps {M} msg o = (m : M) (e : ErrorKind) → o ≡ err (m, e) → m ≡ msg

module _ {M : Type 0} {msg : M} where
  pub Keeps-ok : {A : Type 0} (a : A) → Keeps msg (ok a)
  Keeps-ok a m e h = cc

  pub Keeps-panic : {A : Type 0} → Keeps {A = A} msg panic
  Keeps-panic m e h = cc

  pub Keeps-err : {A : Type 0} (e : ErrorKind) → Keeps {A = A} msg (err (msg, e))
  Keeps-err e m e' h = cc

  pub Keeps->>= :
      {A B : Type 0} (o : Outcome (M × ErrorKind) A) (f : A → Outcome (M × ErrorKind) B)
      → Keeps msg o
      → ((a : A) → Keeps msg (f a))
      → Keeps msg (o >>= f)
  Keeps->>= (ok a) f h k = k a
  Keeps->>= (err (m', e')) f h k = λ m e eq. h m e (cc eq)
  Keeps->>= panic f h k = Keeps-panic
  Keeps->>= stuck f h k = λ m e eq. cc

  pub Keeps-map_err : {A : Type 0} (o : Outcome ErrorKind A) → Keeps msg (map_err (λ e. (msg, e)) o)
  Keeps-map_err (ok a) = Keeps-ok a
  Keeps-map_err (err e) = Keeps-err e
  Keeps-map_err panic = Keeps-panic
  Keeps-map_err stuck = λ m e eq. cc

  pub Keeps-from_i64 : (i : ℤ) → Keeps msg (from_i64 i)
  unfolding from_i64
  Keeps-from_i64 i = elim (Option-cases (from_i64_opt i)) [
    | inl refused ↦ rw (from_i64, refused) Keeps-panic
    | inr (p, read) ↦ rw (from_i64, read) (Keeps-ok p)
  ]
