-- ===== src/Testclient/Names.antt =====
-- The number on the wire that the expected version of a command line names, in testclient/src/main.rs.
use eventstore_tcp.Prelude.{
  ℕ, true, false, Str, some, ok, [], ◌∷◌, ◌-◌, ◌^◌, ◌≡◌, ◌≢◌, refl, sym, ◌∙◌, unwrap, >>=-eq-ok,
  Bool-cases, inl, inr, ◌==◌, ==_iff, arith,
}
use eventstore_tcp.Prelude.Int.{as_i32, ℤ, pos, negsuc}
use eventstore_tcp.Version.{
  ExpectedVersion, any, no_stream, exact, StreamVersion, try_from_u32, expected_version_to_i32,
  version_to_i32,
}
use eventstore_tcp.Testclient.Parse.{eq_str, parse_unsigned}
use eventstore_tcp.Testclient.Read.{expect}
use eventstore_tcp.Testclient.Prepare.{version_of, any_name, created_name}
use eventstore_tcp.Testclient.Ranges.{ok-subst, unwrap-ok, expect-ok}

eq_str-eq : (s t : Str) → eq_str s t ≡ true → s ≡ t
unfolding eq_str
eq_str-eq [] [] h = refl
eq_str-eq [] (b ∷ t) h = cc
eq_str-eq (a ∷ s) [] h = cc
eq_str-eq (a ∷ s) (b ∷ t) h = elim (Bool-cases (a == b)) [
  | inl e ↦
      let rest = eq_str-eq s t (let k = rw e at h in k) in
      let same : a ≡ b = (==_iff a b).0 e in rw (same, rest)
  | inr e ↦ absurd (let k = rw e at h in cc)
]

-- The number on the wire that an argument names: -2 for "any", -1 for "created", and otherwise the one
-- that it spells.
abbrev pub Names : Str → ℤ → Type 0
Names s i =
    (s ≡ any_name → i ≡ negsuc 1)
    × (s ≡ created_name → i ≡ negsuc 0)
    × (s ≢ any_name
        → s ≢ created_name
        → (n : ℕ) × (parse_unsigned (2 ^ 32 - 1) s ≡ some n) × (i ≡ pos n))

version_number :
    (n : ℕ) (v : StreamVersion) → try_from_u32 n ≡ ok v → expected_version_to_i32 (exact v) ≡ pos n
unfolding try_from_u32 expected_version_to_i32 version_to_i32 as_i32
version_number n v e = ground arith

eq_str_refl : (s : Str) → eq_str s s ≡ true
unfolding eq_str
eq_str_refl [] = refl
eq_str_refl (b ∷ s) = rw ((==_iff b b).1 refl, eq_str_refl s)

differs : (s t : Str) → eq_str s t ≡ false → s ≢ t
differs s t h e = let k = rw e at h in let one = eq_str_refl t in cc

any_case : (s : Str) → s ≡ any_name → Names s (expected_version_to_i32 any)
unfolding expected_version_to_i32
any_case s e = (λ is. refl, λ is. absurd (let h = sym e ∙ is in cc), λ other both. absurd (other e))

created_case : (s : Str) → s ≡ created_name → Names s (expected_version_to_i32 no_stream)
unfolding expected_version_to_i32
created_case s e =
    (λ is. absurd (let h = sym e ∙ is in cc), λ is. refl, λ other both. absurd (both e))

pub version_of-Names :
    {E : Type 0} (s : Str) (v : ExpectedVersion)
    → version_of {E = E} s ≡ ok v
    → Names s (expected_version_to_i32 v)
unfolding version_of
version_of-Names s v e = elim (Bool-cases (eq_str s any_name)) [
  | inl t ↦
      let is = eq_str-eq s any_name t in
      ok-subst (λ x. Names s (expected_version_to_i32 x)) any v (let h = rw t at e in h)
        (any_case s is)
  | inr t ↦ elim (Bool-cases (eq_str s created_name)) [
    | inl u ↦
        let is = eq_str-eq s created_name u in
        ok-subst (λ x. Names s (expected_version_to_i32 x)) no_stream v
          (let h = rw (t, u) at e in h) (created_case s is)
    | inr u ↦
        let h = rw (t, u) at e in
        let (n, got, e1) = >>=-eq-ok (unwrap (parse_unsigned (2 ^ 32 - 1) s)) _ h in
        let (x, got', e2) = >>=-eq-ok (expect (try_from_u32 n)) _ e1 in
        ok-subst (λ y. Names s (expected_version_to_i32 y)) (exact x) v e2
          (
            λ is. absurd (differs s any_name t is),
            λ is. absurd (differs s created_name u is),
            λ a b. (
              n,
              unwrap-ok (parse_unsigned (2 ^ 32 - 1) s) n got,
              version_number n x (expect-ok (try_from_u32 n) x got'),
            ),
          )
  ]
]
