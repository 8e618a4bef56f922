-- ===== src/Protobuf/Forward.antt =====
-- Reads that end and go forward, built from others, the read loop included.
use eventstore_tcp.Prelude.{
  ℕ, zero, suc, Bytes, Outcome, ok, err, panic, stuck, List, [], ◌∷◌, ◌≤◌, ◌<◌, ◌≡◌, ◌≢◌, refl,
  length, arith, All, ◌==◌, Bool-cases, inl, inr,
}
use mathlib.Core.Path.{subst}
use eventstore_tcp.Protobuf.{Rd, Protobuf, ◌>>=◌, pure, continue, read_fields, match_tag}
use eventstore_tcp.Protobuf.Laws.{IsProtobuf, IsForward}

pub pure-IsForward : {A : Type 0} (a : A) → IsForward (pure a)
unfolding pure
pure-IsForward a = record { ends = λ r e. cc; onward = λ r. omega arith }

continue_forward :
    {A B : Type 0} (o : Outcome ℕ A) (f : A → Rd B) (r : Bytes)
    → o ≢ stuck
    → ((a : A) → IsForward (f a))
    → ((continue o f r).0 ≢ stuck) × (length (continue o f r).1 ≤ length r)
continue_forward (ok a) f r ne k = ((k a).ends r, (k a).onward r)
continue_forward (err e) f r ne k = (λ x. cc, omega arith)
continue_forward panic f r ne k = (λ x. cc, omega arith)
continue_forward stuck f r ne k = absurd (ne refl)

pub >>=-IsForward :
    {A B : Type 0} (m : Rd A) (f : A → Rd B)
    → IsForward m
    → ((a : A) → IsForward (f a))
    → IsForward (m >>= f)
unfolding ◌>>=◌
>>=-IsForward m f h k = record {
  ends = λ r. (continue_forward (m r).0 f (m r).1 (h.ends r) k).0;
  onward = λ r. omega (arith, h.onward r, (continue_forward (m r).0 f (m r).1 (h.ends r) k).1);
}

-- A read whose value goes into a message.
pub set-IsForward :
    {A M : Type 0} {rd : Rd A} (upd : A → M) → IsForward rd → IsForward (rd >>= λ a. pure (upd a))
set-IsForward {rd} upd h = >>=-IsForward rd (λ a. pure (upd a)) h (λ a. pure-IsForward (upd a))

pub match_tag-IsForward :
    {M : Type 0} (t : ℕ) (arms : List (ℕ × Rd M)) (other : Rd M)
    → All (λ arm. IsForward arm.1) arms
    → IsForward other
    → IsForward (match_tag t arms other)
match_tag-IsForward t [] other all h = h
match_tag-IsForward t ((k, rd) ∷ arms) other all h = elim (Bool-cases (t == k)) [
  | inl e ↦ rw e all.0
  | inr e ↦ rw e (match_tag-IsForward t arms other all.1 h)
]

-- The rest of a round, from what a read did.
Ends-continue :
    {A B : Type 0} (x : Outcome ℕ A × Bytes) (f : A → Rd B) (r : Bytes)
    → x.0 ≢ stuck
    → length x.1 ≤ length r
    → ((a : A) (r' : Bytes)
        → x ≡ (ok a, r')
        → ((f a r').0 ≢ stuck) × (length (f a r').1 ≤ length r))
    → ((continue x.0 f x.1).0 ≢ stuck) × (length (continue x.0 f x.1).1 ≤ length r)
Ends-continue (ok a, r') f r ne le k = k a r' refl
Ends-continue (err e, r') f r ne le k = (λ x. cc, le)
Ends-continue (panic, r') f r ne le k = (λ x. cc, le)
Ends-continue (stuck, r') f r ne le k = absurd (ne refl)

module _ {p : Protobuf} (q : IsProtobuf p) {M : Type 0} (step : M → ℕ → Rd M) where
  module _ (forward : (m : M) (t : ℕ) → IsForward (step m t)) where
    loop_forward :
        (n : ℕ) (m : M) (r : Bytes)
        → length r < n
        → ((read_fields p step n m r).0 ≢ stuck) × (length (read_fields p step n m r).1 ≤ length r)
    unfolding read_fields ◌>>=◌
    loop_forward zero m r h = absurd (omega arith)
    loop_forward (suc n) m r h = elim (Bool-cases (p.is_eof r)) [
      | inl e ↦ rw (read_fields, e) (λ x. cc, omega arith)
      | inr e ↦
          rw (read_fields, e)
            (Ends-continue (p.next_tag r) (λ t. step m t >>= λ m'. read_fields p step n m') r
              (q.next_tag_forward.ends r) (q.next_tag_forward.onward r)
              (λ t r' tag.
                let less = q.next_tag_onward r r' t tag in
                Ends-continue (step m t r') (λ m'. read_fields p step n m') r
                  ((forward m t).ends r') (omega (arith, (forward m t).onward r'))
                  (λ m' r'' got.
                    let shorter =
                      subst (λ (x : Outcome ℕ M × Bytes). length x.1 ≤ length r') got
                        ((forward m t).onward r') in
                    let rest = loop_forward n m' r'' (omega arith) in
                    (rest.0, omega (arith, rest.1)))))
    ]

    pub read_fields-IsForward : (m : M) → IsForward (λ r. read_fields p step (suc (length r)) m r)
    read_fields-IsForward m = record {
      ends = λ r. (loop_forward (suc (length r)) m r (omega arith)).0;
      onward = λ r. (loop_forward (suc (length r)) m r (omega arith)).1;
    }
