-- ===== src/Protobuf/Loop.antt =====
-- Reading back a row of fields: `Reads` says that the loop, started at one message on some bytes,
-- ends at another with nothing left. One lemma for each way in which a field is written.
use eventstore_tcp.Prelude.{
  ℕ, zero, suc, true, false, Bytes, ok, Outcome, List, [], ◌∷◌, ◌++◌, ◌^◌, ◌<◌, ◌≡◌, refl, ap, ◌∙◌,
  Option, none, some, length, length-append, append_assoc, arith, All, ltb, ltb→lt, if◌then◌else◌,
  Bool, true, false, append-nil,
}
use eventstore_tcp.Protobuf.{
  Rd, Protobuf, ◌>>=◌, pure, read_fields, write_opt, write_each, continue,
}
use eventstore_tcp.Protobuf.Laws.{IsProtobuf}

-- `rd` reads the value `v` off the bytes `w`, whatever follows them.
pub record ReadsBack {A : Type 0} (rd : Rd A) (w : Bytes) (v : A) : Type 0 where
  pub back : (r : Bytes) → rd (w ++ r) ≡ (ok v, r)

abbrev pub OptAll : {A : Type 0} → (A → Type 0) → Option A → Type 0
OptAll P none = Unit
OptAll P (some a) = P a

-- A step whose read succeeds goes on with its result.
pub bind_ok :
    {A B : Type 0} (m : Rd A) (f : A → Rd B) {a : A} {r r' : Bytes}
    → m r ≡ (ok a, r')
    → (m >>= f) r ≡ f a r'
unfolding ◌>>=◌
bind_ok m f e = ap (λ (x : Outcome ℕ _ × Bytes). continue x.0 f x.1) e

module _ {p : Protobuf} (q : IsProtobuf p) where
  eof_pos : (s : Bytes) → 0 < length s → p.is_eof s ≡ false
  eof_pos [] h = absurd (omega arith)
  eof_pos (b ∷ s) h = q.eof_cons b s

  pub message_ReadsBack :
      (M : Type 0) (f : Rd M) (m : M) (n : ℕ) (s : Bytes)
      → n < 2 ^ 31
      → length s ≡ n
      → f s ≡ (ok m, [])
      → ReadsBack (p.read_message M f) (p.write_message n s) m
  message_ReadsBack M f m n s fits e h =
      rw (← e) (record { back = λ r. q.message_back M f m s r (omega arith) h })

module _ {p : Protobuf} (q : IsProtobuf p) {M : Type 0} (step : M → ℕ → Rd M) where
  pub record Reads (m : M) (s : Bytes) (m' : M) : Type 0 where
    pub at : (n : ℕ) → length s < n → read_fields p step n m s ≡ (ok m', [])

  read_end : (n : ℕ) (m : M) → 0 < n → read_fields p step n m [] ≡ (ok m, [])
  unfolding read_fields
  read_end zero m h = absurd (omega arith)
  read_end (suc n) m h = rw (read_fields, q.eof_nil)

  pub Reads-nil : (m : M) → Reads m [] m
  Reads-nil m = record { at = λ n h. read_end n m h }

  -- One round of the loop.
  read_field :
      (n t : ℕ) {A : Type 0} (rd : Rd A) (w s : Bytes) (v : A) (upd : A → M) (m : M)
      → ltb t 128 ≡ true
      → ReadsBack rd w v
      → step m t ≡ (rd >>= λ a. pure (upd a))
      → read_fields p step (suc n) m (p.write_with_tag t w ++ s) ≡ read_fields p step n (upd v) s
  unfolding read_fields
  read_field n t rd w s v upd m lt' b e =
      let lt : t < 128 = ltb→lt t 128 lt' in
      rw
        (
          read_fields,
          eof_pos q (p.write_with_tag t w ++ s)
              (omega (arith, q.tag_size t w lt, length-append (p.write_with_tag t w) s)),
        )
        (bind_ok p.next_tag _ (q.next_tag_back t w s lt)
          ∙ bind_ok (step m t) _ (rw e (bind_ok rd _ (b.back s) ∙ (unfold pure in refl))))

  pub Reads-field :
      (t : ℕ) {A : Type 0} {rd : Rd A} {w : Bytes} {v : A} (upd : A → M) {m : M} {s : Bytes}
      {m' : M}
      → ltb t 128 ≡ true
      → ReadsBack rd w v
      → step m t ≡ (rd >>= λ a. pure (upd a))
      → Reads (upd v) s m'
      → Reads m (p.write_with_tag t w ++ s) m'
  Reads-field t {rd} {w} {v} upd {m} {s} {m'} lt b e h = record { at = go }
    where
      go :
          (n : ℕ)
          → length (p.write_with_tag t w ++ s) < n
          → read_fields p step n m (p.write_with_tag t w ++ s) ≡ (ok m', [])
      go zero l = absurd (omega arith)
      go (suc n) l =
          read_field n t rd w s v upd m lt b e
          ∙ h.at n (
              omega
                (arith, q.tag_size t w (ltb→lt t 128 lt), length-append (p.write_with_tag t w) s))

  -- `set none` is the message with the field not set.
  pub Reads-opt :
      (t : ℕ) {A : Type 0} (P : A → Type 0) {rd : Rd A} (o : Option A) (w : A → Bytes)
      (set : Option A → M) {s : Bytes} {m' : M}
      → ltb t 128 ≡ true
      → ((a : A) → P a → ReadsBack rd (w a) a)
      → OptAll P o
      → step (set none) t ≡ (rd >>= λ a. pure (set (some a)))
      → Reads (set o) s m'
      → Reads (set none) (write_opt o (λ a. p.write_with_tag t (w a)) ++ s) m'
  Reads-opt t P none w set lt b all e h = h
  Reads-opt t P (some a) w set lt b all e h = Reads-field t (λ x. set (some x)) lt (b a all) e h

  -- A repeated field is appended to what was read so far.
  pub Reads-each :
      (t : ℕ) {A : Type 0} (P : A → Type 0) {rd : Rd A} (acc xs : List A) (w : A → Bytes)
      (set : List A → M) {s : Bytes} {m' : M}
      → ltb t 128 ≡ true
      → ((a : A) → P a → ReadsBack rd (w a) a)
      → All P xs
      → ((l : List A) → step (set l) t ≡ (rd >>= λ a. pure (set (l ++ a ∷ []))))
      → Reads (set (acc ++ xs)) s m'
      → Reads (set acc) (write_each xs (λ a. p.write_with_tag t (w a)) ++ s) m'
  Reads-each t P acc [] w set lt b all e h = rw append-nil at h
  Reads-each t P acc (x ∷ xs) w set {s} {m'} lt b all e h = rw append_assoc (
      Reads-field t (λ a. set (acc ++ a ∷ [])) lt (b x all.0) (e acc)
        (Reads-each t P (acc ++ x ∷ []) xs w set lt b all.1 e (rw append_assoc h)))

  -- A field that is not written where it has the value that it starts with.
  pub Reads-unless :
      (t : ℕ) {A : Type 0} {rd : Rd A} {w : Bytes} {v : A} (skip : Bool) (upd : A → M) {m : M}
      {s : Bytes} {m' : M}
      → ltb t 128 ≡ true
      → ReadsBack rd w v
      → step m t ≡ (rd >>= λ a. pure (upd a))
      → (skip ≡ true → upd v ≡ m)
      → Reads (upd v) s m'
      → Reads m ((if skip then [] else p.write_with_tag t w) ++ s) m'
  Reads-unless t true upd lt b e same h = rw (same refl) at h
  Reads-unless t false upd lt b e same h = Reads-field t upd lt b e h

pub always_opt : {A : Type 0} (o : Option A) → OptAll (λ (a : A). Unit {0}) o
always_opt none = tt
always_opt (some a) = tt
