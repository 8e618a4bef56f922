-- ===== src/Testclient/CommandLine.antt =====
-- From the command line and the environment of testclient/src/main.rs to the request that is sent.
use eventstore_tcp.Prelude.{
  ℕ, Str, Option, none, some, ok, unwrap, unwrap_or, [], ◌∷◌, ◌<◌, ◌≡◌, refl, arith, >>=-eq-ok,
  Bool-cases, inl, inr,
}
use eventstore_tcp.Protobuf.{Protobuf}
use eventstore_tcp.Protobuf.Laws.{IsText}
use eventstore_tcp.Protobuf.Loop.{OptAll}
use eventstore_tcp.Raw.Validity.{IsValid}
use eventstore_tcp.Codec.{Package}
use eventstore_tcp.Builder.Ranges.{OptAll-unwrap}
use eventstore_tcp.Testclient.Parse.{eq_str, parse_unsigned, parse_unsigned_le}
use eventstore_tcp.Testclient.Read.{
  Position, ReadMode, forward_once, backward, position_in, count_in, into_request,
}
use eventstore_tcp.Testclient.Output.{OutputMode}
use eventstore_tcp.Testclient.Prepare.{
  ReadArgs, Read, prepare_read, count_of, mode_of, all_name, forward_once_name, backward_name,
  position_or_first, output_or_debug,
}
use eventstore_tcp.Testclient.Commands.{Config, read_request}
use eventstore_tcp.Testclient.Ranges.{
  IsReadPosition, position_of-IsReadPosition, ok-subst, unwrap-ok,
}
use eventstore_tcp.Testclient.Requests.{into_request-IsValid}

-- A count of the command line is that of a `u8`.
count_of-small :
    {E : Type 0} (arg : Option Str) (o : Option ℕ)
    → count_of {E = E} arg ≡ ok o
    → unwrap_or o 10 < 256
unfolding count_of
count_of-small arg o e = elim (Bool-cases (eq_str (unwrap_or arg (49 ∷ [])) all_name)) [
  | inl t ↦ ok-subst (λ x. unwrap_or x 10 < 256) none o (let h = rw t at e in h) (omega arith)
  | inr t ↦
      let h = rw t at e in
      let (n, got, e1) = >>=-eq-ok (unwrap (parse_unsigned 255 (unwrap_or arg (49 ∷ [])))) _ h in
      ok-subst (λ x. unwrap_or x 10 < 256) (some n) o e1
        (omega (arith, parse_unsigned_le 255 n _ (unwrap-ok _ n got)))
]

-- A mode has the position and the count that were read.
mode_of-same :
    {E : Type 0} (arg : Option Str) (x : Position) (count : Option ℕ) (mode : ReadMode)
    → mode_of {E = E} arg x count ≡ ok mode
    → (position_in mode ≡ x) × (count_in mode ≡ unwrap_or count 10)
unfolding mode_of
mode_of-same none x count mode e =
    ok-subst (λ m. (position_in m ≡ x) × (count_in m ≡ unwrap_or count 10)) _ mode e (refl, refl)
mode_of-same (some s) x count mode e = elim (Bool-cases (eq_str s forward_once_name)) [
  | inl t ↦
      ok-subst (λ m. (position_in m ≡ x) × (count_in m ≡ unwrap_or count 10))
        (forward_once x (unwrap_or count 10)) mode (let h = rw t at e in h) (refl, refl)
  | inr t ↦ elim (Bool-cases (eq_str s backward_name)) [
    | inl u ↦
        ok-subst (λ m. (position_in m ≡ x) × (count_in m ≡ unwrap_or count 10))
          (backward x (unwrap_or count 10)) mode (let h = rw (t, u) at e in h) (refl, refl)
    | inr u ↦ absurd (let h = rw (t, u) at e in cc)
  ]
]

-- What was read of the command line of a read.
record IsPrepared (args : ReadArgs) (r : Read) : Type 0 where
  mode : ReadMode
  taken : r.read_mode ≡ some mode
  stream : unwrap {E = Unit {0}} args.stream_id ≡ ok r.stream_id
  position : IsReadPosition (position_in mode)
  small : count_in mode < 256

prepare_read-IsPrepared :
    {E : Type 0} (args : ReadArgs) (r : Read) → prepare_read {E = E} args ≡ ok r → IsPrepared args r
unfolding prepare_read position_or_first
prepare_read-IsPrepared args r e =
    let (id, g1, e1) = >>=-eq-ok (unwrap args.stream_id) _ e in
    let (count, g2, e2) = >>=-eq-ok (count_of args.count) _ e1 in
    let (x, g3, e3) = >>=-eq-ok (position_or_first args.position) _ e2 in
    let (mode, g4, e4) = >>=-eq-ok (mode_of args.mode x count) _ e3 in
    let (output, g5, e5) = >>=-eq-ok (output_or_debug args.output) _ e4 in
    let (same_x, same_count) = mode_of-same args.mode x count mode g4 in
    record {
      mode = mode;
      taken = cc;
      stream = let id_same : r.stream_id ≡ id = cc in rw (unwrap-ok args.stream_id id g1, id_same);
      position = rw same_x (position_of-IsReadPosition _ x g3);
      small = rw same_count (count_of-small args.count count g2);
    }

-- The request of a read has its text and its numbers in range, if the name of the stream is a text.
pub read_command-IsValid :
    {E Uuid : Type 0} (p : Protobuf) (fresh : Uuid) (config : Config) (args : ReadArgs)
    (r left : Read) (pkg : Package Uuid) (output : OutputMode)
    → OptAll IsText args.stream_id
    → prepare_read {E = E} args ≡ ok r
    → read_request {E = E} fresh config r ≡ ok (pkg, output, left)
    → IsValid p pkg.message
unfolding read_request
read_command-IsValid {E = E} p fresh config args r left pkg output text prepared sent =
    let set = prepare_read-IsPrepared args r prepared in
    let (out, g1, e1) = >>=-eq-ok (unwrap r.output_mode) _ sent in
    let (mode, g2, e2) = >>=-eq-ok (unwrap r.read_mode) _ e1 in
    let (pkg', g3, e3) = >>=-eq-ok (into_request fresh mode r.stream_id config.credentials) _ e2 in
    let same_mode : mode ≡ set.mode = cc in
    let same : pkg ≡ pkg' = cc in
    rw same (
      into_request-IsValid p fresh config.credentials mode r.stream_id pkg'
        (OptAll-unwrap IsText args.stream_id r.stream_id text set.stream)
        (rw same_mode set.position) (rw same_mode set.small) g3)
