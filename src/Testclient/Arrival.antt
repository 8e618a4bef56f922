-- ===== src/Testclient/Arrival.antt =====
-- The request of a read of testclient/src, from the command line to the other end of the connection.
use eventstore_tcp.Prelude.{
  Bool, Str, Option, none, some, ok, [], ◌+◌, ◌^◌, ◌≤◌, ◌<◌, ◌≡◌, arith, length, unwrap, >>=-eq-ok,
  inl, inr, IsUtf8, sym, ◌∙◌, Bool-cases, ◌==◌,
}
use eventstore_tcp.Raw.{ReadDirection, discriminator}
use eventstore_tcp.Auth
use eventstore_tcp.Auth.{UsernamePassword}
use eventstore_tcp.Auth.Laws
use eventstore_tcp.Protobuf.{Protobuf}
use eventstore_tcp.Protobuf.Laws.{IsProtobuf, IsText}
use eventstore_tcp.Protobuf.Loop.{OptAll}
use eventstore_tcp.Crates.{Crates, IsCrates}
use eventstore_tcp.Codec.{Package, encode, decode}
use eventstore_tcp.Codec.Frame.{IsValid, IsAuth, frame, body}
use eventstore_tcp.Codec.Encoder.{decode-encode}
use eventstore_tcp.Testclient.Parse.{eq_str}
use eventstore_tcp.Testclient.Read.{ReadMode, count_in, all_stream, into_request}
use eventstore_tcp.Testclient.Output.{OutputMode}
use eventstore_tcp.Testclient.Prepare.{ReadArgs, Read, prepare_read, env_credentials}
use eventstore_tcp.Testclient.Commands.{Config, read_request}
use eventstore_tcp.Testclient.Accepts.{way, code, all_code, stream_code, into_request-Answers}
use eventstore_tcp.Testclient.CommandLine.{read_command-IsValid}

env_credentials-IsAuth :
    {E : Type 0} (u w : Option Str) (cred : Option UsernamePassword)
    → OptAll IsUtf8 u
    → OptAll IsUtf8 w
    → env_credentials {E = E} u w ≡ ok cred
    → IsAuth cred
unfolding env_credentials
env_credentials-IsAuth none w cred hu hw e = let same : cred ≡ none = cc in rw same tt
env_credentials-IsAuth (some u) none cred hu hw e = let same : cred ≡ none = cc in rw same tt
env_credentials-IsAuth (some u) (some w) cred hu hw e =
    let (a, got, e1) = >>=-eq-ok (Auth.new u w) _ e in
    let same : cred ≡ some a = cc in rw same (Laws.new-IsValid u w a hu hw got).0

all_code-byte : (dir : ReadDirection) → all_code dir < 256
all_code-byte ReadDirection.forward = omega arith
all_code-byte ReadDirection.backward = omega arith

stream_code-byte : (dir : ReadDirection) → stream_code dir < 256
stream_code-byte ReadDirection.forward = omega arith
stream_code-byte ReadDirection.backward = omega arith

code-byte : (mode : ReadMode) (id : Str) → code mode id < 256
code-byte mode id = elim (Bool-cases (count_in mode == 1)) [
  | inl one ↦ rw one (omega arith)
  | inr more ↦ elim (Bool-cases (eq_str id all_stream)) [
    | inl all ↦ rw (more, all) (all_code-byte (way mode))
    | inr other ↦ rw (more, other) (stream_code-byte (way mode))
  ]
]

-- A request that was made has a byte as its discriminator, and the credentials that it was made with.
request_header :
    {E Uuid : Type 0} (fresh : Uuid) (cred : Option UsernamePassword) (mode : ReadMode) (id : Str)
    (pkg : Package Uuid)
    → into_request {E = E} fresh mode id cred ≡ ok pkg
    → (discriminator pkg.message < 256) × (pkg.authentication ≡ cred)
request_header {E = E} fresh cred mode id pkg e =
    elim (into_request-Answers {E = E} fresh cred mode id) [
      | inl (t, pkg', made, d, i, a) ↦
          let same : pkg ≡ pkg' = cc in rw same (rw d (code-byte mode id), a)
      | inr (f, bad) ↦ absurd (let h = sym e ∙ bad in cc)
    ]

module _ {Uuid Buf : Type 0} {c : Crates Uuid Buf} (q : IsCrates c) {p : Protobuf} where
  module _ (pb : IsProtobuf p) {E : Type 0} where
    -- The request that any command line of a read sends has the credentials of the environment, and
    -- comes out at the other end as it was: it is encoded into an empty buffer and decoded from it
    -- again, if the texts are texts, the length prefix can tell its size, and the buffer has the room.
    pub read_command_arrives :
        (checks : Bool) (fresh : Uuid) (u w : Option Str) (config : Config) (args : ReadArgs)
        (r left : Read) (pkg : Package Uuid) (output : OutputMode) (buf : Buf)
        → OptAll IsUtf8 u
        → OptAll IsUtf8 w
        → OptAll IsText args.stream_id
        → env_credentials {E = E} u w ≡ ok config.credentials
        → prepare_read {E = E} args ≡ ok r
        → read_request {E = E} fresh config r ≡ ok (pkg, output, left)
        → 4 + length (body c p pkg) < 2 ^ 32
        → c.view buf ≡ []
        → length (frame c p pkg) ≤ c.remaining_mut buf
        → (pkg.authentication ≡ config.credentials)
          × (full drained : Buf) × (encode c p checks pkg buf ≡ ok full)
          × (decode c p full ≡ (ok (some pkg), drained))
          × (c.view drained ≡ [])
    unfolding read_request
    read_command_arrives checks fresh u w config args r left pkg output buf hu hw text env prepared
          sent size empty room =
        let (out, g1, e1) = >>=-eq-ok (unwrap r.output_mode) _ sent in
        let (mode, g2, e2) = >>=-eq-ok (unwrap r.read_mode) _ e1 in
        let (pkg', g3, e3) =
          >>=-eq-ok (into_request fresh mode r.stream_id config.credentials) _ e2 in
        let same : pkg ≡ pkg' = cc in
        let (small, auth) = request_header fresh config.credentials mode r.stream_id pkg' g3 in
        let allowed = env_credentials-IsAuth u w config.credentials hu hw env in
        let valid : IsValid c p pkg = record {
          authentication = rw (same, auth) allowed;
          message = read_command-IsValid p fresh config args r left pkg output text prepared sent;
          discriminator = rw same small;
          size = size;
        } in
        let kept : pkg.authentication ≡ config.credentials = rw (same, auth) in
        let (full, drained, encoded, decoded, left_over) =
          decode-encode q pb checks pkg buf valid empty room in
        (kept, full, drained, encoded, decoded, left_over)
