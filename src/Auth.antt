-- ===== src/Auth.antt =====
-- src/auth.rs: the credentials in a package.
pub mod Laws
use eventstore_tcp.Prelude.{
  ℕ, Bytes, Str, from_utf8, Option, none, some, Outcome, ok, err, panic, ◌>>=◌, ◌>>◌, assert, ◌++◌,
  ◌+◌, ◌%◌, length, take, drop, ltb, if◌then◌else◌,
}
use eventstore_tcp.Errors.{IoError, unexpected_eof, invalid_data, not_utf8}
use eventstore_tcp.Crates.{Crates}

pub record UsernamePassword : Type 0 where
  pub username : Str
  pub password : Str

-- `Read::read_exact` on what is left of a cursor, into a buffer of `n` bytes
unfoldable pub read_exact : ℕ → Bytes → Outcome IoError (Bytes × Bytes)
read_exact n r = if ltb (length r) n then err unexpected_eof else ok (take n r, drop n r)

-- `UsernamePassword::new`
unfoldable pub new : {E : Type 0} → Str → Str → Outcome E UsernamePassword
new username password = do
  assert (ltb (length username) 255)
  assert (ltb (length password) 255)
  ok (record { username = username; password = password })

-- `String::from_utf8(…).map_err(convert_utf8_err)`
unfoldable pub text_of : Option Str → Outcome IoError Str
text_of none = err (invalid_data not_utf8)
text_of (some s) = ok s

module _ {Uuid Buf : Type 0} (c : Crates Uuid Buf) where
  -- One length byte and the text behind it.
  unfoldable pub decode_text : Bytes → Outcome IoError (Str × Bytes)
  unfolding text_of read_exact
  decode_text buf = do
    (len, r) ← c.read_u8 buf
    (s, r') ← read_exact len r
    t ← text_of (from_utf8 s)
    ok (t, r')

  unfoldable pub decode : Bytes → Outcome IoError (UsernamePassword × Bytes)
  decode buf = do
    (username, r) ← decode_text buf
    (password, r') ← decode_text r
    ok (record { username = username; password = password }, r')

  -- The bytes written, and the count that is returned.
  unfoldable pub encode : UsernamePassword → Bytes × ℕ
  encode a = (
    c.write_u8 (length a.username % 256)
        ++ (a.username ++ (c.write_u8 (length a.password % 256) ++ a.password)),
    1 + length a.username + 1 + length a.password,
  )
