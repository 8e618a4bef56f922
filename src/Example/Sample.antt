-- ===== src/Example/Sample.antt =====
-- A request with credentials, and that it can be sent.
use eventstore_tcp.Prelude.{
  ◌&◌, true, false, some, [], ◌∷◌, ◌++◌, ◌≤◌, refl, arith, length, utf8_valid,
}
use eventstore_tcp.Prelude.Int.{negsuc}
use eventstore_tcp.Auth.{UsernamePassword}
use eventstore_tcp.Auth
use eventstore_tcp.Auth.Laws
use eventstore_tcp.Message.ReadEvent.{ReadEvent}
use eventstore_tcp.Message.ReadEvent
use eventstore_tcp.Raw.{read_event, encode, discriminator}
use eventstore_tcp.Codec.{Package}
use eventstore_tcp.Codec.Frame.{IsValid, body, frame, header}
use eventstore_tcp.Example.Wire.{wire}
use eventstore_tcp.Example.Kit.{kit, Id16, Buffer}

abbrev pub id : Id16
id = 1 & 2 & 3 & 4 & 5 & 6 & 7 & 8 & 9 & 10 & 11 & 12 & 13 & 14 & 15 & 16 & tt

abbrev pub user : UsernamePassword
user = record { username = 97 ∷ 98 ∷ []; password = 195 ∷ 164 ∷ [] }

abbrev pub request : ReadEvent
request = record {
  event_stream_id = 115 ∷ 49 ∷ [];
  event_number = negsuc 0;
  resolve_link_tos = true;
  require_master = false;
}

abbrev pub sample : Package Id16
sample = record { authentication = some user; correlation_id = id; message = read_event request }

pub user-IsValid : Laws.IsValid user
unfolding utf8_valid
user-IsValid = record {
  username_utf8 = refl;
  password_utf8 = refl;
  username_fits = omega arith;
  password_fits = omega arith;
}

pub request-IsValid : ReadEvent.IsValid wire request
unfolding utf8_valid
request-IsValid = record { event_stream_id = (refl, omega arith); event_number = omega arith }

pub sample-IsValid : IsValid kit wire sample
unfolding discriminator body header encode Auth.encode ReadEvent.write_message
sample-IsValid = record {
  authentication = user-IsValid;
  message = request-IsValid;
  discriminator = omega arith;
  size = omega arith;
}

-- A buffer that holds the frame of the request and one byte more.
abbrev pub received : Buffer
received = record { held = frame kit wire sample ++ (9 ∷ []); room = 0 }

abbrev pub empty_buffer : Buffer
empty_buffer = record { held = []; room = 100 }

pub frame_size : length (frame kit wire sample) ≤ 100
unfolding frame body header encode discriminator Auth.encode ReadEvent.write_message
frame_size = omega arith
