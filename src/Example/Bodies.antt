-- ===== src/Example/Bodies.antt =====
-- The theorems on messages, at concrete ones.
use eventstore_tcp.Prelude.{true, utf8_valid, some, arith, ok, stuck, [], ◌∷◌, ◌≡◌, ◌≢◌, refl}
use eventstore_tcp.Prelude.Int.{pos}
use eventstore_tcp.Message.NewEvent
use eventstore_tcp.Message.NewEvent.{NewEvent}
use eventstore_tcp.Message.TransactionWrite
use eventstore_tcp.Message.TransactionWrite.{TransactionWrite}
use eventstore_tcp.Raw.{decode, encode, discriminator, read_event, ping}
use eventstore_tcp.Raw.RoundTrip.{decode-encode_raw}
use eventstore_tcp.Raw.Decode.{discriminator-decode, decode-ne-stuck}
use eventstore_tcp.Example.Wire.{wire, wire-IsProtobuf}
use eventstore_tcp.Example.Sample.{request, request-IsValid}

decode-encode_raw_example :
    decode wire (discriminator (read_event request)) (encode wire (read_event request))
    ≡ ok (read_event request)
decode-encode_raw_example = decode-encode_raw wire-IsProtobuf (read_event request) request-IsValid

decode-ne-stuck_example : decode wire 0x83 (8 ∷ 200 ∷ 18 ∷ []) ≢ stuck
decode-ne-stuck_example = decode-ne-stuck wire-IsProtobuf 0x83 (8 ∷ 200 ∷ 18 ∷ [])

read_ping : decode wire 3 (1 ∷ []) ≡ ok ping
unfolding decode
read_ping = refl

discriminator-decode_example : discriminator ping ≡ 3
discriminator-decode_example = discriminator-decode wire 3 (1 ∷ []) ping read_ping

-- An event with metadata, in a part of a transaction.
abbrev new_event : NewEvent
new_event = record {
  event_id = 1 ∷ 2 ∷ [];
  event_type = 116 ∷ [];
  data_content_type = pos 1;
  metadata_content_type = pos 0;
  data_bytes = 123 ∷ 125 ∷ [];
  metadata = some (7 ∷ []);
}

abbrev part : TransactionWrite
part = record { transaction_id = pos 300; events = new_event ∷ []; require_master = true }

new_event-Nests : NewEvent.Nests wire new_event
unfolding utf8_valid NewEvent.get_size
new_event-Nests = record {
  valid = record {
    event_id = omega arith;
    event_type = (refl, omega arith);
    data_content_type = omega arith;
    metadata_content_type = omega arith;
    data_bytes = omega arith;
    metadata = omega arith;
  };
  fits = omega arith;
}

part-IsValid : TransactionWrite.IsValid wire part
part-IsValid = record { transaction_id = omega arith; events = (new_event-Nests, tt) }

from_reader-write_message_example :
    TransactionWrite.from_reader wire (TransactionWrite.write_message wire part) ≡ (ok part, [])
from_reader-write_message_example =
    TransactionWrite.from_reader-write_message wire-IsProtobuf part part-IsValid
