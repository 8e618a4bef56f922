-- ===== src/Example/Links.antt =====
-- The theorems on connections, at one that carries a request.
use eventstore_tcp.Prelude.{
  true, Bytes, Option, none, some, ok, List, [], ◌∷◌, ◌++◌, ◌≤◌, ◌≡◌, refl, sym, length, append-nil,
}
use eventstore_tcp.Codec.{Package, decode}
use eventstore_tcp.Codec.Frame.{frame}
use eventstore_tcp.Codec.RoundTrip.{decode-frame}
use eventstore_tcp.Codec.Pending.{frames}
use eventstore_tcp.Codec.Sender.{encode_each, encode_each-frames}
use eventstore_tcp.Codec.Link.{Link, Reach, here, next, arrive, deliver}
use eventstore_tcp.Codec.Link.Laws.{IsStart, delivered_first, decode_never_fails, delivered_all}
use eventstore_tcp.Codec.Link.Progress.{delivers}
use eventstore_tcp.Example.Wire.{wire, wire-IsProtobuf}
use eventstore_tcp.Example.Kit.{kit, kit-IsCrates, Id16, Buffer}
use eventstore_tcp.Example.Sample.{sample, sample-IsValid, empty_buffer, frame_size}

abbrev start : Link kit wire
start = record { buffer = empty_buffer; in_flight = frames kit wire (sample ∷ []); delivered = [] }

start-IsStart : IsStart kit wire (sample ∷ []) start
start-IsStart = record {
  valid = (sample-IsValid, tt);
  empty = refl;
  in_flight = refl;
  delivered = refl;
}

abbrev whole : Buffer
whole = record { held = frame kit wire sample ++ []; room = 0 }

whole_decodes : (b : Buffer) × (decode kit wire whole ≡ (ok (some sample), b)) × (kit.view b ≡ [])
whole_decodes = decode-frame kit-IsCrates wire-IsProtobuf sample whole [] sample-IsValid refl

abbrev arrived : Link kit wire
arrived = record { buffer = whole; in_flight = []; delivered = [] }

abbrev done : Link kit wire
done = record { buffer = whole_decodes.0; in_flight = []; delivered = sample ∷ [] }

all_arrive : Reach kit wire start arrived
unfolding frames
all_arrive = next here (arrive (frames kit wire (sample ∷ [])) (sym (append-nil _)) refl refl)

all_done : Reach kit wire start done
all_done = next all_arrive (deliver sample whole_decodes.1 refl refl)

nothing_more : (decode kit wire done.buffer).0 ≡ ok none
unfolding decode
nothing_more = rw (whole_decodes.2) refl

delivered_first_example :
    (pending : List (Package Id16)) × (done.delivered ++ pending ≡ sample ∷ [])
delivered_first_example = delivered_first kit-IsCrates wire-IsProtobuf start-IsStart all_done

decode_never_fails_example :
    (o : Option (Package Id16)) × (buf : Buffer) × (decode kit wire whole ≡ (ok o, buf))
decode_never_fails_example =
    decode_never_fails kit-IsCrates wire-IsProtobuf start-IsStart all_arrive

delivered_all_example : done.delivered ≡ sample ∷ []
delivered_all_example =
    delivered_all kit-IsCrates wire-IsProtobuf start-IsStart all_done refl nothing_more

grow : (b : Buffer) (chunk : Bytes) → (b' : Buffer) × (kit.view b' ≡ kit.view b ++ chunk)
grow b chunk = (record { held = b.held ++ chunk; room = 0 }, refl)

delivers_example :
    (u : Link kit wire) × Reach kit wire arrived u
    × (u.in_flight ≡ [])
    × (u.delivered ≡ sample ∷ [])
delivers_example = delivers kit-IsCrates wire-IsProtobuf grow start-IsStart all_arrive

one_fits : length (frames kit wire (sample ∷ [])) ≤ 100
unfolding frames
one_fits = rw (append-nil (frame kit wire sample)) frame_size

encode_each-frames_example :
    (buf' : Buffer) × (encode_each kit wire true (sample ∷ []) empty_buffer ≡ ok buf')
    × (kit.view buf' ≡ [] ++ frames kit wire (sample ∷ []))
encode_each-frames_example =
    encode_each-frames kit-IsCrates wire true (sample ∷ []) empty_buffer (sample-IsValid, tt)
      one_fits
