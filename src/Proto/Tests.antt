-- ===== src/Proto/Tests.antt =====
-- The encoding of concrete packets, with a calendar of two moments in place of chrono.
use lapas.Prelude.{◌≡◌, refl, [], ◌∷◌, ◌++◌, if◌then◌else◌, arith}
use lapas.Prelude.Text.{Str, codes, str_eq}
use lapas.Prelude.Text.Utf8.{is_utf8}
use lapas.Proto.Serde.{
  got, failed, protocol_error, io_error, Result, Chrono, read_u8, write_u8, read_u32, write_u32,
  read_exact, decode_string, encode_string, Bytes,
}
use lapas.Proto.Models.{LapasUserShadow, password, decode_api_auth, encode_api_auth}
use lapas.Proto.Packet.{
  LapasProtocol, shadow_get_list_response, user_dns_mapping, encode_packet, decode_packet,
  decode_fields,
}
use lapas.Proto.RoundTrip.{IsText, IsPacket, IsRfc3339, Reads}
use lapas.Proto.RoundTrip.Packets.{packet-Reads}
use lapas.Proto.RoundTrip.{Reads}

pub data Moment : Type 0 where
  epoch launch : Moment

pub moment_text : Moment → Str
moment_text epoch = codes "1970-01-01T00:00:00+00:00"
moment_text launch = codes "2023-05-06T12:00:00+00:00"

pub moment_of : Str → Result Moment Str
unfolding moment_text str_eq
moment_of s =
    if str_eq s (moment_text epoch)
    then Result.ok epoch
    else if str_eq s (moment_text launch)
    then Result.ok launch
    else Result.err (codes "invalid")

abbrev pub calendar : Chrono
calendar = record { DateTime = Moment; to_rfc3339 = moment_text; parse_from_rfc3339 = moment_of }

moment_text-IsText : (t : Moment) → IsText (moment_text t)
unfolding moment_text is_utf8
moment_text-IsText epoch = (refl, omega arith)
moment_text-IsText launch = (refl, omega arith)

moment_of-moment_text : (t : Moment) → moment_of (moment_text t) ≡ Result.ok t
unfolding moment_of moment_text str_eq
moment_of-moment_text epoch = refl
moment_of-moment_text launch = refl

pub calendar-IsRfc3339 : IsRfc3339 calendar
calendar-IsRfc3339 = record { text = moment_text-IsText; parses = moment_of-moment_text }

abbrev pub alice : LapasUserShadow Moment
alice = record {
  id = 1000;
  name = codes "alice";
  password_hash = codes "$6$salt$hash";
  last_update_ts = launch;
}

abbrev listing : LapasProtocol Moment
listing = shadow_get_list_response (Result.ok (alice ∷ []))

listing-IsPacket : IsPacket listing
unfolding is_utf8
listing-IsPacket = (omega arith, ((omega arith, (refl, omega arith), (refl, omega arith)), tt))

packet-Reads_example :
    decode_packet calendar (encode_packet calendar listing ++ (1 ∷ 2 ∷ []))
    ≡ got listing (1 ∷ 2 ∷ [])
packet-Reads_example =
    packet-Reads calendar calendar-IsRfc3339 listing listing-IsPacket (1 ∷ 2 ∷ [])

mapping_bytes :
    encode_packet calendar (user_dns_mapping (password (codes "pw")) (codes "al"))
    ≡ 0 ∷ 0 ∷ 0 ∷ 8 ∷ 0 ∷ 0 ∷ 0 ∷ 0 ∷ 2 ∷ b'p' ∷ b'w' ∷ 0 ∷ 0 ∷ 0 ∷ 2 ∷ b'a' ∷ b'l' ∷ []
unfolding encode_packet write_u32 write_u8 encode_api_auth encode_string
mapping_bytes = refl

unknown_tag :
    decode_packet calendar (0 ∷ 0 ∷ 0 ∷ 17 ∷ [])
    ≡ failed (protocol_error (codes "Unknown Packet received"))
unfolding decode_packet decode_fields read_u32
unknown_tag = refl

short_string :
    decode_packet calendar (0 ∷ 0 ∷ 0 ∷ 4 ∷ 0 ∷ 0 ∷ 0 ∷ 0 ∷ 9 ∷ b'p' ∷ []) ≡ failed io_error
unfolding decode_packet decode_fields read_u32 read_u8 read_exact decode_api_auth decode_string
short_string = refl

-- A list of one user, and two bytes of the next packet.
abbrev arrived : Bytes
arrived = encode_packet calendar listing ++ (0 ∷ 0 ∷ [])
