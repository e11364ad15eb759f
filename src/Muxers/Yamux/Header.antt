-- ===== src/Muxers/Yamux/Header.antt =====
-- libp2p/muxers/yamux/yamux.nim: the frame header of 12 bytes. A byte is a number below 256.
pub mod RoundTrip
use nim_libp2p.Common.{
  ℕ, ◌+◌, ◌*◌, ◌/◌, ◌%◌, ◌^◌, ◌<◌, Bool, true, false, Option, none, some, List, [], ◌∷◌, ltb, ◌==◌,
  not, ◌||◌, if◌then◌else◌,
}

pub data MsgType : Type 0 where
  data_msg window_update ping go_away : MsgType

-- A set of `MsgFlags`.
pub record Flags : Type 0 where
  pub syn : Bool
  pub ack : Bool
  pub fin : Bool
  pub rst : Bool

pub record YamuxHeader : Type 0 where
  pub version : ℕ
  pub msg_type : MsgType
  pub flags : Flags
  pub stream_id : ℕ
  pub length : ℕ

abbrev pub yamux_version : ℕ
yamux_version = 0

abbrev pub no_flags : Flags
no_flags = record { syn = false; ack = false; fin = false; rst = false }

-- The ordinal of the message type.
abbrev pub ord : MsgType → ℕ
ord data_msg = 0
ord window_update = 1
ord ping = 2
ord go_away = 3

-- `checkedEnumAssign`: `none` for a number that is no ordinal.
unfoldable pub checked_msg_type : ℕ → Option MsgType
checked_msg_type n =
    if n == 0
    then some data_msg
    else if n == 1
    then some window_update
    else if n == 2
    then some ping
    else if n == 3
    then some go_away
    else none

abbrev pub bit : Bool → ℕ → ℕ
bit true n = n
bit false n = 0

-- The cast of the set to a byte, and back: flag number `i` is bit `i`.
unfoldable pub flags_to_byte : Flags → ℕ
flags_to_byte f = bit f.syn 1 + bit f.ack 2 + bit f.fin 4 + bit f.rst 8

unfoldable pub flags_of : ℕ → Flags
flags_of n = record {
  syn = n % 2 == 1;
  ack = n / 2 % 2 == 1;
  fin = n / 4 % 2 == 1;
  rst = n / 8 % 2 == 1;
}

-- `toBytesBE` and `fromBytesBE` of a `uint32`; a `uint16` is two bytes.
abbrev pub to_bytes_be32 : ℕ → List ℕ → List ℕ
to_bytes_be32 x rest = x / 0x1000000 % 256 ∷ x / 0x10000 % 256 ∷ x / 0x100 % 256 ∷ x % 256 ∷ rest

abbrev pub from_bytes_be32 : ℕ → ℕ → ℕ → ℕ → ℕ
from_bytes_be32 a b c d = a * 0x1000000 + b * 0x10000 + c * 0x100 + d

unfoldable pub encode : YamuxHeader → List ℕ
unfolding flags_to_byte
encode h =
    h.version
    ∷ ord h.msg_type
    ∷ flags_to_byte h.flags / 256
    ∷ flags_to_byte h.flags % 256
    ∷ to_bytes_be32 h.stream_id (to_bytes_be32 h.length [])

pub data ReadError : Type 0 where
  incomplete wrong_header : ReadError

pub data Result (A : Type 0) : Type 0 where
  ok : A → Result A
  err : ReadError → Result A

-- The tests of `readHeader` on the first four bytes, and the fields.
unfoldable pub parse_header : ℕ → ℕ → ℕ → ℕ → ℕ → Result YamuxHeader
unfolding checked_msg_type flags_of
parse_header version msg flags stream_id len =
    if not (version == yamux_version) then err wrong_header else elim (checked_msg_type msg) [
      | none ↦ err wrong_header
      | some t ↦
          if ltb 15 flags
          then err wrong_header
          else ok (record {
            version = version;
            msg_type = t;
            flags = flags_of flags;
            stream_id = stream_id;
            length = len;
          })
    ]

-- The header with the bytes behind it; `incomplete` where `readExactly` meets the end of the stream.
unfoldable pub read_header : List ℕ → Result (YamuxHeader × List ℕ)
unfolding parse_header
read_header (v ∷ t ∷ f1 ∷ f0 ∷ s3 ∷ s2 ∷ s1 ∷ s0 ∷ l3 ∷ l2 ∷ l1 ∷ l0 ∷ rest) =
    elim (parse_header v t (f1 * 256 + f0) (from_bytes_be32 s3 s2 s1 s0)
      (from_bytes_be32 l3 l2 l1 l0)) [ err e ↦ err e | ok h ↦ ok (h, rest) ]
read_header _ = err incomplete

abbrev pub ping_header : Flags → ℕ → YamuxHeader
ping_header flag ping_data = record {
  version = yamux_version;
  msg_type = ping;
  flags = flag;
  stream_id = 0;
  length = ping_data;
}

abbrev pub go_away_header : ℕ → YamuxHeader
go_away_header status = record {
  version = yamux_version;
  msg_type = go_away;
  flags = no_flags;
  stream_id = 0;
  length = status;
}

abbrev pub data_header : ℕ → ℕ → Flags → YamuxHeader
data_header stream_id len flags = record {
  version = yamux_version;
  msg_type = data_msg;
  flags = flags;
  stream_id = stream_id;
  length = len;
}

abbrev pub window_update_header : ℕ → ℕ → Flags → YamuxHeader
window_update_header stream_id delta flags = record {
  version = yamux_version;
  msg_type = window_update;
  flags = flags;
  stream_id = stream_id;
  length = delta;
}
