-- ===== src/Muxers/Yamux/Session/Handle.antt =====
-- libp2p/muxers/yamux/yamux.nim: `handle`, that reads frames from the bytes of the connection.
use nim_libp2p.Common.{
  ℕ, zero, suc, ◌+◌, ◌-◌, ◌%◌, min, Bool, true, false, Option, none, some, List, [], ◌∷◌, length,
  take, drop, ltb, leb, ◌==◌, not, ℕ_discrete, if◌then◌else◌,
}
use nim_libp2p.Common.Table
use nim_libp2p.Muxers.Yamux.Header.{
  YamuxHeader, MsgType, data_msg, window_update, ping, go_away, ping_header, go_away_header,
  data_header, ok, err, read_header, incomplete, wrong_header,
}
use nim_libp2p.Muxers.Yamux.Channel.{
  YamuxChannel, yamux_default_window_size, max_send_window, ack_flag, rst_flag, open_channel,
  got_data_from_remote, remote_closed, reset,
}
use nim_libp2p.Muxers.Yamux.Channel.SendLoop.{send_loop}
use nim_libp2p.Muxers.Yamux.Session.{
  Yamux, put_written, put_channel, create_stream, forget_flushed, remember_flushed, close,
  status_code, protocol_error,
}

-- How the body of the loop ends: with the next frame to read from the bytes left, with a `break`,
-- or with an exception. `defect` is a fault of the model's partial parts.
pub data Handled : Type 0 where
  going : Yamux → List ℕ → Handled
  stopped : Yamux → Handled
  stream_error : Yamux → Handled
  yamux_error : Yamux → Handled
  defect : Handled

-- `readExactly`: `none` at the end of the stream.
unfoldable pub read_exactly : ℕ → List ℕ → Option (List ℕ × List ℕ)
read_exactly n bytes = if leb n (length bytes) then some (take n bytes, drop n bytes) else none

-- `discardData` reads blocks of up to 8192 bytes; the fuel is the number of bytes to go.
unfoldable pub discard_loop : ℕ → ℕ → List ℕ → Option (List ℕ)
unfolding read_exactly
discard_loop zero remaining bytes = if remaining == 0 then some bytes else none
discard_loop (suc fuel) remaining bytes = elim (remaining == 0) [
  | true ↦ some bytes
  | false ↦ elim (read_exactly (min remaining 8192) bytes) [
    | none ↦ none
    | some (block, rest) ↦ discard_loop fuel (remaining - min remaining 8192) rest
  ]
]

unfoldable pub discard_data : ℕ → List ℕ → Option (List ℕ)
discard_data len bytes = discard_loop len len bytes

abbrev pub is_data : MsgType → Bool
is_data data_msg = true
is_data window_update = false
is_data ping = false
is_data go_away = false

-- What follows the frame on the stream once it was skipped.
unfoldable pub skip_data : YamuxHeader → List ℕ → Yamux → Handled
skip_data h bytes m =
    if is_data h.msg_type
    then elim (discard_data h.length bytes) [ none ↦ stream_error m | some rest ↦ going m rest ]
    else going m bytes

-- A new stream beyond the limit is refused, and a part of the default window remembered for it.
unfoldable pub refuse_stream : YamuxHeader → List ℕ → Yamux → Handled
refuse_stream h bytes m =
    let used : ℕ = if is_data h.msg_type then h.length else 0 in
    let refused : Yamux =
      put_written (data_header h.stream_id 0 rst_flag)
        (remember_flushed h.stream_id (yamux_default_window_size - used) m) in
    if ltb yamux_default_window_size used then yamux_error m else skip_data h bytes refused

-- A frame of a stream that is not open, and its effect on what may still be flushed for it.
unfoldable pub unknown_stream : YamuxHeader → List ℕ → Yamux → Handled
unknown_stream h bytes m = elim (Table.lookup ℕ_discrete h.stream_id m.flushed) [
  | none ↦ skip_data h bytes m
  | some left ↦
      let less : Yamux = record m {
        flushed = Table.insert ℕ_discrete h.stream_id (left - h.length) m.flushed;
      } in
      let spent : Yamux = if left - h.length == 0 then forget_flushed h.stream_id less else less in
      if not (is_data h.msg_type)
      then going m bytes
      else if ltb left h.length
      then yamux_error m
      else skip_data h bytes spent
]

unfoldable pub apply_flags : YamuxHeader → YamuxChannel → YamuxChannel
apply_flags h c =
    let closed : YamuxChannel = if h.flags.fin then remote_closed c else c in
    if h.flags.rst then reset false closed else closed

unfoldable pub window_frame : (ℕ → Bool) → YamuxHeader → YamuxChannel → List ℕ → Yamux → Handled
window_frame writes h c bytes m =
    let grown : YamuxChannel = record c {
      send_window = min (c.send_window + h.length) max_send_window;
    } in
    elim (if not c.is_sending then send_loop writes grown else some grown) [
      | none ↦ defect
      | some d ↦ going (put_channel h.stream_id (apply_flags h d) m) bytes
    ]

unfoldable pub data_frame : YamuxHeader → YamuxChannel → List ℕ → Yamux → Handled
unfolding read_exactly
data_frame h c bytes m =
    if ltb c.recv_window h.length
    then yamux_error m
    else if ltb 0 h.length
    then elim (read_exactly h.length bytes) [
      | none ↦ stream_error m
      | some (b, rest) ↦
          going (put_channel h.stream_id (apply_flags h (got_data_from_remote b c)) m) rest
    ]
    else going (put_channel h.stream_id (apply_flags h c) m) bytes

-- The frame of an open stream.
unfoldable pub stream_frame : (ℕ → Bool) → YamuxHeader → List ℕ → Yamux → Handled
unfolding window_frame data_frame
stream_frame writes h bytes m = elim (Table.lookup ℕ_discrete h.stream_id m.channels) [
  | none ↦ yamux_error m
  | some c ↦ if is_data h.msg_type then data_frame h c bytes m else window_frame writes h c bytes m
]

-- A frame with `Syn` of a stream that is not open.
unfoldable pub new_remote_stream : (ℕ → Bool) → YamuxHeader → List ℕ → Yamux → Handled
unfolding create_stream
new_remote_stream writes h bytes m =
    let forgotten : Yamux = forget_flushed h.stream_id m in
    let (c, created) =
      create_stream h.stream_id false m.window_size m.max_send_queue_size forgotten in
    if h.stream_id % 2 == m.current_id % 2
    then yamux_error forgotten
    else if leb m.max_chann_count (length m.channels)
    then refuse_stream h bytes forgotten
    else stream_frame writes h bytes (put_channel h.stream_id (open_channel c) created)

unfoldable pub data_or_window : (ℕ → Bool) → YamuxHeader → List ℕ → Yamux → Handled
data_or_window writes h bytes m =
    if Table.has_key ℕ_discrete h.stream_id m.channels
    then stream_frame writes h bytes m
    else if h.flags.syn
    then new_remote_stream writes h bytes m
    else unknown_stream h bytes m

-- One round of the loop of `handle`, with the header read.
unfoldable pub handle_header : (ℕ → Bool) → YamuxHeader → List ℕ → Yamux → Handled
handle_header writes h bytes m = elim (h.msg_type) [
  | ping ↦ going (if h.flags.syn then put_written (ping_header ack_flag h.length) m else m) bytes
  | go_away ↦ stopped m
  | data_msg ↦ data_or_window writes h bytes m
  | window_update ↦ data_or_window writes h bytes m
]

unfoldable pub handle_round : (ℕ → Bool) → List ℕ → Yamux → Handled
handle_round writes bytes m = elim (read_header bytes) [
  | err incomplete ↦ stream_error m
  | err wrong_header ↦ yamux_error m
  | ok (h, rest) ↦ handle_header writes h rest m
]

unfoldable pub handle_loop : ℕ → (ℕ → Bool) → List ℕ → Yamux → Handled
handle_loop zero writes bytes m = defect
handle_loop (suc fuel) writes [] m = stopped m
handle_loop (suc fuel) writes (b ∷ bytes) m = elim (handle_round writes (b ∷ bytes) m) [
  | going m' rest ↦ handle_loop fuel writes rest m'
  | stopped m' ↦ stopped m'
  | stream_error m' ↦ stream_error m'
  | yamux_error m' ↦ yamux_error m'
  | defect ↦ defect
]

-- `handle` over all the bytes that the connection gives. A round takes a header of 12 bytes, so
-- there are fewer rounds than bytes.
unfoldable pub handle : (ℕ → Bool) → List ℕ → Yamux → Option Yamux
handle writes bytes m = elim (handle_loop (suc (length bytes)) writes bytes m) [
  | going m' rest ↦ none
  | stopped m' ↦ some (close m')
  | stream_error m' ↦ some (close m')
  | yamux_error m' ↦ some (close (put_written (go_away_header (status_code protocol_error)) m'))
  | defect ↦ none
]
