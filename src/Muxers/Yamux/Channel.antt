-- ===== src/Muxers/Yamux/Channel.antt =====
-- libp2p/muxers/yamux/yamux.nim: a channel, its queues, and its flow control. An `await` is atomic,
-- and a `Future` of a write is a number with the way it ended.
pub mod SendLoop
pub mod Window
pub mod Reset
pub mod Sends
pub mod Round
pub mod Rounds
pub mod History
pub mod ClosedTwice
pub mod ClosedSends
pub mod HalfClosed
use nim_libp2p.Common.{
  ℕ, zero, suc, ◌+◌, ◌-◌, ◌/◌, min, max, Bool, true, false, Option, none, some, List, [], ◌∷◌, ◌++◌,
  map, length, take, drop, ltb, leb, ◌==◌, not, ◌&&◌, ◌||◌, if◌then◌else◌,
}
use nim_libp2p.Utils.ZeroQueue
use nim_libp2p.Muxers.Yamux.Header.{Flags, YamuxHeader, no_flags, data_header, window_update_header}

abbrev pub yamux_default_window_size : ℕ
yamux_default_window_size = 262144

abbrev pub max_send_window : ℕ
max_send_window = 4294967295

pub record ToSend : Type 0 where
  pub bytes : List ℕ
  pub sent : ℕ
  pub fut : ℕ
  pub finished : Bool

-- What a channel writes on the connection: a header and the payload behind it.
pub record Frame : Type 0 where
  pub header : YamuxHeader
  pub payload : List ℕ

-- How the future of a write ends.
pub data Ended : Type 0 where
  completed failed : ℕ → Ended

-- `is_closed`, `is_closed_remotely`, `is_eof` and `close_event` are the fields of `LPStream`.
-- `written` is what the channel wrote on the connection, and `ended` the writes that ended.
pub record YamuxChannel : Type 0 where
  pub id : ℕ
  pub recv_window : ℕ
  pub send_window : ℕ
  pub max_recv_window : ℕ
  pub max_send_queue_size : ℕ
  pub is_src : Bool
  pub opened : Bool
  pub is_sending : Bool
  pub send_queue : List ToSend
  pub recv_queue : ZeroQueue.ZeroQueue
  pub is_reset : Bool
  pub remote_reset : Bool
  pub closed_remotely : Bool
  pub closed_locally : Bool
  pub is_closed : Bool
  pub is_closed_remotely : Bool
  pub is_eof : Bool
  pub close_event : Bool
  pub written : List Frame
  pub ended : List Ended

-- The channel that `createStream` makes, before it is entered in the session's table.
abbrev pub new_channel : ℕ → Bool → ℕ → ℕ → YamuxChannel
new_channel id is_src recv_window max_send_queue_size = record {
  id = id;
  recv_window =
      if ltb yamux_default_window_size recv_window then recv_window else yamux_default_window_size;
  send_window = yamux_default_window_size;
  max_recv_window = recv_window;
  max_send_queue_size = max_send_queue_size;
  is_src = is_src;
  opened = false;
  is_sending = false;
  send_queue = [];
  recv_queue = record { chunks = []; queued_bytes = 0 };
  is_reset = false;
  remote_reset = false;
  closed_remotely = false;
  closed_locally = false;
  is_closed = false;
  is_closed_remotely = false;
  is_eof = false;
  close_event = false;
  written = [];
  ended = [];
}

abbrev pub unsent : ToSend → ℕ
unsent t = length t.bytes - t.sent

abbrev pub length_of : List ToSend → ℕ
length_of [] = 0
length_of (t ∷ ts) = unsent t + length_of ts

abbrev pub length_send_queue : YamuxChannel → ℕ
length_send_queue c = length_of c.send_queue

abbrev pub limited_length_of : ℕ → List ToSend → ℕ
limited_length_of limit [] = 0
limited_length_of limit (t ∷ ts) = min (unsent t) limit + limited_length_of limit ts

abbrev pub length_send_queue_with_limit : YamuxChannel → ℕ
length_send_queue_with_limit c = limited_length_of (c.max_send_queue_size / 3) c.send_queue

abbrev pub is_nil : List ToSend → Bool
is_nil [] = true
is_nil (t ∷ ts) = false

abbrev pub put_frame : YamuxHeader → List ℕ → YamuxChannel → YamuxChannel
put_frame h payload c = record c {
  written = c.written ++ record { header = h; payload = payload } ∷ [];
}

-- The base `closeImpl` fires the event.
unfoldable pub actually_close : YamuxChannel → YamuxChannel
actually_close c =
    if c.closed_locally && is_nil c.send_queue && c.closed_remotely
    then record c { close_event = true }
    else c

unfoldable pub remote_closed : YamuxChannel → YamuxChannel
unfolding actually_close
remote_closed c =
    let closed : YamuxChannel =
      if not c.closed_remotely then actually_close (record c { closed_remotely = true }) else c in
    record closed { is_closed_remotely = true }

abbrev pub syn_flag : Flags
syn_flag = record no_flags { syn = true }

abbrev pub ack_flag : Flags
ack_flag = record no_flags { ack = true }

abbrev pub fin_flag : Flags
fin_flag = record no_flags { fin = true }

abbrev pub rst_flag : Flags
rst_flag = record no_flags { rst = true }

unfoldable pub close_impl : YamuxChannel → YamuxChannel
unfolding actually_close
close_impl c =
    let local : YamuxChannel = record c { closed_locally = true } in
    let told : YamuxChannel =
      if not c.is_reset && is_nil c.send_queue
      then put_frame (data_header c.id 0 fin_flag) [] local
      else local in
    if not c.closed_locally then actually_close told else c

abbrev pub fail_all : List ToSend → List Ended
fail_all ts = map (λ t. failed t.fut) ts

abbrev pub complete_all : List ToSend → List Ended
complete_all ts = map (λ t. completed t.fut) ts

-- `clearQueues`; `with_error` says whether it is called with an error.
unfoldable pub clear_queues : Bool → YamuxChannel → YamuxChannel
unfolding ZeroQueue.clear
clear_queues with_error c = record c {
  ended = c.ended ++ (if with_error then fail_all c.send_queue else complete_all c.send_queue);
  send_queue = [];
  recv_queue = ZeroQueue.clear c.recv_queue;
}

-- The parts of `reset`, in their order.
unfoldable pub begin_reset : Bool → YamuxChannel → YamuxChannel
unfolding clear_queues
begin_reset is_local c =
    record (clear_queues true
      (record c { is_reset = true; remote_reset = not is_local; is_closed = true })) {
        send_window = 0;
      }

unfoldable pub reset_locally : Bool → YamuxChannel → YamuxChannel
reset_locally is_local c =
    let told : YamuxChannel =
      if is_local && not c.is_sending then put_frame (data_header c.id 0 rst_flag) [] c else c in
    if not c.closed_locally then close_impl told else c

unfoldable pub reset_remotely : YamuxChannel → YamuxChannel
reset_remotely c = if not c.closed_remotely then remote_closed c else c

unfoldable pub reset : Bool → YamuxChannel → YamuxChannel
reset is_local c =
    let down : YamuxChannel = reset_remotely (reset_locally is_local (begin_reset is_local c)) in
    let flushing : YamuxChannel = if is_local then down else record down { recv_window = 0 } in
    if c.is_reset then c else flushing

unfoldable pub update_recv_window : YamuxChannel → YamuxChannel
update_recv_window c =
    let in_window : ℕ = c.recv_window + ZeroQueue.len c.recv_queue in
    if ltb (c.max_recv_window / 2) in_window
    then c
    else let delta : ℕ = c.max_recv_window - in_window in
      put_frame (window_update_header c.id delta no_flags) []
        (record c { recv_window = c.recv_window + delta })

unfoldable pub got_data_from_remote : List ℕ → YamuxChannel → YamuxChannel
unfolding update_recv_window ZeroQueue.push
got_data_from_remote b c = update_recv_window (record c {
  recv_window = c.recv_window - length b;
  recv_queue = ZeroQueue.push b c.recv_queue;
})

pub data ReadResult : Type 0 where
  remote_reset closed conn_down remote_eof at_eof blocked defect : ReadResult
  read : List ℕ → ReadResult

unfoldable pub read_queue : ℕ → YamuxChannel → ReadResult × YamuxChannel
unfolding update_recv_window
read_queue nbytes c = elim (ZeroQueue.consume_to nbytes c.recv_queue) [
  | none ↦ (defect, c)
  | some (out, q) ↦ (read out, update_recv_window (record c { recv_queue = q }))
]

-- `blocked` where it waits for data or for the remote's close: this runs again then.
unfoldable pub read_once : ℕ → YamuxChannel → ReadResult × YamuxChannel
read_once nbytes c =
    if c.is_reset
    then (
      if c.remote_reset then remote_reset else if c.closed_locally then closed else conn_down,
      c,
    )
    else if c.is_eof
    then (remote_eof, clear_queues false c)
    else if ZeroQueue.is_empty c.recv_queue && not c.closed_remotely
    then (blocked, c)
    else if ZeroQueue.is_empty c.recv_queue
    then (at_eof, clear_queues false (record c { is_eof = true }))
    else read_queue nbytes c

pub set_max_recv_window : ℕ → YamuxChannel → YamuxChannel
set_max_recv_window n c = record c { max_recv_window = n }

unfoldable pub open_channel : YamuxChannel → YamuxChannel
open_channel c =
    if c.opened
    then c
    else put_frame
        (window_update_header c.id (c.max_recv_window - yamux_default_window_size)
          (if c.is_src then syn_flag else ack_flag))
        [] (record c { opened = true; is_reset = false })

unfoldable pub force_close : YamuxChannel → YamuxChannel
unfolding actually_close
force_close c =
    let fired : YamuxChannel = record c { closed_remotely = true; is_closed_remotely = true } in
    if not fired.close_event then actually_close fired else fired
