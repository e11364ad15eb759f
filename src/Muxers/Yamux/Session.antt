-- ===== src/Muxers/Yamux/Session.antt =====
-- libp2p/muxers/yamux/yamux.nim: the session. What waits on a channel (its cleanup, the stream
-- handler) is an operation of its own, and an `await` is atomic.
pub mod Handle
pub mod Flushed
pub mod Valid
pub mod Skipped
pub mod Frames
pub mod Ends
use nim_libp2p.Common.{
  ℕ, zero, suc, ◌+◌, ◌-◌, ◌%◌, max, Bool, true, false, Option, none, some, List, [], ◌∷◌, ◌++◌, map,
  length, ltb, leb, ◌==◌, ◌&&◌, not, ℕ_discrete, if◌then◌else◌,
}
use nim_libp2p.Common.Table
use nim_libp2p.Muxers.Yamux.Header.{YamuxHeader, go_away_header}
use nim_libp2p.Muxers.Yamux.Channel.{
  Frame, YamuxChannel, clear_queues, force_close, new_channel, open_channel,
}

pub data GoAwayStatus : Type 0 where
  normal_termination protocol_error internal_error : GoAwayStatus

abbrev pub status_code : GoAwayStatus → ℕ
status_code normal_termination = 0
status_code protocol_error = 1
status_code internal_error = 2

-- `written` is what the session itself wrote on the connection.
pub record Yamux : Type 0 where
  pub channels : List (ℕ × YamuxChannel)
  pub flushed : List (ℕ × ℕ)
  pub flushed_order : List ℕ
  pub current_id : ℕ
  pub is_closed : Bool
  pub connection_closed : Bool
  pub max_chann_count : ℕ
  pub window_size : ℕ
  pub max_send_queue_size : ℕ
  pub written : List Frame

abbrev pub new : Bool → ℕ → ℕ → ℕ → Yamux
new is_out max_chann_count window_size max_send_queue_size = record {
  channels = [];
  flushed = [];
  flushed_order = [];
  current_id = if is_out then 1 else 2;
  is_closed = false;
  connection_closed = false;
  max_chann_count = max_chann_count;
  window_size = window_size;
  max_send_queue_size = max_send_queue_size;
  written = [];
}

-- `find` and `delete`: the first occurrence goes.
unfoldable pub delete_first : ℕ → List ℕ → List ℕ
delete_first id [] = []
delete_first id (x ∷ xs) = if x == id then xs else x ∷ delete_first id xs

unfoldable pub forget_flushed : ℕ → Yamux → Yamux
unfolding delete_first
forget_flushed id m = record m {
  flushed = Table.del ℕ_discrete id m.flushed;
  flushed_order = delete_first id m.flushed_order;
}

-- The loop of `rememberFlushed`: the oldest go while there are more than `limit`.
unfoldable pub drop_oldest : ℕ → List ℕ → List (ℕ × ℕ) → List ℕ × List (ℕ × ℕ)
drop_oldest limit [] flushed = ([], flushed)
drop_oldest limit (oldest ∷ order) flushed =
    if ltb limit (suc (length order))
    then drop_oldest limit order (Table.del ℕ_discrete oldest flushed)
    else (oldest ∷ order, flushed)

unfoldable pub remember_flushed : ℕ → ℕ → Yamux → Yamux
unfolding drop_oldest
remember_flushed id recv_window m =
    let order : List ℕ =
      if not (Table.has_key ℕ_discrete id m.flushed)
      then m.flushed_order ++ id ∷ []
      else m.flushed_order in
    let left : List ℕ × List (ℕ × ℕ) =
      drop_oldest m.max_chann_count order (Table.insert ℕ_discrete id recv_window m.flushed) in
    record m { flushed = left.1; flushed_order = left.0 }

-- `cleanupChannel` once the channel `c` is closed.
unfoldable pub cleanup_channel : YamuxChannel → Yamux → Yamux
unfolding remember_flushed
cleanup_channel c m =
    let deleted : Yamux = record m { channels = Table.del ℕ_discrete c.id m.channels } in
    if c.is_reset && ltb 0 c.recv_window
    then remember_flushed c.id c.recv_window deleted
    else deleted

abbrev pub put_channel : ℕ → YamuxChannel → Yamux → Yamux
put_channel id c m = record m { channels = Table.insert ℕ_discrete id c m.channels }

unfoldable pub create_stream : ℕ → Bool → ℕ → ℕ → Yamux → YamuxChannel × Yamux
create_stream id is_src recv_window max_send_queue_size m =
    let stream : YamuxChannel = new_channel id is_src recv_window max_send_queue_size in
    (stream, put_channel id stream m)

abbrev pub put_written : YamuxHeader → Yamux → Yamux
put_written h m = record m { written = m.written ++ record { header = h; payload = [] } ∷ [] }

-- What `close` does to each channel.
unfoldable pub close_channel : YamuxChannel → YamuxChannel
unfolding clear_queues force_close
close_channel c = force_close (record (clear_queues true c) {
  recv_window = 0;
  send_window = 0;
  closed_locally = true;
  is_reset = true;
  opened = false;
  is_closed = true;
})

-- `drainChannelTasks` waits for the cleanup of each channel.
unfoldable pub drain : List (ℕ × YamuxChannel) → Yamux → Yamux
unfolding cleanup_channel
drain [] m = m
drain ((id, c) ∷ cs) m = drain cs (cleanup_channel c m)

unfoldable pub close : Yamux → Yamux
close m =
    let closing : List (ℕ × YamuxChannel) = map (λ e. (e.0, close_channel e.1)) m.channels in
    let told : Yamux =
      put_written (go_away_header (status_code normal_termination))
        (record m { channels = closing }) in
    let drained : Yamux = drain closing (record told { connection_closed = true }) in
    if m.is_closed then m else record drained { is_closed = true }

abbrev pub get_streams : Yamux → List YamuxChannel
get_streams m = map (λ e. e.1) m.channels

pub data NewStream : Type 0 where
  too_many_channels : NewStream
  stream : YamuxChannel → Yamux → NewStream

-- `leb m.max_chann_count n` is `n > maxChannCount - 1`.
unfoldable pub new_stream : Bool → Yamux → NewStream
unfolding create_stream open_channel
new_stream is_lazy m =
    let (c, created) = create_stream m.current_id true m.window_size m.max_send_queue_size m in
    let next : Yamux = record created { current_id = m.current_id + 2 } in
    let opened : YamuxChannel = if is_lazy then c else open_channel c in
    if leb m.max_chann_count (length m.channels)
    then too_many_channels
    else stream opened (put_channel m.current_id opened next)
