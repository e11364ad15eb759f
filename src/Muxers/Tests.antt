-- ===== src/Muxers/Tests.antt =====
-- libp2p/muxers: runs at concrete inputs.
use nim_libp2p.Common.{
  leb, length, drop, none, if◌then◌else◌, Bool, ℕ, ◌<◌, ◌≡◌, refl, arith, true, false, some, List,
  [], ◌∷◌, ◌++◌, All,
}
use nim_libp2p.Muxers.Yamux.Header.{
  YamuxHeader, window_update_header, encode, read_header, ok, flags_to_byte,
}
use nim_libp2p.Muxers.Yamux.Header.RoundTrip.{read_header-encode, encode-read_header}
use nim_libp2p.Muxers.Yamux.Channel.{
  close_impl, remote_closed, reset, YamuxChannel, new_channel, open_channel, got_data_from_remote,
  read_once, syn_flag, set_max_recv_window, failed,
}
use nim_libp2p.Muxers.Yamux.Channel.SendLoop.{send_loop, write}
use nim_libp2p.Muxers.Yamux.Channel.Rounds.{LoopEnd, send_loop-ends}
use nim_libp2p.Muxers.Yamux.Channel.Window.{IsSound}
use nim_libp2p.Muxers.Yamux.Channel.History.{History, opened, received, reads, History-IsSound}
use nim_libp2p.Muxers.Yamux.Channel.ClosedTwice.{IsStuck}
use nim_libp2p.Muxers.Yamux.Channel.HalfClosed.{operations-IsStuck, close_impl-remote_closed}
use nim_libp2p.Muxers.Yamux.Session.{Yamux, new}
use nim_libp2p.Muxers.Yamux.Session.Handle.{discard_data, handle, handle_header}
use nim_libp2p.Muxers.Yamux.Session.Flushed.{AreTracked-nil}
use nim_libp2p.Muxers.Yamux.Session.Valid.{IsValid}
use nim_libp2p.Muxers.Yamux.Session.Frames.{handle_header-Good}
use nim_libp2p.Muxers.Yamux.Session.Skipped.{Good, discard_data-drop}
use nim_libp2p.Muxers.Yamux.Session.Ends.{handle-ends}

abbrev syn_header : YamuxHeader
syn_header = window_update_header 1 7 syn_flag

abbrev syn_bytes : List ℕ
syn_bytes = 0 ∷ 1 ∷ 0 ∷ 1 ∷ 0 ∷ 0 ∷ 0 ∷ 1 ∷ 0 ∷ 0 ∷ 0 ∷ 7 ∷ []

encoded : encode syn_header ≡ syn_bytes
unfolding encode flags_to_byte
encoded = refl

read_header-encode_example : read_header (encode syn_header ++ 9 ∷ []) ≡ ok (syn_header, 9 ∷ [])
read_header-encode_example = read_header-encode syn_header (9 ∷ []) refl (omega arith) (omega arith)

syn_bytes-small : All (λ b. b < 256) (syn_bytes ++ 9 ∷ [])
syn_bytes-small = (
  omega arith,
  (
    omega arith,
    (
      omega arith,
      (
        omega arith,
        (
          omega arith,
          (
            omega arith,
            (
              omega arith,
              (
                omega arith,
                (omega arith, (omega arith, (omega arith, (omega arith, (omega arith, tt))))),
              ),
            ),
          ),
        ),
      ),
    ),
  ),
)

reads_syn : read_header (syn_bytes ++ 9 ∷ []) ≡ ok (syn_header, 9 ∷ [])
unfolding read_header
reads_syn = refl

encode-read_header_example : syn_bytes ++ 9 ∷ [] ≡ encode syn_header ++ 9 ∷ []
encode-read_header_example =
    encode-read_header (syn_bytes ++ 9 ∷ []) syn_header (9 ∷ []) syn_bytes-small reads_syn

abbrev fresh : YamuxChannel
fresh = open_channel (new_channel 1 false 262144 262144)

-- Five bytes come, and three of them are read.
abbrev after_reads : YamuxChannel
after_reads = (read_once 3 (got_data_from_remote (1 ∷ 2 ∷ 3 ∷ 4 ∷ 5 ∷ []) fresh)).1

some-History : History 5 after_reads
unfolding open_channel
some-History =
    reads 3 (received (1 ∷ 2 ∷ 3 ∷ 4 ∷ 5 ∷ []) (omega arith) (opened 1 false 262144 262144))

History-IsSound_example : IsSound 5 after_reads
History-IsSound_example = History-IsSound 5 after_reads some-History

-- A window of four bytes, and two messages of three.
abbrev queued : YamuxChannel
queued = record fresh {
  send_window = 4;
  send_queue =
      record { bytes = 1 ∷ 2 ∷ 3 ∷ []; sent = 0; fut = 0; finished = false }
      ∷ record { bytes = 4 ∷ 5 ∷ 6 ∷ []; sent = 0; fut = 1; finished = false }
      ∷ [];
}

queued_idle : queued.is_sending ≡ false
unfolding open_channel
queued_idle = refl

send_loop-ends_example :
    (d : YamuxChannel) × (send_loop (λ n. true) queued ≡ some d) × LoopEnd queued d
send_loop-ends_example =
    send_loop-ends (λ n. true) queued queued_idle (omega arith, (omega arith, tt))

abbrev session : Yamux
session = new true 2 262144 262144

session-IsValid : IsValid session
session-IsValid = record {
  within = omega arith;
  remembered = omega arith;
  flushed_within = omega arith;
  tracked = AreTracked-nil;
  queues = tt;
}

handle_header-Good_example :
    Good 1 (handle_header (λ n. true) (window_update_header 2 7 syn_flag) (9 ∷ []) session)
handle_header-Good_example =
    handle_header-Good (λ n. true) (window_update_header 2 7 syn_flag) (9 ∷ []) session
      session-IsValid

handle-ends_example :
    (m : Yamux) × (handle (λ n. true) (syn_bytes ++ 9 ∷ []) session ≡ some m) × (m.is_closed ≡ true)
handle-ends_example = handle-ends (λ n. true) (syn_bytes ++ 9 ∷ []) session session-IsValid

-- Bytes are queued, with no window to send them.
abbrev waiting_channel : YamuxChannel
waiting_channel = record queued { send_window = 0 }

abbrev stuck_channel : YamuxChannel
stuck_channel = close_impl (remote_closed waiting_channel)

waiting_open :
    (waiting_channel.closed_remotely ≡ false)
    × (waiting_channel.closed_locally ≡ false)
    × (waiting_channel.close_event ≡ false)
unfolding open_channel
waiting_open = (refl, refl, refl)

close_impl-remote_closed_example : IsStuck stuck_channel
close_impl-remote_closed_example =
    close_impl-remote_closed waiting_channel refl waiting_open.0 waiting_open.1 waiting_open.2

stuck_channel-IsStuck : IsStuck stuck_channel
stuck_channel-IsStuck =
    close_impl-remote_closed waiting_channel refl waiting_open.0 waiting_open.1 waiting_open.2

operations-IsStuck_example :
    IsStuck (close_impl stuck_channel)
    × IsStuck (remote_closed stuck_channel)
    × ((l : Bool) → IsStuck (reset l stuck_channel))
    × IsStuck (open_channel stuck_channel)
    × ((n : ℕ) → IsStuck (read_once n stuck_channel).1)
    × ((b : List ℕ) → IsStuck (got_data_from_remote b stuck_channel))
    × ((n : ℕ) → IsStuck (set_max_recv_window n stuck_channel))
    × ((ok : ℕ → Bool) (window : ℕ) (d : YamuxChannel)
        → send_loop ok (record stuck_channel { send_window = window }) ≡ some d
        → IsStuck d)
    × ((ok : ℕ → Bool) (fut : ℕ) (msg : List ℕ)
        → (d : YamuxChannel) × (write ok fut msg stuck_channel ≡ some d)
          × IsStuck d
          × (d.ended ≡ stuck_channel.ended ++ failed fut ∷ [])
          × (d.send_queue ≡ stuck_channel.send_queue))
operations-IsStuck_example = operations-IsStuck stuck_channel stuck_channel-IsStuck

discard_data-drop_example :
    discard_data 2 (1 ∷ 2 ∷ 3 ∷ [])
    ≡ (if leb 2 (length {A = ℕ} (1 ∷ 2 ∷ 3 ∷ [])) then some (drop 2 (1 ∷ 2 ∷ 3 ∷ [])) else none)
discard_data-drop_example = discard_data-drop 2 (1 ∷ 2 ∷ 3 ∷ [])
