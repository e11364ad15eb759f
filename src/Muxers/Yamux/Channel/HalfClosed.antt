-- ===== src/Muxers/Yamux/Channel/HalfClosed.antt =====
-- libp2p/muxers/yamux/yamux.nim: a channel that both sides closed before its queue was sent.
use nim_libp2p.Common.{ℕ, ◌≡◌, arith, Bool, false, some, List, [], ◌∷◌, ◌++◌, subst}
use nim_libp2p.Muxers.Yamux.Channel.{
  YamuxChannel, is_nil, actually_close, remote_closed, close_impl, reset, got_data_from_remote,
  read_once, open_channel, set_max_recv_window, failed,
}
use nim_libp2p.Muxers.Yamux.Channel.SendLoop.{send_loop, write}
use nim_libp2p.Muxers.Yamux.Channel.ClosedTwice.{
  IsStuck, close_impl-IsStuck, remote_closed-IsStuck, reset-IsStuck, got_data-IsStuck,
  read_once-IsStuck, open_channel-IsStuck, set_max_recv_window-IsStuck,
}
use nim_libp2p.Muxers.Yamux.Channel.ClosedSends.{Stuck, send_loop-Stuck, write-IsStuck}

-- A channel that both sides closed, with the close event not fired, stays so: a close from either
-- side, a reset from either side, an opening, a read, data from the peer, a new `maxRecvWindow`, a
-- change of the send window with `sendLoop`, even if that empties its queue, and a write, which
-- fails, all leave the event unfired.
pub operations-IsStuck :
    (c : YamuxChannel)
    → IsStuck c
    → IsStuck (close_impl c)
      × IsStuck (remote_closed c)
      × ((l : Bool) → IsStuck (reset l c))
      × IsStuck (open_channel c)
      × ((n : ℕ) → IsStuck (read_once n c).1)
      × ((b : List ℕ) → IsStuck (got_data_from_remote b c))
      × ((n : ℕ) → IsStuck (set_max_recv_window n c))
      × ((ok : ℕ → Bool) (window : ℕ) (d : YamuxChannel)
          → send_loop ok (record c { send_window = window }) ≡ some d
          → IsStuck d)
      × ((ok : ℕ → Bool) (fut : ℕ) (msg : List ℕ)
          → (d : YamuxChannel) × (write ok fut msg c ≡ some d)
            × IsStuck d
            × (d.ended ≡ c.ended ++ failed fut ∷ [])
            × (d.send_queue ≡ c.send_queue))
operations-IsStuck c v = (
  close_impl-IsStuck c v,
  remote_closed-IsStuck c v,
  λ l. reset-IsStuck l c v,
  open_channel-IsStuck c v,
  λ n. read_once-IsStuck n c v,
  λ b. got_data-IsStuck b c v,
  λ n. set_max_recv_window-IsStuck n c v,
  λ ok window d e. subst Stuck e (
      send_loop-Stuck ok _
        (record { locally = v.locally; remotely = v.remotely; waiting = v.waiting })),
  λ ok fut msg. write-IsStuck ok fut msg c v,
)

-- A channel gets there when, with bytes still in its send queue, it is closed by the remote side and
-- then locally.
pub close_impl-remote_closed :
    (c : YamuxChannel)
    → is_nil c.send_queue ≡ false
    → c.closed_remotely ≡ false
    → c.closed_locally ≡ false
    → c.close_event ≡ false
    → IsStuck (close_impl (remote_closed c))
unfolding close_impl remote_closed actually_close
close_impl-remote_closed c busy r l w = record {
  locally = ground arith;
  remotely = ground arith;
  waiting = ground arith;
}
