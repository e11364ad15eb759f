-- ===== src/Muxers/Yamux/Channel/ClosedTwice.antt =====
-- libp2p/muxers/yamux/yamux.nim: a channel that both sides closed, closed again, reset and read.
use nim_libp2p.Common.{
  ℕ, ◌≡◌, inl, inr, refl, arith, Bool, true, false, List, ◌&&◌, not, if◌then◌else◌, Option-cases,
}
use nim_libp2p.Utils.ZeroQueue
use nim_libp2p.Muxers.Yamux.Channel.{
  YamuxChannel, remote_closed, close_impl, clear_queues, begin_reset, reset_locally, reset_remotely,
  reset, update_recv_window, got_data_from_remote, read_queue, read_once, ReadResult, closed,
  conn_down, at_eof, remote_eof, blocked, open_channel, set_max_recv_window,
}

-- Both sides closed, and the event that its cleanup waits for did not fire.
pub record IsStuck (c : YamuxChannel) : Type 0 where
  pub locally : c.closed_locally ≡ true
  pub remotely : c.closed_remotely ≡ true
  pub waiting : c.close_event ≡ false

pub close_impl-IsStuck : (c : YamuxChannel) → IsStuck c → IsStuck (close_impl c)
unfolding close_impl
close_impl-IsStuck c v = simp (v.locally, close_impl) v

pub remote_closed-IsStuck : (c : YamuxChannel) → IsStuck c → IsStuck (remote_closed c)
unfolding remote_closed
remote_closed-IsStuck c v =
    let l = v.locally in
    let r = v.remotely in
    let w = v.waiting in
    record { locally = ground arith; remotely = ground arith; waiting = ground arith }

begin_reset-IsStuck : (l : Bool) (c : YamuxChannel) → IsStuck c → IsStuck (begin_reset l c)
unfolding begin_reset
begin_reset-IsStuck l c v = record {
  locally = v.locally;
  remotely = v.remotely;
  waiting = v.waiting;
}

reset_parts-IsStuck :
    (l : Bool) (c : YamuxChannel) → IsStuck c → IsStuck (reset_remotely (reset_locally l c))
unfolding reset_locally reset_remotely
reset_parts-IsStuck l c v =
    let same : reset_locally l c ≡ c = simp (v.locally, reset_locally) refl in
    rw same (simp (v.remotely, reset_remotely) v)

pub reset-IsStuck : (l : Bool) (c : YamuxChannel) → IsStuck c → IsStuck (reset l c)
unfolding reset
reset-IsStuck l c v = go c.is_reset l
  where
    down : YamuxChannel
    down = reset_remotely (reset_locally l (begin_reset l c))

    stuck : IsStuck down
    stuck = reset_parts-IsStuck l (begin_reset l c) (begin_reset-IsStuck l c v)

    go :
        (b m : Bool)
        → IsStuck (if b then c else if m then down else record down { recv_window = 0 })
    go true m = v
    go false true = stuck
    go false false = record {
      locally = stuck.locally;
      remotely = stuck.remotely;
      waiting = stuck.waiting;
    }

update-IsStuck : (c : YamuxChannel) → IsStuck c → IsStuck (update_recv_window c)
unfolding update_recv_window
update-IsStuck c v =
    let l = v.locally in
    let r = v.remotely in
    let w = v.waiting in
    record { locally = ground arith; remotely = ground arith; waiting = ground arith }

pub got_data-IsStuck :
    (b : List ℕ) (c : YamuxChannel) → IsStuck c → IsStuck (got_data_from_remote b c)
unfolding got_data_from_remote
got_data-IsStuck b c v =
    update-IsStuck _ (record { locally = v.locally; remotely = v.remotely; waiting = v.waiting })

read_queue-IsStuck : (n : ℕ) (c : YamuxChannel) → IsStuck c → IsStuck (read_queue n c).1
unfolding read_queue
read_queue-IsStuck n c v = elim (Option-cases (ZeroQueue.consume_to n c.recv_queue)) [
  | inl e ↦ simp (e, read_queue) v
  | inr (r, e) ↦
      simp (e, read_queue)
        (update-IsStuck _
          (record { locally = v.locally; remotely = v.remotely; waiting = v.waiting }))
]

either-IsStuck :
    (b : Bool) (x y : ReadResult × YamuxChannel)
    → IsStuck x.1
    → IsStuck y.1
    → IsStuck (if b then x else y).1
either-IsStuck true x y v w = v
either-IsStuck false x y v w = w

clear_queues-IsStuck : (b : Bool) (c : YamuxChannel) → IsStuck c → IsStuck (clear_queues b c)
unfolding clear_queues
clear_queues-IsStuck b c v = record {
  locally = v.locally;
  remotely = v.remotely;
  waiting = v.waiting;
}

pub read_once-IsStuck : (n : ℕ) (c : YamuxChannel) → IsStuck c → IsStuck (read_once n c).1
unfolding read_once
read_once-IsStuck n c v =
    let down : ReadResult =
      if c.remote_reset
      then ReadResult.remote_reset
      else if c.closed_locally
      then closed
      else conn_down in
    let at_end : YamuxChannel = record c { is_eof = true } in
    let ended : IsStuck at_end = record {
      locally = v.locally;
      remotely = v.remotely;
      waiting = v.waiting;
    } in
    let empty : Bool = ZeroQueue.is_empty c.recv_queue in
    let last : ReadResult × YamuxChannel =
      if empty then (at_eof, clear_queues false at_end) else read_queue n c in
    let waits : ReadResult × YamuxChannel =
      if empty && not c.closed_remotely then (blocked, c) else last in
    let eof : ReadResult × YamuxChannel =
      if c.is_eof then (remote_eof, clear_queues false c) else waits in
    either-IsStuck c.is_reset (down, c) eof v
      (either-IsStuck c.is_eof (remote_eof, clear_queues false c) waits
        (clear_queues-IsStuck false c v)
        (either-IsStuck (empty && not c.closed_remotely) (blocked, c) last v
          (either-IsStuck empty (at_eof, clear_queues false at_end) (read_queue n c)
            (clear_queues-IsStuck false at_end ended) (read_queue-IsStuck n c v))))

pub open_channel-IsStuck : (c : YamuxChannel) → IsStuck c → IsStuck (open_channel c)
unfolding open_channel
open_channel-IsStuck c v =
    let l = v.locally in
    let r = v.remotely in
    let w = v.waiting in
    record { locally = ground arith; remotely = ground arith; waiting = ground arith }

pub set_max_recv_window-IsStuck :
    (n : ℕ) (c : YamuxChannel) → IsStuck c → IsStuck (set_max_recv_window n c)
unfolding set_max_recv_window
set_max_recv_window-IsStuck n c v = record {
  locally = v.locally;
  remotely = v.remotely;
  waiting = v.waiting;
}
