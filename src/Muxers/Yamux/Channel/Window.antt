-- ===== src/Muxers/Yamux/Channel/Window.antt =====
-- libp2p/muxers/yamux/yamux.nim: the receive window of a channel, against the credit that the peer
-- has from the frames it was sent.
use nim_libp2p.Common.{
  ℕ, ◌+◌, ◌-◌, ◌/◌, max, ◌≤◌, ◌≡◌, inl, inr, refl, sym, ap, ◌∙◌, arith, Bool, true, false, List, [],
  ◌∷◌, ◌++◌, length, ltb, Bool-cases, not, ◌&&◌, if◌then◌else◌, length-append, length-drop,
}
use nim_libp2p.Utils.ZeroQueue
use nim_libp2p.Utils.ZeroQueue.Content
use nim_libp2p.Utils.ZeroQueue.Consume
use nim_libp2p.Muxers.Yamux.Header.{
  YamuxHeader, data_header, window_update_header, MsgType, data_msg, window_update, ping, go_away,
  no_flags,
}
use nim_libp2p.Muxers.Yamux.Channel.{
  Frame, YamuxChannel, fin_flag, yamux_default_window_size, put_frame, actually_close,
  remote_closed, close_impl, clear_queues, update_recv_window, got_data_from_remote, read_once,
  ReadResult, read_queue, closed, conn_down, at_eof, remote_eof, blocked,
}

-- The credit of the window updates among the frames.
abbrev pub delta_of : MsgType → ℕ → ℕ
delta_of window_update n = n
delta_of data_msg n = 0
delta_of ping n = 0
delta_of go_away n = 0

abbrev pub granted : List Frame → ℕ
granted [] = 0
granted (f ∷ fs) = delta_of f.header.msg_type f.header.length + granted fs

pub granted-append : (fs gs : List Frame) → granted (fs ++ gs) ≡ granted fs + granted gs
granted-append [] gs = omega arith
granted-append (f ∷ fs) gs = omega (arith, granted-append fs gs)

-- `received` bytes came so far. The queue is well formed; what is queued and may still come fits the
-- window; and the peer, that starts with the default window and adds every window update it is
-- sent, may send exactly `recv_window` more bytes.
pub record IsSound (received : ℕ) (c : YamuxChannel) : Type 0 where
  pub queue : Content.IsValid c.recv_queue
  pub room :
      c.recv_window + length (Content.content c.recv_queue)
      ≤ max c.max_recv_window yamux_default_window_size
  pub credit :
      c.remote_reset ≡ false
      → granted c.written + yamux_default_window_size ≡ received + c.recv_window
  pub once : c.remote_reset ≡ true → c.is_reset ≡ true

-- A channel with the same receiving side, but for frames that grant nothing.
pub record SameWindow (c d : YamuxChannel) : Type 0 where
  pub window : d.recv_window ≡ c.recv_window
  pub most : d.max_recv_window ≡ c.max_recv_window
  pub queue : d.recv_queue ≡ c.recv_queue
  pub frames : granted d.written ≡ granted c.written
  pub remote : d.remote_reset ≡ c.remote_reset
  pub down : d.is_reset ≡ c.is_reset
  pub sending : d.send_queue ≡ c.send_queue

pub SameWindow-refl : (c : YamuxChannel) → SameWindow c c
SameWindow-refl c = record {
  window = refl;
  most = refl;
  queue = refl;
  frames = refl;
  remote = refl;
  down = refl;
  sending = refl;
}

pub SameWindow-trans : (c d e : YamuxChannel) → SameWindow c d → SameWindow d e → SameWindow c e
SameWindow-trans c d e s t = record {
  window = t.window ∙ s.window;
  most = t.most ∙ s.most;
  queue = t.queue ∙ s.queue;
  frames = t.frames ∙ s.frames;
  remote = t.remote ∙ s.remote;
  down = t.down ∙ s.down;
  sending = t.sending ∙ s.sending;
}

pub IsSound-same : (n : ℕ) (c d : YamuxChannel) → SameWindow c d → IsSound n c → IsSound n d
IsSound-same n c d s v = record {
  queue = rw s.queue v.queue;
  room = rw (s.queue, s.window, s.most) v.room;
  credit = λ e. omega (arith, s.frames, s.window, v.credit (sym s.remote ∙ e));
  once = λ e. s.down ∙ v.once (sym s.remote ∙ e);
}

pub grants_nothing :
    (h : YamuxHeader) (payload : List ℕ) (c : YamuxChannel)
    → delta_of h.msg_type h.length ≡ 0
    → SameWindow c (put_frame h payload c)
grants_nothing h payload c e = record {
  window = refl;
  most = refl;
  queue = refl;
  frames = granted-append c.written (record { header = h; payload = payload } ∷ []) ∙ omega arith;
  remote = refl;
  down = refl;
  sending = refl;
}

pub actually_close-same : (c : YamuxChannel) → SameWindow c (actually_close c)
unfolding actually_close
actually_close-same c = record {
  window = ground arith;
  most = ground arith;
  queue = ground arith;
  frames = ground arith;
  remote = ground arith;
  down = ground arith;
  sending = ground arith;
}

pub remote_closed-same : (c : YamuxChannel) → SameWindow c (remote_closed c)
unfolding remote_closed
remote_closed-same c = record {
  window = ground arith;
  most = ground arith;
  queue = ground arith;
  frames = ground arith;
  remote = ground arith;
  down = ground arith;
  sending = ground arith;
}

pub close_impl-same : (c : YamuxChannel) → SameWindow c (close_impl c)
unfolding close_impl
close_impl-same c =
    let g =
      granted-append c.written
        (record { header = data_header c.id 0 fin_flag; payload = [] } ∷ []) in
    record {
      window = ground arith;
      most = ground arith;
      queue = ground arith;
      frames = ground arith;
      remote = ground arith;
      down = ground arith;
      sending = ground arith;
    }

pub clear_queues-IsSound :
    (b : Bool) (n : ℕ) (c : YamuxChannel) → IsSound n c → IsSound n (clear_queues b c)
unfolding clear_queues ZeroQueue.clear
clear_queues-IsSound b n c v = record {
  queue = record { good = tt; counted = refl };
  room = omega (arith, v.room);
  credit = v.credit;
  once = v.once;
}

update_recv_window-IsSound :
    (n : ℕ) (c : YamuxChannel) → IsSound n c → IsSound n (update_recv_window c)
unfolding update_recv_window
update_recv_window-IsSound n c v =
    let counted = v.queue.counted in
    let room = v.room in
    let credit = v.credit in
    let once = v.once in
    let delta : ℕ = c.max_recv_window - (c.recv_window + c.recv_queue.queued_bytes) in
    let frames =
      granted-append c.written
        (record { header = window_update_header c.id delta no_flags; payload = [] } ∷ []) in
    elim (Bool-cases (ltb (c.max_recv_window / 2) (c.recv_window + ZeroQueue.len c.recv_queue))) [
      | inl full ↦ rw (full, update_recv_window) v
      | inr low ↦
          rw (low, update_recv_window)
            (record {
              queue = v.queue;
              room = ground arith;
              credit = λ e. ground (arith, v.credit e);
              once = v.once;
            })
    ]

pub got_data-IsSound :
    (n : ℕ) (b : List ℕ) (c : YamuxChannel)
    → length b ≤ c.recv_window
    → IsSound n c
    → IsSound (n + length b) (got_data_from_remote b c)
unfolding got_data_from_remote
got_data-IsSound n b c h v =
    let (queue, content) = Content.push-content b c.recv_queue v.queue in
    update_recv_window-IsSound (n + length b) _ (record {
      queue = queue;
      room =
          omega (arith, v.room, ap length content, length-append (Content.content c.recv_queue) b);
      credit = λ e. omega (arith, v.credit e);
      once = v.once;
    })

taken-IsSound :
    (n k : ℕ) (c : YamuxChannel) (r : List ℕ × ZeroQueue.ZeroQueue)
    → Consume.Reads k c.recv_queue r
    → IsSound n c
    → IsSound n (record c { recv_queue = r.1 })
taken-IsSound n k c r (queue, out, left) v = record {
  queue = queue;
  room = omega (arith, v.room, ap length left, length-drop k (Content.content c.recv_queue));
  credit = v.credit;
  once = v.once;
}

read_queue-IsSound : (n k : ℕ) (c : YamuxChannel) → IsSound n c → IsSound n (read_queue k c).1
unfolding read_queue
read_queue-IsSound n k c v =
    let (r, e, reads) = Consume.consume_to-Reads k c.recv_queue v.queue in
    simp (e, read_queue) (update_recv_window-IsSound n _ (taken-IsSound n k c r reads v))

either-IsSound :
    (n : ℕ) (b : Bool) (x y : ReadResult × YamuxChannel)
    → IsSound n x.1
    → IsSound n y.1
    → IsSound n (if b then x else y).1
either-IsSound n true x y v w = v
either-IsSound n false x y v w = w

eof-IsSound : (n : ℕ) (c : YamuxChannel) → IsSound n c → IsSound n (record c { is_eof = true })
eof-IsSound n c v = record { queue = v.queue; room = v.room; credit = v.credit; once = v.once }

pub read_once-IsSound : (n k : ℕ) (c : YamuxChannel) → IsSound n c → IsSound n (read_once k c).1
unfolding read_once
read_once-IsSound n k c v =
    let down : ReadResult =
      if c.remote_reset
      then ReadResult.remote_reset
      else if c.closed_locally
      then closed
      else conn_down in
    let ending : ReadResult × YamuxChannel =
      (at_eof, clear_queues false (record c { is_eof = true })) in
    let waiting : Bool = ZeroQueue.is_empty c.recv_queue && not c.closed_remotely in
    let last : ReadResult × YamuxChannel =
      if ZeroQueue.is_empty c.recv_queue then ending else read_queue k c in
    let open_end : ReadResult × YamuxChannel = if waiting then (blocked, c) else last in
    let at_end : ReadResult × YamuxChannel =
      if c.is_eof then (remote_eof, clear_queues false c) else open_end in
    either-IsSound n c.is_reset (down, c) at_end v
      (either-IsSound n c.is_eof (remote_eof, clear_queues false c) open_end
        (clear_queues-IsSound false n c v)
        (either-IsSound n waiting (blocked, c) last v
          (either-IsSound n (ZeroQueue.is_empty c.recv_queue) ending (read_queue k c)
            (clear_queues-IsSound false n _ (eof-IsSound n c v)) (read_queue-IsSound n k c v))))
