-- ===== src/Muxers/Yamux/Channel/Reset.antt =====
-- libp2p/muxers/yamux/yamux.nim: what `reset` of a channel does to its window and its queues.
use nim_libp2p.Common.{ℕ, ◌≡◌, ◌⊎◌, refl, arith, Bool, true, false, [], not, ◌&&◌, if◌then◌else◌}
use nim_libp2p.Utils.ZeroQueue
use nim_libp2p.Muxers.Yamux.Header.{data_header}
use nim_libp2p.Muxers.Yamux.Channel.{
  YamuxChannel, rst_flag, reset_locally, reset_remotely, begin_reset, put_frame, remote_closed,
  close_impl, reset,
}
use nim_libp2p.Muxers.Yamux.Channel.Window.{
  IsSound, SameWindow, SameWindow-refl, SameWindow-trans, IsSound-same, grants_nothing,
  close_impl-same, remote_closed-same,
}

if-same :
    (b : Bool) (c x y : YamuxChannel)
    → SameWindow c x
    → SameWindow c y
    → SameWindow c (if b then x else y)
if-same true c x y s t = s
if-same false c x y s t = t

reset_locally-same : (l : Bool) (c : YamuxChannel) → SameWindow c (reset_locally l c)
unfolding reset_locally
reset_locally-same l c =
    let rst : YamuxChannel = put_frame (data_header c.id 0 rst_flag) [] c in
    let told : YamuxChannel = if l && not c.is_sending then rst else c in
    let nothing : SameWindow c told =
      if-same (l && not c.is_sending) c rst c
        (grants_nothing (data_header c.id 0 rst_flag) [] c refl) (SameWindow-refl c) in
    if-same (not c.closed_locally) c (close_impl told) c
      (SameWindow-trans c told (close_impl told) nothing (close_impl-same told)) (SameWindow-refl c)

reset_remotely-same : (c : YamuxChannel) → SameWindow c (reset_remotely c)
unfolding reset_remotely
reset_remotely-same c =
    if-same (not c.closed_remotely) c (remote_closed c) c (remote_closed-same c) (SameWindow-refl c)

reset_parts-same : (l : Bool) (c : YamuxChannel) → SameWindow c (reset_remotely (reset_locally l c))
reset_parts-same l c =
    SameWindow-trans c (reset_locally l c) _ (reset_locally-same l c) (reset_remotely-same _)

begin_reset-local :
    (n : ℕ) (c : YamuxChannel) → c.is_reset ≡ false → IsSound n c → IsSound n (begin_reset true c)
unfolding begin_reset ZeroQueue.clear
begin_reset-local n c e v = record {
  queue = record { good = tt; counted = refl };
  room = omega (arith, v.room);
  credit = λ _. v.credit (ground (arith, v.once));
  once = λ _. refl;
}

-- A remote reset takes the window away.
reset_remote-IsSound :
    (n : ℕ) (c d : YamuxChannel)
    → SameWindow (begin_reset false c) d
    → IsSound n (record d { recv_window = 0 })
unfolding begin_reset ZeroQueue.clear
reset_remote-IsSound n c d s = record {
  queue = rw s.queue (record { good = tt; counted = refl });
  room = rw s.queue (omega arith);
  credit = λ e. absurd (ground (arith, s.remote));
  once = λ _. s.down;
}

pub reset-IsSound : (n : ℕ) (l : Bool) (c : YamuxChannel) → IsSound n c → IsSound n (reset l c)
unfolding reset
reset-IsSound n true c v = go c.is_reset refl
  where
    go :
        (b : Bool)
        → c.is_reset ≡ b
        → IsSound n (if b then c else reset_remotely (reset_locally true (begin_reset true c)))
    go true e = v
    go false e =
        IsSound-same n (begin_reset true c) _ (reset_parts-same true _) (begin_reset-local n c e v)
reset-IsSound n false c v = go c.is_reset
  where
    go :
        (b : Bool)
        → IsSound n (
            if b then c else record (reset_remotely (reset_locally false (begin_reset false c))) {
              recv_window = 0;
            })
    go true = v
    go false = reset_remote-IsSound n c _ (reset_parts-same false _)

pub reset-is_reset : (l : Bool) (c : YamuxChannel) → (reset l c).is_reset ≡ true
unfolding reset begin_reset
reset-is_reset l c = let s = reset_parts-same l (begin_reset l c) in ground (arith, s.down)

-- A reset leaves the send queue as it is, if it was done before, or empties it.
pub reset-send_queue :
    (l : Bool) (c : YamuxChannel)
    → ((reset l c).send_queue ≡ c.send_queue) ⊎ ((reset l c).send_queue ≡ [])
unfolding reset begin_reset
reset-send_queue l c = let s = reset_parts-same l (begin_reset l c) in ground (arith, s.sending)
