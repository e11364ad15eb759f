-- ===== src/Muxers/Yamux/Channel/History.antt =====
-- libp2p/muxers/yamux/yamux.nim: what can happen to a channel, and the window through all of it.
use nim_libp2p.Common.{
  ℕ, zero, suc, ◌+◌, ◌-◌, min, ◌≤◌, ◌≡◌, refl, subst, arith, Bool, true, false, Option, none, some,
  List, [], ◌∷◌, ◌++◌, map, length, ltb, ◌==◌, if◌then◌else◌, ◌||◌,
}
use nim_libp2p.Muxers.Yamux.Header.{data_header}
use nim_libp2p.Muxers.Yamux.Channel.{
  Ended, ToSend, YamuxChannel, completed, failed, length_send_queue, length_send_queue_with_limit,
  is_nil, put_frame, new_channel, open_channel, reset, close_impl, remote_closed,
  got_data_from_remote, read_once,
}
use nim_libp2p.Muxers.Yamux.Channel.SendLoop.{
  keep_unfinished, fill_buffer, last_flags, after_frame, after_failure, send_frame, send_round,
  send_rounds, send_loop, write,
}
use nim_libp2p.Muxers.Yamux.Channel.Window.{
  IsSound, grants_nothing, IsSound-same, close_impl-same, remote_closed-same, read_once-IsSound,
  got_data-IsSound,
}
use nim_libp2p.Muxers.Yamux.Channel.Reset.{reset-IsSound}

-- The fields of the sending side are of no account.
IsSound-sending :
    (n : ℕ) (c : YamuxChannel) (window : ℕ) (sending : Bool) (queue : List ToSend)
    (ended : List Ended)
    → IsSound n c
    → IsSound n
        (record c { send_window = window; is_sending = sending; send_queue = queue; ended = ended })
IsSound-sending n c window sending queue ended v = record {
  queue = v.queue;
  room = v.room;
  credit = v.credit;
  once = v.once;
}

after_frame-IsSound :
    (n k : ℕ) (r : List ℕ × List ℕ × List ToSend) (c : YamuxChannel)
    → IsSound n c
    → IsSound n (after_frame k r c)
after_frame-IsSound n k r c v =
    let framed : YamuxChannel =
      put_frame (data_header c.id k (last_flags k (length_send_queue c) c)) r.0 c in
    IsSound-sending n framed (c.send_window - k) c.is_sending r.2 (c.ended ++ map completed r.1)
      (IsSound-same n c framed (grants_nothing _ r.0 c refl) v)

abbrev Sound : ℕ → Option YamuxChannel → Type 0
Sound n none = Unit
Sound n (some d) = IsSound n d

abbrev SoundRound : ℕ → Option (Bool × YamuxChannel) → Type 0
SoundRound n none = Unit
SoundRound n (some r) = IsSound n r.1

send_frame-Sound :
    (n : ℕ) (ok : Bool) (c : YamuxChannel) → IsSound n c → SoundRound n (send_frame ok c)
unfolding send_frame
send_frame-Sound n ok c v =
    go ok (fill_buffer (min c.send_window (length_send_queue c)) c.send_queue)
  where
    k : ℕ
    k = min c.send_window (length_send_queue c)

    go :
        (ok : Bool) (o : Option (List ℕ × List ℕ × List ToSend))
        → SoundRound n (elim o [
          | none ↦ none
          | some r ↦ some (if ok then (true, after_frame k r c) else (false, after_failure r c))
        ])
    go ok none = tt
    go true (some r) = after_frame-IsSound n k r c v
    go false (some r) =
        reset-IsSound n false _ (IsSound-sending n c c.send_window c.is_sending r.2 _ v)

send_round-Sound :
    (n : ℕ) (ok : Bool) (c : YamuxChannel) → IsSound n c → SoundRound n (send_round ok c)
unfolding send_round
send_round-Sound n ok c v =
    go (c.send_window == 0) (ltb c.max_send_queue_size (length_send_queue_with_limit kept))
  where
    kept : YamuxChannel
    kept = record c { send_queue = keep_unfinished c.send_queue }

    sound : IsSound n kept
    sound = IsSound-sending n c c.send_window c.is_sending (keep_unfinished c.send_queue) c.ended v

    go :
        (empty big : Bool)
        → SoundRound n (
            if empty
            then some (false, if big then reset true kept else kept)
            else send_frame ok kept)
    go true true = reset-IsSound n true kept sound
    go true false = sound
    go false big = send_frame-Sound n ok kept sound

send_rounds-Sound :
    (fuel n k : ℕ) (ok : ℕ → Bool) (c : YamuxChannel)
    → IsSound n c
    → Sound n (send_rounds fuel ok k c)
unfolding send_rounds
send_rounds-Sound zero n k ok c v = tt
send_rounds-Sound (suc fuel) n k ok c v =
    go (is_nil c.send_queue) (send_round (ok k) c) (send_round-Sound n (ok k) c v)
      (λ d w. send_rounds-Sound fuel n (suc k) ok d w)
  where
    go :
        (nil : Bool) (r : Option (Bool × YamuxChannel))
        → SoundRound n r
        → ((d : YamuxChannel) → IsSound n d → Sound n (send_rounds fuel ok (suc k) d))
        → Sound n (elim nil [
          | true ↦ some c
          | false ↦ elim r [
            | none ↦ none
            | some (go_on, c') ↦ elim go_on [
              | true ↦ send_rounds fuel ok (suc k) c'
              | false ↦ some c'
            ]
          ]
        ])
    go true r w next = v
    go false none w next = tt
    go false (some (true, d)) w next = next d w
    go false (some (false, d)) w next = w

send_loop-Sound :
    (n : ℕ) (ok : ℕ → Bool) (c : YamuxChannel) → IsSound n c → Sound n (send_loop ok c)
unfolding send_loop
send_loop-Sound n ok c v = go c.is_sending (send_rounds 3 ok 0 started) (
    send_rounds-Sound 3 n 0 ok started
      (IsSound-sending n c c.send_window true c.send_queue c.ended v))
  where
    started : YamuxChannel
    started = record c { is_sending = true }

    go :
        (b : Bool) (r : Option YamuxChannel)
        → Sound n r
        → Sound n (
            if b
            then some c
            else elim r [ none ↦ none | some c' ↦ some (record c' { is_sending = false }) ])
    go true r w = v
    go false none w = tt
    go false (some d) w = IsSound-sending n d d.send_window false d.send_queue d.ended w

write-Sound :
    (n : ℕ) (ok : ℕ → Bool) (fut : ℕ) (msg : List ℕ) (c : YamuxChannel)
    → IsSound n c
    → Sound n (write ok fut msg c)
unfolding write
write-Sound n ok fut msg c v =
    go c.remote_reset (c.closed_locally || c.is_reset) (length msg == 0) c.is_sending
  where
    ending : (e : List Ended) → IsSound n (record c { ended = e })
    ending e = IsSound-sending n c c.send_window c.is_sending c.send_queue e v

    queued : YamuxChannel
    queued = record c {
      send_queue =
          c.send_queue ++ record { bytes = msg; sent = 0; fut = fut; finished = false } ∷ [];
    }

    sound : IsSound n queued
    sound = IsSound-sending n c c.send_window c.is_sending queued.send_queue c.ended v

    go :
        (gone closed nothing sending : Bool)
        → Sound n (
            if gone
            then some (record c { ended = c.ended ++ failed fut ∷ [] })
            else if closed
            then some (record c { ended = c.ended ++ failed fut ∷ [] })
            else if nothing
            then some (record c { ended = c.ended ++ completed fut ∷ [] })
            else if sending
            then some queued
            else send_loop ok queued)
    go true closed nothing sending = ending _
    go false true nothing sending = ending _
    go false false true sending = ending _
    go false false false true = sound
    go false false false false = send_loop-Sound n ok queued sound

open_channel-IsSound :
    (id : ℕ) (is_src : Bool) (window queue_size : ℕ)
    → IsSound 0 (open_channel (new_channel id is_src window queue_size))
unfolding open_channel
open_channel-IsSound id is_src window queue_size = record {
  queue = record { good = tt; counted = refl };
  room = ground arith;
  credit = λ _. ground arith;
  once = λ e. absurd (ground arith);
}

-- `History n c`: from its creation on, the channel became `c` and took `n` bytes from the peer. The
-- session takes a data frame only within the window, and a window update sets the send window. The
-- maximal receive window stays the one of the creation.
pub data History : ℕ → YamuxChannel → Type 0 where
  opened :
      (id : ℕ) (is_src : Bool) (window queue_size : ℕ)
      → History 0 (open_channel (new_channel id is_src window queue_size))
  received :
      {n : ℕ} {c : YamuxChannel} (b : List ℕ)
      → length b ≤ c.recv_window
      → History n c
      → History (n + length b) (got_data_from_remote b c)
  reads : {n : ℕ} {c : YamuxChannel} (nbytes : ℕ) → History n c → History n (read_once nbytes c).1
  closes : {n : ℕ} {c : YamuxChannel} → History n c → History n (close_impl c)
  remote_closes : {n : ℕ} {c : YamuxChannel} → History n c → History n (remote_closed c)
  resets : {n : ℕ} {c : YamuxChannel} (is_local : Bool) → History n c → History n (reset is_local c)
  writes :
      {n : ℕ} {c d : YamuxChannel} (ok : ℕ → Bool) (fut : ℕ) (msg : List ℕ)
      → write ok fut msg c ≡ some d
      → History n c
      → History n d
  sends :
      {n : ℕ} {c d : YamuxChannel} (ok : ℕ → Bool) (window : ℕ)
      → send_loop ok (record c { send_window = window }) ≡ some d
      → History n c
      → History n d

-- Through every history of a channel: its queue is well formed, what is queued and what may still
-- come is at most the larger of its own and the default window, and unless the peer reset the
-- channel, the window that it keeps for the peer is the one that the peer computes, the default one
-- and every window update that was written, less the bytes that came.
pub History-IsSound : (n : ℕ) (c : YamuxChannel) → History n c → IsSound n c
History-IsSound _ _ (opened id is_src window queue_size) =
    open_channel-IsSound id is_src window queue_size
History-IsSound _ _ (received {n} {c} b h s) = got_data-IsSound n b c h (History-IsSound n c s)
History-IsSound _ _ (reads {n} {c} k s) = read_once-IsSound n k c (History-IsSound n c s)
History-IsSound _ _ (closes {n} {c} s) =
    IsSound-same n c _ (close_impl-same c) (History-IsSound n c s)
History-IsSound _ _ (remote_closes {n} {c} s) =
    IsSound-same n c _ (remote_closed-same c) (History-IsSound n c s)
History-IsSound _ _ (resets {n} {c} l s) = reset-IsSound n l c (History-IsSound n c s)
History-IsSound _ _ (writes {n} {c} {d} ok fut msg e s) =
    subst (Sound n) e (write-Sound n ok fut msg c (History-IsSound n c s))
History-IsSound _ _ (sends {n} {c} {d} ok window e s) = subst (Sound n) e (
    send_loop-Sound n ok _
      (IsSound-sending n c window c.is_sending c.send_queue c.ended (History-IsSound n c s)))
