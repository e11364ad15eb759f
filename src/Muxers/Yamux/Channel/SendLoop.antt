-- ===== src/Muxers/Yamux/Channel/SendLoop.antt =====
-- libp2p/muxers/yamux/yamux.nim: `sendLoop` and `write` of a channel.
use nim_libp2p.Common.{
  ℕ, zero, suc, ◌+◌, ◌-◌, min, Bool, true, false, Option, none, some, List, [], ◌∷◌, ◌++◌, map,
  length, take, drop, ltb, leb, ◌==◌, ◌&&◌, ◌||◌, if◌then◌else◌,
}
use nim_libp2p.Muxers.Yamux.Header.{Flags, no_flags, data_header}
use nim_libp2p.Muxers.Yamux.Channel.{
  ToSend, YamuxChannel, completed, failed, unsent, length_send_queue, length_send_queue_with_limit,
  is_nil, put_frame, fin_flag, reset,
}

unfoldable pub keep_unfinished : List ToSend → List ToSend
keep_unfinished [] = []
keep_unfinished (t ∷ ts) = if t.finished then keep_unfinished ts else t ∷ keep_unfinished ts

-- The inner loop of `sendLoop`: what goes into the buffer, the futures of the messages that are in
-- it to their end, and the queue that is left. `none` is an index fault.
unfoldable pub fill_buffer : ℕ → List ToSend → Option (List ℕ × List ℕ × List ToSend)
fill_buffer zero ts = some ([], [], ts)
fill_buffer (suc want) [] = none
fill_buffer (suc want) (t ∷ ts) =
    let n : ℕ = min (unsent t) (suc want) in
    let part : List ℕ = take n (drop t.sent t.bytes) in
    let rest : Option (List ℕ × List ℕ × List ToSend) = fill_buffer (suc want - n) ts in
    if leb (length t.bytes) (t.sent + n)
    then elim rest [ none ↦ none | some (out, futs, left) ↦ some (part ++ out, t.fut ∷ futs, left) ]
    -- Not all of the message was taken, so it filled the buffer.
    else some (part, [], record t { sent = t.sent + n } ∷ ts)

unfoldable pub last_flags : ℕ → ℕ → YamuxChannel → Flags
last_flags n available c = if leb available n && c.closed_locally then fin_flag else no_flags

-- The frame, of the first `n` bytes of the queue, is written, and `r` is what `fill_buffer` gave.
abbrev pub after_frame : ℕ → List ℕ × List ℕ × List ToSend → YamuxChannel → YamuxChannel
after_frame n (out, futs, left) c =
    let flags : Flags = last_flags n (length_send_queue c) c in
    let framed : YamuxChannel = put_frame (data_header c.id n flags) out c in
    record framed {
      send_queue = left;
      send_window = c.send_window - n;
      ended = c.ended ++ map completed futs;
    }

-- The write of the frame failed.
abbrev pub after_failure : List ℕ × List ℕ × List ToSend → YamuxChannel → YamuxChannel
after_failure (out, futs, left) c =
    reset false (record c { send_queue = left; ended = c.ended ++ map failed futs })

-- One frame of `sendLoop`, with the queue rid of what finished and a window that is not empty.
-- `ok` says whether the write on the connection succeeds. The result says whether to go on.
unfoldable pub send_frame : Bool → YamuxChannel → Option (Bool × YamuxChannel)
unfolding fill_buffer
send_frame ok c =
    let n : ℕ = min c.send_window (length_send_queue c) in
    elim (fill_buffer n c.send_queue) [
      | none ↦ none
      | some r ↦ some (if ok then (true, after_frame n r c) else (false, after_failure r c))
    ]

-- One round of `sendLoop`.
unfoldable pub send_round : Bool → YamuxChannel → Option (Bool × YamuxChannel)
unfolding send_frame keep_unfinished reset
send_round ok c =
    let kept : YamuxChannel = record c { send_queue = keep_unfinished c.send_queue } in
    if kept.send_window == 0
    then some (
      false,
      if ltb kept.max_send_queue_size (length_send_queue_with_limit kept)
          then reset true kept
          else kept,
    )
    else send_frame ok kept

-- `ok n` says whether write number `n` succeeds. `none` is a fault, or the fuel ran out.
unfoldable pub send_rounds : ℕ → (ℕ → Bool) → ℕ → YamuxChannel → Option YamuxChannel
send_rounds zero ok n c = none
send_rounds (suc fuel) ok n c = elim (is_nil c.send_queue) [
  | true ↦ some c
  | false ↦ elim (send_round (ok n) c) [
    | none ↦ none
    | some (go_on, c') ↦ elim go_on [ true ↦ send_rounds fuel ok (suc n) c' | false ↦ some c' ]
  ]
]

-- A round with a window empties the window or the queue, so three rounds are enough.
unfoldable pub send_loop : (ℕ → Bool) → YamuxChannel → Option YamuxChannel
send_loop ok c =
    if c.is_sending then some c else elim (send_rounds 3 ok 0 (record c { is_sending = true })) [
      | none ↦ none
      | some c' ↦ some (record c' { is_sending = false })
    ]

-- `write` of a message whose future is number `fut`.
unfoldable pub write : (ℕ → Bool) → ℕ → List ℕ → YamuxChannel → Option YamuxChannel
write ok fut msg c =
    if c.remote_reset
    then some (record c { ended = c.ended ++ failed fut ∷ [] })
    else if c.closed_locally || c.is_reset
    then some (record c { ended = c.ended ++ failed fut ∷ [] })
    else if length msg == 0
    then some (record c { ended = c.ended ++ completed fut ∷ [] })
    else let queued : YamuxChannel = record c {
      send_queue =
          c.send_queue ++ record { bytes = msg; sent = 0; fut = fut; finished = false } ∷ [];
    } in
      if queued.is_sending then some queued else send_loop ok queued
