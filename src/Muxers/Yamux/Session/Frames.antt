-- ===== src/Muxers/Yamux/Session/Frames.antt =====
-- libp2p/muxers/yamux/yamux.nim: one round of `handle` keeps the bounds of the session.
use nim_libp2p.Common.{
  ℕ, ◌+◌, ◌%◌, min, ◌≡◌, inl, inr, ap, arith, Bool, true, false, Option, none, some, is_some, List,
  length, take, drop, ltb, leb, ◌==◌, not, ℕ_discrete, if◌then◌else◌, Bool-cases, Option-cases,
  length-drop,
}
use nim_libp2p.Common.Table
use nim_libp2p.Muxers.Yamux.Header.{
  YamuxHeader, MsgType, data_msg, window_update, ping, go_away, ping_header,
}
use nim_libp2p.Muxers.Yamux.Channel.{
  YamuxChannel, max_send_window, ack_flag, new_channel, open_channel, got_data_from_remote,
  remote_closed, reset,
}
use nim_libp2p.Muxers.Yamux.Channel.SendLoop.{send_loop}
use nim_libp2p.Muxers.Yamux.Session.{Yamux, put_written, put_channel, create_stream, forget_flushed}
use nim_libp2p.Muxers.Yamux.Session.Handle.{
  going, stopped, stream_error, yamux_error, defect, read_exactly, is_data, unknown_stream,
  apply_flags, window_frame, data_frame, stream_frame, new_remote_stream, data_or_window,
  handle_header,
}
use nim_libp2p.Muxers.Yamux.Session.Valid.{
  IsChannel, IsValid, All-lookup, forget_flushed-IsValid, put_channel-IsValid, got_data-IsChannel,
  remote_closed-IsChannel, reset-IsChannel, send_loop-IsChannel,
}
use nim_libp2p.Muxers.Yamux.Session.Skipped.{
  Good, put_written-IsValid, if-Good, refuse_stream-Good, unknown_stream-Good,
}

apply_flags-IsChannel :
    (h : YamuxHeader) (c : YamuxChannel) → IsChannel c → IsChannel (apply_flags h c)
unfolding apply_flags
apply_flags-IsChannel h c q = go h.flags.fin h.flags.rst
  where
    go :
        (fin rst : Bool)
        → IsChannel (
            if rst
            then reset false (if fin then remote_closed c else c)
            else if fin
            then remote_closed c
            else c)
    go true true = reset-IsChannel false _ (remote_closed-IsChannel c q)
    go true false = remote_closed-IsChannel c q
    go false true = reset-IsChannel false c q
    go false false = q

window_frame-Good :
    (writes : ℕ → Bool) (h : YamuxHeader) (c : YamuxChannel) (bytes : List ℕ) (m : Yamux)
    → Table.has_key ℕ_discrete h.stream_id m.channels ≡ true
    → IsChannel c
    → IsValid m
    → Good (length bytes) (window_frame writes h c bytes m)
unfolding window_frame
window_frame-Good writes h c bytes m key q v = go c.is_sending
  where
    grown : YamuxChannel
    grown = record c { send_window = min (c.send_window + h.length) max_send_window }

    put :
        (d : YamuxChannel)
        → IsChannel d
        → Good (length bytes) (going (put_channel h.stream_id (apply_flags h d) m) bytes)
    put d qd = (
      put_channel-IsValid h.stream_id (apply_flags h d) m (inl key) (apply_flags-IsChannel h d qd)
          v,
      omega arith,
    )

    loop : Good (length bytes) (elim (send_loop writes grown) [
      | none ↦ defect
      | some d ↦ going (put_channel h.stream_id (apply_flags h d) m) bytes
    ])
    loop = let (d, e, qd) = send_loop-IsChannel writes grown q in rw e (put d qd)

    go :
        (b : Bool)
        → Good (length bytes) (elim (if not b then send_loop writes grown else some grown) [
          | none ↦ defect
          | some d ↦ going (put_channel h.stream_id (apply_flags h d) m) bytes
        ])
    go true = put grown q
    go false = loop

data_frame-Good :
    (h : YamuxHeader) (c : YamuxChannel) (bytes : List ℕ) (m : Yamux)
    → Table.has_key ℕ_discrete h.stream_id m.channels ≡ true
    → IsChannel c
    → IsValid m
    → Good (length bytes) (data_frame h c bytes m)
unfolding data_frame read_exactly
data_frame-Good h c bytes m key q v =
    go (ltb c.recv_window h.length) (ltb 0 h.length) (leb h.length (length bytes))
  where
    put : (d : YamuxChannel) → IsChannel d → IsValid (put_channel h.stream_id (apply_flags h d) m)
    put d qd =
        put_channel-IsValid h.stream_id (apply_flags h d) m (inl key) (apply_flags-IsChannel h d qd)
          v

    taken : Bool → Option (List ℕ × List ℕ)
    taken fits = if fits then some (take h.length bytes, drop h.length bytes) else none

    go :
        (big some_bytes fits : Bool)
        → Good (length bytes) (
            if big
            then yamux_error m
            else if some_bytes
            then elim (taken fits) [
              | none ↦ stream_error m
              | some (b, rest) ↦
                  going (put_channel h.stream_id (apply_flags h (got_data_from_remote b c)) m) rest
            ]
            else going (put_channel h.stream_id (apply_flags h c) m) bytes)
    go true some_bytes fits = v
    go false false fits = (put c q, omega arith)
    go false true false = v
    go false true true = (
      put _ (got_data-IsChannel (take h.length bytes) c q),
      omega (arith, length-drop h.length bytes),
    )

stream_frame-Good :
    (writes : ℕ → Bool) (h : YamuxHeader) (bytes : List ℕ) (m : Yamux)
    → IsValid m
    → Good (length bytes) (stream_frame writes h bytes m)
unfolding stream_frame
stream_frame-Good writes h bytes m v =
    elim (Option-cases (Table.lookup ℕ_discrete h.stream_id m.channels)) [
      | inl e ↦ rw (e, stream_frame) v
      | inr (c, e) ↦
          let key : Table.has_key ℕ_discrete h.stream_id m.channels ≡ true = ap is_some e in
          let q : IsChannel c = All-lookup h.stream_id c m.channels v.queues e in
          rw (e, stream_frame)
            (if-Good (length bytes) (is_data h.msg_type) (data_frame h c bytes m)
              (window_frame writes h c bytes m) (λ _. data_frame-Good h c bytes m key q v)
              (λ _. window_frame-Good writes h c bytes m key q v))
    ]

new_remote_stream-Good :
    (writes : ℕ → Bool) (h : YamuxHeader) (bytes : List ℕ) (m : Yamux)
    → IsValid m
    → Good (length bytes) (new_remote_stream writes h bytes m)
unfolding new_remote_stream create_stream open_channel forget_flushed
new_remote_stream-Good writes h bytes m v =
    let id : ℕ = h.stream_id in
    let forgotten : Yamux = forget_flushed id m in
    let w : IsValid forgotten = forget_flushed-IsValid id m v in
    let c : YamuxChannel = new_channel id false m.window_size m.max_send_queue_size in
    let created : Yamux = put_channel id c forgotten in
    let key : Table.has_key ℕ_discrete id created.channels ≡ true =
      ap is_some (Table.lookup-insert_self ℕ_discrete id c forgotten.channels) in
    if-Good (length bytes) (id % 2 == m.current_id % 2) _ _ (λ _. w)
      (λ _.
        if-Good (length bytes) (leb m.max_chann_count (length m.channels)) _ _
          (λ _. refuse_stream-Good h bytes forgotten w)
          (λ room. stream_frame-Good writes h bytes _ (
            put_channel-IsValid id (open_channel c) created (inl key) tt
              (put_channel-IsValid id c forgotten (inr (ground arith)) tt w))))

data_or_window-Good :
    (writes : ℕ → Bool) (h : YamuxHeader) (bytes : List ℕ) (m : Yamux)
    → IsValid m
    → Good (length bytes) (data_or_window writes h bytes m)
unfolding data_or_window
data_or_window-Good writes h bytes m v =
    if-Good (length bytes) (Table.has_key ℕ_discrete h.stream_id m.channels)
      (stream_frame writes h bytes m) _ (λ _. stream_frame-Good writes h bytes m v)
      (λ _.
        if-Good (length bytes) h.flags.syn (new_remote_stream writes h bytes m)
          (unknown_stream h bytes m) (λ _. new_remote_stream-Good writes h bytes m v)
          (λ _. unknown_stream-Good h bytes m v))

-- A round over a frame whose header was read, in a session within its bounds, is not at fault,
-- leaves no more bytes than it was given, and leaves a session within its bounds: no more open
-- channels than the limit, no more remembered streams, in their table and in its queue, which holds
-- every stream of the table, and every queued message with bytes left.
pub handle_header-Good :
    (writes : ℕ → Bool) (h : YamuxHeader) (bytes : List ℕ) (m : Yamux)
    → IsValid m
    → Good (length bytes) (handle_header writes h bytes m)
unfolding handle_header
handle_header-Good writes h bytes m v = go h.msg_type
  where
    go :
        (t : MsgType)
        → Good (length bytes) (elim t [
          | ping ↦
              going (if h.flags.syn then put_written (ping_header ack_flag h.length) m else m) bytes
          | go_away ↦ stopped m
          | data_msg ↦ data_or_window writes h bytes m
          | window_update ↦ data_or_window writes h bytes m
        ])
    go ping = (
      elim (Bool-cases h.flags.syn) [ inl e ↦ rw e (put_written-IsValid _ m v) | inr e ↦ rw e v ],
      omega arith,
    )
    go go_away = v
    go data_msg = data_or_window-Good writes h bytes m v
    go window_update = data_or_window-Good writes h bytes m v
