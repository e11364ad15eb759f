-- ===== src/Muxers/Yamux/Channel/Round.antt =====
-- libp2p/muxers/yamux/yamux.nim: one round of `sendLoop`, and the round that ends it.
use nim_libp2p.Common.{
  ℕ, suc, ◌+◌, min, ◌<◌, ◌≡◌, ◌⊎◌, inl, inr, refl, ap, ◌∙◌, arith, Bool, true, false, some, List,
  [], ◌∷◌, ◌++◌, length, All, ◌==◌, ltb, Bool-cases, append-nil, dec_le,
}
use nim_libp2p.Muxers.Yamux.Header.{data_header}
use nim_libp2p.Muxers.Yamux.Channel.{
  Frame, ToSend, YamuxChannel, length_of, length_send_queue_with_limit, is_nil, reset,
}
use nim_libp2p.Muxers.Yamux.Channel.SendLoop.{
  keep_unfinished, last_flags, after_frame, after_failure, send_frame, send_round, send_rounds,
}
use nim_libp2p.Muxers.Yamux.Channel.Reset.{reset-is_reset, reset-send_queue}
use nim_libp2p.Muxers.Yamux.Channel.Sends.{IsLive, pending, fill_buffer-Fills, keep_live}

abbrev pub payloads : List Frame → List ℕ
payloads [] = []
payloads (f ∷ fs) = f.payload ++ payloads fs

-- From `c`, with the queue `ts`, the channel wrote `frames` and became `d`.
pub record Sent (ts : List ToSend) (c d : YamuxChannel) (frames : List Frame) : Type 0 where
  pub written : d.written ≡ c.written ++ frames
  pub split : payloads frames ++ pending d.send_queue ≡ pending ts
  pub window : length (payloads frames) + d.send_window ≡ c.send_window
  pub live : All IsLive d.send_queue
  pub spent : (d.send_queue ≡ []) ⊎ (d.send_window ≡ 0)

-- A reset channel, with nothing in its queue that has no bytes left.
pub record Down (d : YamuxChannel) : Type 0 where
  pub is_reset : d.is_reset ≡ true
  pub live : All IsLive d.send_queue

reset-Down : (l : Bool) (c : YamuxChannel) → All IsLive c.send_queue → Down (reset l c)
reset-Down l c live = record {
  is_reset = reset-is_reset l c;
  live = elim (reset-send_queue l c) [ inl e ↦ rw e live | inr e ↦ rw e tt ];
}

emptied : (ts : List ToSend) → All IsLive ts → length_of ts ≡ 0 → ts ≡ []
emptied [] live e = refl
emptied (t ∷ ts) ((q, live), qs) e = absurd (omega arith)

pub send_frame-Sent :
    (c : YamuxChannel)
    → All IsLive c.send_queue
    → (d : YamuxChannel) × (frames : List Frame) × (send_frame true c ≡ some (true, d))
      × Sent c.send_queue c d frames
unfolding send_frame
send_frame-Sent c live =
    let n : ℕ = min c.send_window (length_of c.send_queue) in
    let (r, e, f) = fill_buffer-Fills n c.send_queue live (omega arith) in
    let frame : Frame = record {
      header = data_header c.id n (last_flags n (length_of c.send_queue) c);
      payload = r.0;
    } in
    (
      after_frame n r c,
      frame ∷ [],
      rw (e, send_frame) refl,
      record {
        written = refl;
        split = ap (λ x. x ++ pending r.2) (append-nil r.0) ∙ f.split;
        window = omega (arith, f.exact, ap length (append-nil r.0));
        live = f.live;
        spent = elim (dec_le (length_of c.send_queue) c.send_window) [
          | yes fits ↦ inl (emptied r.2 f.live (omega (arith, f.rest)))
          | no more ↦ inr (omega (arith, more))
        ];
      },
    )

pub send_frame-broken :
    (c : YamuxChannel)
    → All IsLive c.send_queue
    → (d : YamuxChannel) × (send_frame false c ≡ some (false, d)) × Down d
unfolding send_frame
send_frame-broken c live =
    let n : ℕ = min c.send_window (length_of c.send_queue) in
    let (r, e, f) = fill_buffer-Fills n c.send_queue live (omega arith) in
    (after_failure r c, rw (e, send_frame) refl, reset-Down false _ f.live)

-- With an empty window a round only drops what finished, or resets the channel.
pub send_round_idle :
    (ok : Bool) (c : YamuxChannel)
    → All IsLive (keep_unfinished c.send_queue)
    → c.send_window ≡ 0
    → (d : YamuxChannel) × (send_round ok c ≡ some (false, d))
      × (Down d ⊎ (d ≡ record c { send_queue = keep_unfinished c.send_queue }))
unfolding send_round
send_round_idle ok c live e =
    let kept : YamuxChannel = record c { send_queue = keep_unfinished c.send_queue } in
    let none_left : (c.send_window == 0) ≡ true = ground arith in
    elim (Bool-cases (ltb c.max_send_queue_size (length_send_queue_with_limit kept))) [
      | inl big ↦
          (reset true kept, simp (none_left, big, send_round) refl, inl (reset-Down true kept live))
      | inr small ↦ (kept, simp (none_left, small, send_round) refl, inr refl)
    ]

pub send_round_busy :
    (ok : Bool) (c : YamuxChannel)
    → 0 < c.send_window
    → send_round ok c ≡ send_frame ok (record c { send_queue = keep_unfinished c.send_queue })
unfolding send_round
send_round_busy ok c h =
    let some_left : (c.send_window == 0) ≡ false = ground arith in simp (some_left, send_round) refl

-- Once the queue or the window is empty, the loop ends.
pub rounds_end :
    (fuel n : ℕ) (ok : ℕ → Bool) (d : YamuxChannel)
    → All IsLive d.send_queue
    → (d.send_queue ≡ []) ⊎ (d.send_window ≡ 0)
    → (e : YamuxChannel) × (send_rounds (suc fuel) ok n d ≡ some e) × (Down e ⊎ (e ≡ d))
unfolding send_rounds
rounds_end fuel n ok d live spent = elim (Bool-cases (is_nil d.send_queue)) [
  | inl nil ↦ (d, simp (nil, send_rounds) refl, inr refl)
  | inr busy ↦
      let no_window : d.send_window ≡ 0 = elim spent [
        | inl e ↦ absurd (ground arith)
        | inr e ↦ e
      ] in
      let (e, stops, out) =
        send_round_idle (ok n) d (rw (keep_live d.send_queue live) live) no_window in
      (
        e,
        simp (busy, send_rounds) (simp (stops, send_rounds) refl),
        elim out [
          | inl r ↦ inl r
          | inr same ↦
              inr (same ∙ ap (λ q. record d { send_queue = q }) (keep_live d.send_queue live))
        ],
      )
]
