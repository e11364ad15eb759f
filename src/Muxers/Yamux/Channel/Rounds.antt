-- ===== src/Muxers/Yamux/Channel/Rounds.antt =====
-- libp2p/muxers/yamux/yamux.nim: the rounds of `sendLoop`.
use nim_libp2p.Common.{
  ℕ, suc, ◌≡◌, ◌⊎◌, inl, inr, refl, sym, ◌∙◌, arith, Bool, true, false, some, List, [], ◌∷◌, All,
  Bool-cases, append-nil, dec_lt, subst,
}
use nim_libp2p.Muxers.Yamux.Channel.{Frame, ToSend, YamuxChannel, is_nil}
use nim_libp2p.Muxers.Yamux.Channel.SendLoop.{keep_unfinished, send_rounds, send_loop}
use nim_libp2p.Muxers.Yamux.Channel.Sends.{IsQueued, IsLive, keep-IsLive}
use nim_libp2p.Muxers.Yamux.Channel.Round.{
  Sent, Down, send_frame-Sent, send_frame-broken, send_round_idle, send_round_busy, rounds_end,
}

-- How a loop over `c` ended: with the channel reset, or with the frames written.
abbrev pub LoopEnd : YamuxChannel → YamuxChannel → Type 0
LoopEnd c d = Down d ⊎ ((frames : List Frame) × Sent (keep_unfinished c.send_queue) c d frames)

Sent-nothing :
    (c : YamuxChannel)
    → All IsLive (keep_unfinished c.send_queue)
    → c.send_window ≡ 0
    → Sent
        (keep_unfinished c.send_queue)
        c
        (record c { send_queue = keep_unfinished c.send_queue })
        []
Sent-nothing c live e = record {
  written = sym (append-nil c.written);
  split = refl;
  window = omega arith;
  live = live;
  spent = inr e;
}

-- The rounds over a queue that is not empty.
busy_rounds :
    (fuel n : ℕ) (ok : ℕ → Bool) (c : YamuxChannel)
    → is_nil c.send_queue ≡ false
    → All IsQueued c.send_queue
    → (d : YamuxChannel) × (send_rounds (suc (suc fuel)) ok n c ≡ some d) × LoopEnd c d
unfolding send_rounds
busy_rounds fuel n ok c busy queued =
    let kept : YamuxChannel = record c { send_queue = keep_unfinished c.send_queue } in
    let live : All IsLive kept.send_queue = keep-IsLive c.send_queue queued in
    elim (dec_lt 0 c.send_window) [
      | no empty ↦
          let no_window : c.send_window ≡ 0 = omega (arith, empty) in
          let (d, stops, out) = send_round_idle (ok n) c live no_window in
          (
            d,
            simp (busy, send_rounds) (simp (stops, send_rounds) refl),
            elim out [
              | inl r ↦ inl r
              | inr same ↦ inr (
                [],
                subst (λ x. Sent (keep_unfinished c.send_queue) c x []) (sym same)
                    (Sent-nothing c live no_window),
              )
            ],
          )
      | yes pos ↦ elim (Bool-cases (ok n)) [
        | inr fails ↦
            let (d, stops, r) = send_frame-broken kept live in
            (
              d,
              simp (busy, send_rounds)
                  (simp (fails, send_rounds)
                    (simp (send_round_busy false c pos ∙ stops, send_rounds) refl)),
              inl r,
            )
        | inl works ↦
            let (d, frames, goes, s) = send_frame-Sent kept live in
            let (e, ends, out) = rounds_end fuel (suc n) ok d s.live s.spent in
            (
              e,
              simp (busy, send_rounds)
                  (simp (works, send_rounds)
                    (simp (send_round_busy true c pos ∙ goes, send_rounds) ends)),
              elim out [
                | inl r ↦ inl r
                | inr same ↦ inr (
                  frames,
                  subst (λ x. Sent (keep_unfinished c.send_queue) c x frames) (sym same)
                      (record {
                        written = s.written;
                        split = s.split;
                        window = s.window;
                        live = s.live;
                        spent = s.spent;
                      }),
                )
              ],
            )
      ]
    ]

Sent-nil :
    (c : YamuxChannel) (ts : List ToSend)
    → is_nil ts ≡ true
    → Sent (keep_unfinished ts) c (record c { send_queue = ts; is_sending = false }) []
unfolding keep_unfinished
Sent-nil c [] e = record {
  written = sym (append-nil c.written);
  split = refl;
  window = omega arith;
  live = tt;
  spent = inl refl;
}
Sent-nil c (t ∷ ts) e = absurd (ground arith)

-- `sendLoop` over a channel that is not sending, with bytes left in each message of its queue,
-- ends, whichever writes fail. The channel is reset then, or the frames that were written hold, in
-- order, the first bytes of the messages that had not finished, no more than the send window
-- allowed, and that many less are allowed now; the queue holds the other bytes, each message
-- with some left, and the queue or the window is empty.
pub send_loop-ends :
    (ok : ℕ → Bool) (c : YamuxChannel)
    → c.is_sending ≡ false
    → All IsQueued c.send_queue
    → (d : YamuxChannel) × (send_loop ok c ≡ some d) × LoopEnd c d
unfolding send_loop send_rounds
send_loop-ends ok c idle queued =
    let started : YamuxChannel = record c { is_sending = true } in
    elim (Bool-cases (is_nil c.send_queue)) [
      | inl nil ↦ (
        record c { is_sending = false },
        simp (idle, send_loop) (simp (nil, send_rounds) refl),
        inr ([], Sent-nil c c.send_queue nil),
      )
      | inr busy ↦
          let (d, e, out) = busy_rounds 1 0 ok started busy queued in
          (
            record d { is_sending = false },
            simp (idle, send_loop) (simp (e, send_loop) refl),
            elim out [
              | inl r ↦ inl (record { is_reset = r.is_reset; live = r.live })
              | inr (frames, s) ↦ inr (
                frames,
                record {
                  written = s.written;
                  split = s.split;
                  window = s.window;
                  live = s.live;
                  spent = s.spent;
                },
              )
            ],
          )
    ]
