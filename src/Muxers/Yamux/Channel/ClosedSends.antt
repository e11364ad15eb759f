-- ===== src/Muxers/Yamux/Channel/ClosedSends.antt =====
-- libp2p/muxers/yamux/yamux.nim: the send loop of a channel that both sides closed.
use nim_libp2p.Common.{
  ℕ, zero, suc, inl, inr, Bool, true, false, Option, none, some, List, [], ◌∷◌, ◌++◌, ◌≡◌, refl,
  min, ltb, ◌==◌, subst, if◌then◌else◌, Bool-cases, Option-cases,
}
use nim_libp2p.Muxers.Yamux.Channel.{
  Ended, ToSend, YamuxChannel, length_send_queue, length_send_queue_with_limit, is_nil, reset,
  failed,
}
use nim_libp2p.Muxers.Yamux.Channel.SendLoop.{
  keep_unfinished, fill_buffer, after_frame, after_failure, send_frame, send_round, send_rounds,
  send_loop, write,
}
use nim_libp2p.Muxers.Yamux.Channel.ClosedTwice.{IsStuck, reset-IsStuck}

-- What the sending side changes is of no account.
sending-IsStuck :
    (c : YamuxChannel) (queue : List ToSend) (sending : Bool) (ended : List Ended)
    → IsStuck c
    → IsStuck (record c { send_queue = queue; is_sending = sending; ended = ended })
sending-IsStuck c queue sending ended v = record {
  locally = v.locally;
  remotely = v.remotely;
  waiting = v.waiting;
}

after_frame-IsStuck :
    (k : ℕ) (r : List ℕ × List ℕ × List ToSend) (c : YamuxChannel)
    → IsStuck c
    → IsStuck (after_frame k r c)
after_frame-IsStuck k r c v = record {
  locally = v.locally;
  remotely = v.remotely;
  waiting = v.waiting;
}

abbrev pub Stuck : Option YamuxChannel → Type 0
Stuck none = Unit
Stuck (some d) = IsStuck d

abbrev pub StuckRound : Option (Bool × YamuxChannel) → Type 0
StuckRound none = Unit
StuckRound (some r) = IsStuck r.1

send_frame-Stuck : (ok : Bool) (c : YamuxChannel) → IsStuck c → StuckRound (send_frame ok c)
unfolding send_frame
send_frame-Stuck ok c v = elim (Option-cases (fill_buffer k c.send_queue)) [
  | inl e ↦ simp (e, send_frame) tt
  | inr (r, e) ↦ simp (e, send_frame) (go ok r)
]
  where
    k : ℕ
    k = min c.send_window (length_send_queue c)

    go :
        (b : Bool) (r : List ℕ × List ℕ × List ToSend)
        → StuckRound (some (if b then (true, after_frame k r c) else (false, after_failure r c)))
    go true r = after_frame-IsStuck k r c v
    go false r = reset-IsStuck false _ (sending-IsStuck c r.2 c.is_sending _ v)

send_round-Stuck : (ok : Bool) (c : YamuxChannel) → IsStuck c → StuckRound (send_round ok c)
unfolding send_round
send_round-Stuck ok c v =
    go (c.send_window == 0) (ltb c.max_send_queue_size (length_send_queue_with_limit kept))
  where
    kept : YamuxChannel
    kept = record c { send_queue = keep_unfinished c.send_queue }

    stuck : IsStuck kept
    stuck = sending-IsStuck c (keep_unfinished c.send_queue) c.is_sending c.ended v

    go :
        (none_left big : Bool)
        → StuckRound (
            if none_left
            then some (false, if big then reset true kept else kept)
            else send_frame ok kept)
    go true true = reset-IsStuck true kept stuck
    go true false = stuck
    go false big = send_frame-Stuck ok kept stuck

send_rounds-Stuck :
    (fuel k : ℕ) (ok : ℕ → Bool) (c : YamuxChannel) → IsStuck c → Stuck (send_rounds fuel ok k c)
unfolding send_rounds
send_rounds-Stuck zero k ok c v = tt
send_rounds-Stuck (suc fuel) k ok c v = elim (Bool-cases (is_nil c.send_queue)) [
  | inl nil ↦ simp (nil, send_rounds) v
  | inr busy ↦ elim (Option-cases (send_round (ok k) c)) [
    | inl e ↦ simp (busy, send_rounds) (simp (e, send_rounds) tt)
    | inr ((true, d), e) ↦
        let w : IsStuck d = subst StuckRound e (send_round-Stuck (ok k) c v) in
        simp (busy, send_rounds) (simp (e, send_rounds) (send_rounds-Stuck fuel (suc k) ok d w))
    | inr ((false, d), e) ↦
        let w : IsStuck d = subst StuckRound e (send_round-Stuck (ok k) c v) in
        simp (busy, send_rounds) (simp (e, send_rounds) w)
  ]
]

pub send_loop-Stuck : (ok : ℕ → Bool) (c : YamuxChannel) → IsStuck c → Stuck (send_loop ok c)
unfolding send_loop
send_loop-Stuck ok c v =
    go c.is_sending (send_rounds 3 ok 0 started)
      (send_rounds-Stuck 3 0 ok started (sending-IsStuck c c.send_queue true c.ended v))
  where
    started : YamuxChannel
    started = record c { is_sending = true }

    go :
        (b : Bool) (o : Option YamuxChannel)
        → Stuck o
        → Stuck (
            if b
            then some c
            else elim o [ none ↦ none | some d ↦ some (record d { is_sending = false }) ])
    go true o w = v
    go false none w = tt
    go false (some d) w = sending-IsStuck d d.send_queue false d.ended w

-- A write fails, and leaves the queues as they are.
pub write-IsStuck :
    (ok : ℕ → Bool) (fut : ℕ) (msg : List ℕ) (c : YamuxChannel)
    → IsStuck c
    → (d : YamuxChannel) × (write ok fut msg c ≡ some d)
      × IsStuck d
      × (d.ended ≡ c.ended ++ failed fut ∷ [])
      × (d.send_queue ≡ c.send_queue)
unfolding write
write-IsStuck ok fut msg c v = (
  record c { ended = c.ended ++ failed fut ∷ [] },
  elim (Bool-cases c.remote_reset) [
    | inl e ↦ simp (e, write) refl
    | inr e ↦ simp (e, v.locally, write) refl
  ],
  sending-IsStuck c c.send_queue c.is_sending _ v,
  refl,
  refl,
)
