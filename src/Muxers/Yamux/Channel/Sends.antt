-- ===== src/Muxers/Yamux/Channel/Sends.antt =====
-- libp2p/muxers/yamux/yamux.nim: what `sendLoop` puts on the connection.
use nim_libp2p.Common.{
  ℕ, zero, suc, ◌+◌, ◌-◌, min, ◌≤◌, ◌<◌, ◌≡◌, inl, inr, refl, sym, ap, subst, ◌∙◌, arith, false,
  some, List, [], ◌∷◌, ◌++◌, length, take, drop, All, leb, Bool-cases, append_assoc, length-append,
  length-take, length-drop, drop-drop, take-append-drop, take_all,
}
use nim_libp2p.Muxers.Yamux.Channel.{ToSend, unsent, length_of}
use nim_libp2p.Muxers.Yamux.Channel.SendLoop.{keep_unfinished, fill_buffer}

-- A message in the queue has bytes left to send.
abbrev pub IsQueued : ToSend → Type 0
IsQueued t = t.sent < length t.bytes

abbrev pub IsLive : ToSend → Type 0
IsLive t = (t.sent < length t.bytes) × (t.finished ≡ false)

-- The bytes that the queue holds, in order.
abbrev pub pending : List ToSend → List ℕ
pending [] = []
pending (t ∷ ts) = drop t.sent t.bytes ++ pending ts

pub keep-IsLive : (ts : List ToSend) → All IsQueued ts → All IsLive (keep_unfinished ts)
unfolding keep_unfinished
keep-IsLive [] q = tt
keep-IsLive (t ∷ ts) (q, qs) = ground (arith, keep-IsLive ts qs)

pub keep_live : (ts : List ToSend) → All IsLive ts → keep_unfinished ts ≡ ts
unfolding keep_unfinished
keep_live [] q = refl
keep_live (t ∷ ts) ((q, live), qs) =
    simp (live, keep_unfinished) (ap (λ x. t ∷ x) (keep_live ts qs))

-- What `fill_buffer` gives: the bytes, the futures, and the queue that is left.
pub record Fills (want : ℕ) (ts : List ToSend) (r : List ℕ × List ℕ × List ToSend) : Type 0 where
  pub split : r.0 ++ pending r.2 ≡ pending ts
  pub exact : length r.0 ≡ want
  pub live : All IsLive r.2
  pub rest : length_of r.2 + want ≡ length_of ts

length_pending : (ts : List ToSend) → length (pending ts) ≡ length_of ts
length_pending [] = refl
length_pending (t ∷ ts) =
    length-append (drop t.sent t.bytes) (pending ts)
    ∙ omega (arith, length-drop t.sent t.bytes, length_pending ts)

-- The whole of the first message, and the rest from the others.
Fills-whole :
    (want n : ℕ) (t : ToSend) (ts : List ToSend) (r : List ℕ × List ℕ × List ToSend)
    → n ≡ unsent t
    → n ≤ want
    → Fills (want - n) ts r
    → Fills want (t ∷ ts) (take n (drop t.sent t.bytes) ++ r.0, t.fut ∷ r.1, r.2)
Fills-whole want n t ts r e h f =
    let rest : List ℕ = drop t.sent t.bytes in
    let all : take n rest ≡ rest = take_all n rest (omega (arith, length-drop t.sent t.bytes)) in
    record {
      split = rw all (append_assoc rest r.0 (pending r.2) ∙ ap (λ x. rest ++ x) f.split);
      exact = rw all (length-append rest r.0 ∙ omega (arith, f.exact, length-drop t.sent t.bytes));
      live = f.live;
      rest = omega (arith, f.rest);
    }

-- A part of the first message that fills the buffer.
Fills-part :
    (n : ℕ) (t : ToSend) (ts : List ToSend)
    → n < unsent t
    → All IsLive (t ∷ ts)
    → Fills n (t ∷ ts) (take n (drop t.sent t.bytes), [], record t { sent = t.sent + n } ∷ ts)
Fills-part n t ts h ((q, live), qs) =
    let rest : List ℕ = drop t.sent t.bytes in
    record {
      split =
          sym (append_assoc (take n rest) (drop (t.sent + n) t.bytes) (pending ts))
          ∙ ap (λ x. x ++ pending ts)
              (ap (λ x. take n rest ++ x) (sym (drop-drop n t.sent t.bytes))
                ∙ take-append-drop n rest);
      exact = length-take n rest ∙ omega (arith, length-drop t.sent t.bytes);
      live = ((omega arith, live), qs);
      rest = omega arith;
    }

pub fill_buffer-Fills :
    (want : ℕ) (ts : List ToSend)
    → All IsLive ts
    → want ≤ length_of ts
    → (r : List ℕ × List ℕ × List ToSend) × (fill_buffer want ts ≡ some r) × Fills want ts r
unfolding fill_buffer
fill_buffer-Fills zero ts live h =
    (([], [], ts), refl, record { split = refl; exact = refl; live = live; rest = omega arith })
fill_buffer-Fills (suc want) [] live h = absurd (omega arith)
fill_buffer-Fills (suc want) (t ∷ ts) live h =
    let n : ℕ = min (unsent t) (suc want) in
    elim (Bool-cases (leb (length t.bytes) (t.sent + n))) [
      | inl whole ↦
          let e : n ≡ unsent t = ground arith in
          let (r, e', f) = fill_buffer-Fills (suc want - n) ts live.1 (omega arith) in
          let all : List ℕ × List ℕ × List ToSend =
            (take n (drop t.sent t.bytes) ++ r.0, t.fut ∷ r.1, r.2) in
          (
            all,
            rw (whole, fill_buffer) (rw (e', fill_buffer) refl),
            Fills-whole (suc want) n t ts r e (omega arith) f,
          )
      | inr part ↦
          let e : n ≡ suc want = ground arith in
          let some_of : List ℕ × List ℕ × List ToSend =
            (take n (drop t.sent t.bytes), [], record t { sent = t.sent + n } ∷ ts) in
          (
            some_of,
            rw (part, fill_buffer) refl,
            subst (λ k. Fills k (t ∷ ts) some_of) e (Fills-part n t ts (ground arith) live),
          )
    ]
