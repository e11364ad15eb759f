-- ===== src/Dial/Backoff/Delay.antt =====
-- libp2p/dial_backoff.nim: how long the wait is.
use nim_libp2p.Common.{
  ℕ, zero, suc, ◌+◌, ◌*◌, ◌-◌, ◌/◌, ◌^◌, min, ◌≤◌, ◌<◌, ◌≡◌, inl, inr, ap, ◌∙◌, sym, arith, Bool,
  true, false, Option, none, some, ltb, leb, ◌==◌, ◌||◌, if◌then◌else◌, Bool-cases, ltb→lt,
}
use native.Mathlib.Nat.{
  div-lt_iff_lt-mul, one-le-pow, pow-zero, pow-succ', mul_assoc, le-mul_of_pos_right,
}
use nim_libp2p.Dial.Backoff.{Config, delay_loop, capped, delay}

-- The delay without a ceiling on the way: the base times a power of the factor.
capped-delay_loop :
    (n : ℕ) (config : Config) (d : ℕ)
    → 1 < config.factor
    → 0 < d
    → capped config (delay_loop n config d) ≡ min (d * config.factor ^ n) config.max_delay
unfolding capped delay_loop
capped-delay_loop zero config d hf hd =
    let one : config.factor ^ 0 ≡ 1 = pow-zero config.factor in
    let same : d * config.factor ^ 0 ≡ d = ap (λ x. d * x) one ∙ omega arith in
    rw same (elim (Bool-cases (ltb config.max_delay d)) [
      | inl e ↦ rw (e, capped) (omega (arith, ltb→lt config.max_delay d e))
      | inr e ↦ rw (e, capped) (ground arith)
    ])
capped-delay_loop (suc n) config d hf hd =
    let f : ℕ = config.factor in
    let pos : 0 < f = omega arith in
    let total : d * f ^ suc n ≡ d * f * f ^ n =
      ap (λ x. d * x) (pow-succ' f n) ∙ sym (mul_assoc d f (f ^ n)) in
    let grows : d * f ≤ d * f * f ^ n = le-mul_of_pos_right (d * f) (one-le-pow n f pos) in
    let more : d ≤ d * f = le-mul_of_pos_right d pos in
    elim (Bool-cases (ltb (config.max_delay / f) d)) [
      | inl e ↦
          let over : config.max_delay < d * f =
            (div-lt_iff_lt-mul pos).0 (ltb→lt (config.max_delay / f) d e) in
          rw (e, delay_loop) (omega (arith, over, grows, total))
      | inr e ↦
          rw (e, delay_loop)
            (capped-delay_loop n config (d * f) hf (omega (arith, more))
              ∙ ap (λ x. min x config.max_delay) (sym total))
    ]

-- With a factor above 1, a base and a ceiling that are not 0, the wait is 0 up to the tolerance; past
-- it, it is the base times one factor for each further failure, or the ceiling if that is less.
pub delay_lem :
    (config : Config) (failures : ℕ)
    → 1 < config.factor
    → 0 < config.base
    → 0 < config.max_delay
    → (failures ≤ config.tolerance → delay config failures ≡ 0)
      × ((k : ℕ)
          → failures ≡ config.tolerance + 1 + k
          → delay config failures ≡ min (config.base * config.factor ^ k) config.max_delay)
unfolding delay
delay_lem config failures hf hb hm = (λ h. ground arith, over)
  where
    over :
        (k : ℕ)
        → failures ≡ config.tolerance + 1 + k
        → delay config failures ≡ min (config.base * config.factor ^ k) config.max_delay
    over k e =
        let few : leb failures config.tolerance ≡ false = ground arith in
        let some_wait : (config.base == 0 || config.max_delay == 0) ≡ false = ground arith in
        let grows : leb config.factor 1 ≡ false = ground arith in
        let rounds : failures - config.tolerance - 1 ≡ k = omega arith in
        rw (few, delay)
          (rw (some_wait, delay)
            (rw (grows, delay) (rw rounds (capped-delay_loop k config config.base hf hb))))

-- No wait is above the ceiling.
pub delay-le : (config : Config) (failures : ℕ) → delay config failures ≤ config.max_delay
unfolding delay capped
delay-le config failures =
    go (leb failures config.tolerance) (config.base == 0 || config.max_delay == 0)
      (leb config.factor 1) (delay_loop (failures - config.tolerance - 1) config config.base)
  where
    go :
        (a b c : Bool) (o : Option ℕ)
        → (if a
            then 0
            else if b
            then 0
            else if c
            then min config.base config.max_delay
            else capped config o)
          ≤ config.max_delay
    go true b c o = omega arith
    go false true c o = omega arith
    go false false true o = omega arith
    go false false false none = omega arith
    go false false false (some d) = ground arith
