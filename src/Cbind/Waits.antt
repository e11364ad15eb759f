-- ===== src/Cbind/Waits.antt =====
-- How long the waits of cbind/examples take: `wait_done` of common.h.
use nim_libp2p.Common.{
  ℕ, zero, suc, ◌+◌, ◌≤◌, ◌≡◌, refl, ap, sym, ◌∙◌, arith, Bool, true, false, none, some, leb,
  if◌then◌else◌,
}
use nim_libp2p.Cbind.Binding.{Call, Answer, Binding, asked}
use nim_libp2p.Cbind.Program.{
  Outcome, returned, exited, Program, World, ◌>>=◌, ◌>>◌, pure, note, sleep, poll, wait_done, fired,
  call,
}
use nim_libp2p.Cbind.Liveness.{is_returned}

-- Whether an answer is there after so many sleeps.
abbrev pub is_in_time : {R : Type 0} → ℕ → Answer R → Bool
is_in_time n a = elim a.time [ none ↦ false | some t ↦ leb t n ]

module _ {R : Type 0} (a : Answer R) where
  is_in_time_mono : (m n : ℕ) → m ≤ n → is_in_time m a ≡ true → is_in_time n a ≡ true
  is_in_time_mono m n l h = ground arith

  -- The flag at the end of the loop is that of the last load that it may make.
  poll-is_in_time :
      (n i : ℕ) (b : Binding) (w : World)
      → is_in_time (poll n i (fired a) b w).0 a ≡ is_in_time (i + n) a
  unfolding poll fired
  poll-is_in_time zero i b w = ground arith
  poll-is_in_time (suc n) i b w =
      go (is_in_time i a) refl (poll-is_in_time n (i + 1) b (sleep i b w))
    where
      go :
          (c : Bool)
          → is_in_time i a ≡ c
          → is_in_time (poll n (i + 1) (fired a) b (sleep i b w)).0 a ≡ is_in_time (i + 1 + n) a
          → is_in_time (if c then (i, w) else poll n (i + 1) (fired a) b (sleep i b w)).0 a
            ≡ is_in_time (i + suc n) a
      go true e h = rw e (sym (is_in_time_mono i (i + suc n) (omega arith) e))
      go false e h = h ∙ ap (λ k. is_in_time k a) (omega arith)

  wait_done-is_in_time :
      (b : Binding) (w : World) → is_returned (wait_done (fired a) b w) ≡ is_in_time 1000 a
  unfolding wait_done fired
  wait_done-is_in_time b w = go (poll 1000 0 (fired a) b w) (poll-is_in_time 1000 0 b w)
    where
      end : (c : Bool) (v : World) → is_returned (if c then returned tt v else exited 1 v) ≡ c
      end true v = refl
      end false v = refl

      go :
          (q : ℕ × World)
          → is_in_time q.0 a ≡ is_in_time 1000 a
          → is_returned (let (i, v) = q in if is_in_time i a then returned tt v else exited 1 v)
            ≡ is_in_time 1000 a
      go (i, v) e = end (is_in_time i a) v ∙ e

-- A program that goes on with one that returns.
is_returned-bind :
    {A B : Type 0} (m : Program A) (k : A → Program B) (b : Binding) (w : World)
    → ((a : A) (v : World) → is_returned (k a b v) ≡ true)
    → is_returned ((m >>= k) b w) ≡ is_returned (m b w)
unfolding ◌>>=◌
is_returned-bind {A = A} m k b w h = go (m b w)
  where
    go :
        (r : Outcome A)
        → is_returned (elim r [ returned a v ↦ k a b v | exited c v ↦ exited c v ]) ≡ is_returned r
    go (returned a v) = h a v
    go (exited c v) = refl

-- A blocking call ends: it returns exactly if its answer comes within 1000 sleeps, and otherwise ends
-- the process.
pub call-is_in_time :
    (b : Binding) (w : World) (c : Call)
    → is_returned (call c b w) ≡ is_in_time 1000 ((b.answer) w.log c)
unfolding call ◌>>=◌ note pure
call-is_in_time b w c =
    is_returned-bind (wait_done (fired ((b.answer) w.log c)))
      (λ _. note (asked c ((b.answer) w.log c)) >> pure ((b.answer) w.log c)) b w
      (λ _ v. answered v)
    ∙ wait_done-is_in_time ((b.answer) w.log c) b w
  where
    answered :
        (v : World)
        → is_returned ((note (asked c ((b.answer) w.log c)) >> pure ((b.answer) w.log c)) b v)
          ≡ true
    answered v = refl
