-- ===== src/Cbind/Liveness/Rules.antt =====
-- Programs of cbind/examples that return, one rule for each way to build one.
use nim_libp2p.Common.{ℕ, ◌≡◌, refl, arith, Bool, true, false, Option, none, some, if◌then◌else◌}
use nim_libp2p.Cbind.Binding.{Bytes, Entry, Binding}
use nim_libp2p.Cbind.Program.{
  Globals, Outcome, returned, exited, Program, ◌>>=◌, pure, gets, modify, note, pause, report,
  destroy, on_true, on_some, both,
}
use nim_libp2p.Cbind.Liveness.{is_returned, Returns}

module _ {A B : Type 0} {b : Binding} where
  pub Returns-bind :
      (m : Program A) (k : A → Program B)
      → Returns b m
      → ((a : A) → Returns b (k a))
      → Returns b (m >>= k)
  unfolding ◌>>=◌
  Returns-bind m k om ok = record { at = λ w. go (m b w) (om.at w) }
    where
      go :
          (r : Outcome A)
          → is_returned r ≡ true
          → is_returned (elim r [ returned a v ↦ k a b v | exited c v ↦ exited c v ]) ≡ true
      go (returned a v) h = (ok a).at v
      go (exited c v) h = absurd (ground arith)

module _ {A : Type 0} {b : Binding} where
  pub Returns-pure : (a : A) → Returns b (pure a)
  unfolding pure
  Returns-pure a = record { at = λ w. refl }

  pub Returns-if :
      (c : Bool) (m n : Program A) → Returns b m → Returns b n → Returns b (if c then m else n)
  Returns-if true m n om on = om
  Returns-if false m n om on = on

  pub Returns-on_true :
      (m : Program Bool) (x : A) (rest : Program A)
      → Returns b m
      → Returns b rest
      → Returns b (on_true m x rest)
  unfolding on_true
  Returns-on_true m x rest om or =
      Returns-bind m _ om (λ ok. Returns-if ok rest (pure x) or (Returns-pure x))

  pub Returns-gets : (f : Globals → A) → Returns b (gets f)
  unfolding gets
  Returns-gets f = record { at = λ w. refl }

module _ {A B : Type 0} {b : Binding} where
  pub Returns-on_some :
      (m : Program (Option A)) (x : B) (rest : A → Program B)
      → Returns b m
      → ((a : A) → Returns b (rest a))
      → Returns b (on_some m x rest)
  unfolding on_some
  Returns-on_some m x rest om or = Returns-bind m _ om go
    where
      go : (r : Option A) → Returns b (elim r [ none ↦ pure x | some a ↦ rest a ])
      go none = Returns-pure x
      go (some a) = or a

module _ {b : Binding} where
  pub Returns-modify : (f : Globals → Globals) → Returns b (modify f)
  unfolding modify
  Returns-modify f = record { at = λ w. refl }

  pub Returns-note : (e : Entry) → Returns b (note e)
  unfolding note
  Returns-note e = record { at = λ w. refl }

  pub Returns-report : (label err : Bytes) → Returns b (report label err)
  unfolding report
  Returns-report label err = Returns-note _

  pub Returns-destroy : (h : Option ℕ) → Returns b (destroy h)
  unfolding destroy
  Returns-destroy h = Returns-note _

  pub Returns-pause : Returns b pause
  unfolding pause note
  Returns-pause = record { at = λ w. refl }

  pub Returns-both : (m n : Program Bool) → Returns b m → Returns b n → Returns b (both m n)
  unfolding both
  Returns-both m n om on = Returns-on_true m false n om on
