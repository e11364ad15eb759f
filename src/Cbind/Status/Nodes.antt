-- ===== src/Cbind/Status/Nodes.antt =====
-- Passed requests of cbind/examples where a program creates several nodes, and at its end.
use nim_libp2p.Common.{List, ℕ, refl, Bool, true, false, Option, none, some, is_some, ◌&&◌, ◌==◌}
use nim_libp2p.Cbind.Binding.{Entry, Binding}
use nim_libp2p.Cbind.Program.{Program, destroy, ◌>>◌, pure, with_two, with_three}
use nim_libp2p.Cbind.Status.{IsSteady, Passes}
use nim_libp2p.Cbind.Status.Rules.{
  Passes-bind_kept, Passes-pure_self, Passes-pure_failed, Passes-destroy,
}

-- The status 0.
abbrev pub is_zero : ℕ → Bool
is_zero s = s == 0

module _ {good : List Entry → Bool} {b : Binding} where
  pub Passes-pure_status : (s : ℕ) → Passes good b (is_zero s) (pure s) is_zero
  Passes-pure_status s = Passes-pure_self s is_zero

module _ {good : List Entry → Bool} {b : Binding} (steady : IsSteady good) where
  -- Of several creations each has given a context when the rest runs.
  pub Passes-with_two :
      (g h : Option ℕ) (rest : ℕ → ℕ → Program ℕ)
      → ((g h : ℕ) → Passes good b true (rest g h) is_zero)
      → Passes good b
          (is_some g && is_some h)
          (with_two g h rest (destroy g >> (destroy h >> pure 1)))
          is_zero
  unfolding with_two
  Passes-with_two none h rest r = Passes-bind_kept _ _ _ (Passes-destroy steady none) (λ _.
      Passes-bind_kept _ _ _ (Passes-destroy steady h)
        (λ _. Passes-pure_failed 1 is_zero false refl))
  Passes-with_two (some g) none rest r =
      Passes-bind_kept _ _ _ (Passes-destroy steady (some g)) (λ _.
        Passes-bind_kept _ _ _ (Passes-destroy steady none)
          (λ _. Passes-pure_failed 1 is_zero false refl))
  Passes-with_two (some g) (some h) rest r = r g h

  pub Passes-destroy_three :
      (p : Bool) (f g h : Option ℕ)
      → Passes good b p (destroy f >> (destroy g >> (destroy h >> pure 1))) is_zero
  Passes-destroy_three p f g h = Passes-bind_kept _ _ _ (Passes-destroy steady f) (λ _.
      Passes-bind_kept _ _ _ (Passes-destroy steady g) (λ _.
        Passes-bind_kept _ _ _ (Passes-destroy steady h)
          (λ _. Passes-pure_failed 1 is_zero p refl)))

  pub Passes-with_three :
      (f g h : Option ℕ) (rest : ℕ → ℕ → ℕ → Program ℕ)
      → ((f g h : ℕ) → Passes good b true (rest f g h) is_zero)
      → Passes good b
          ((is_some f && is_some g) && is_some h)
          (with_three f g h rest (destroy f >> (destroy g >> (destroy h >> pure 1))))
          is_zero
  unfolding with_three
  Passes-with_three none g h rest r = Passes-destroy_three false none g h
  Passes-with_three (some f) none h rest r = Passes-destroy_three false (some f) none h
  Passes-with_three (some f) (some g) none rest r =
      Passes-destroy_three false (some f) (some g) none
  Passes-with_three (some f) (some g) (some h) rest r = r f g h

  pub Passes-three_kept :
      {p : Bool} (f g h : Option ℕ) (rest : ℕ → ℕ → ℕ → Program ℕ)
      → ((f g h : ℕ) → Passes good b p (rest f g h) is_zero)
      → Passes good b p
          (with_three f g h rest (destroy f >> (destroy g >> (destroy h >> pure 1))))
          is_zero
  unfolding with_three
  Passes-three_kept {p = p} none g h rest r = Passes-destroy_three p none g h
  Passes-three_kept {p = p} (some f) none h rest r = Passes-destroy_three p (some f) none h
  Passes-three_kept {p = p} (some f) (some g) none rest r =
      Passes-destroy_three p (some f) (some g) none
  Passes-three_kept (some f) (some g) (some h) rest r = r f g h
