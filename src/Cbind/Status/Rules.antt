-- ===== src/Cbind/Status/Rules.antt =====
-- Passed requests of programs of cbind/examples, one rule for each way to build one.
use nim_libp2p.Common.{
  List, ℕ, ◌≡◌, refl, ◌∙◌, ap, arith, Bool, true, false, Option, none, some, if◌then◌else◌, is_some,
}
use nim_libp2p.Cbind.Binding.{Entry, waited, Bytes, waited, listened, Binding}
use nim_libp2p.Cbind.Program.{
  Globals, Outcome, returned, exited, World, Program, ◌>>=◌, pure, gets, modify, note, sleep, poll,
  wait_done, wait_flag, pause, report, destroy, on_true, on_some, both,
}
use nim_libp2p.Cbind.Contexts.Rules.{poll-log}
use nim_libp2p.Cbind.Status.{IsSteady, is_request, Passing, Passes}

module _ {A B : Type 0} {good : List Entry → Bool} {b : Binding} {p : Bool} where
  pub Passes-bind :
      (m : Program A) (k : A → Program B) (f : A → Bool) (g : B → Bool)
      → Passes good b p m f
      → ((a : A) → Passes good b (f a) (k a) g)
      → Passes good b p (m >>= k) g
  unfolding ◌>>=◌
  Passes-bind m k f g om ok = record { at = λ w e. go (m b w) (om.at w e) }
    where
      go :
          (r : Outcome A)
          → Passing good f r
          → Passing good g (elim r [ returned a v ↦ k a b v | exited c v ↦ exited c v ])
      go (returned a v) h = (ok a).at v h
      go (exited c v) h = tt

  -- `m` makes no request that can fail the program.
  pub Passes-bind_kept :
      (m : Program A) (k : A → Program B) (g : B → Bool)
      → Passes good b p m (λ _. p)
      → ((a : A) → Passes good b p (k a) g)
      → Passes good b p (m >>= k) g
  Passes-bind_kept m k g om ok = Passes-bind m k (λ _. p) g om ok

module _ {A : Type 0} {good : List Entry → Bool} {b : Binding} where
  pub Passes-pure : (a : A) (f : A → Bool) → Passes good b true (pure a) f
  unfolding pure
  Passes-pure a f = record { at = λ w e _. e refl }

  pub Passes-pure_self : (a : A) (f : A → Bool) → Passes good b (f a) (pure a) f
  unfolding pure
  Passes-pure_self a f = record { at = λ w e h. e h }

  pub Passes-pure_failed :
      (a : A) (f : A → Bool) (p : Bool) → f a ≡ false → Passes good b p (pure a) f
  unfolding pure
  Passes-pure_failed a f p h = record { at = λ w e i. absurd (ground arith) }

  pub Passes-if :
      (c : Bool) (p : Bool) (m n : Program A) (f : A → Bool)
      → Passes good b p m f
      → Passes good b p n f
      → Passes good b p (if c then m else n) f
  Passes-if true p m n f om on = om
  Passes-if false p m n f om on = on

  -- A test that says of itself whether `good` holds.
  pub Passes-bind_true :
      {p : Bool} (m : Program Bool) (x : A) (rest : Program A) (f : A → Bool)
      → Passes good b p m (λ ok. ok)
      → f x ≡ false
      → Passes good b true rest f
      → Passes good b p (on_true m x rest) f
  unfolding on_true
  Passes-bind_true m x rest f om e or = Passes-bind m _ (λ ok. ok) f om go
    where
      go : (ok : Bool) → Passes good b ok (if ok then rest else pure x) f
      go true = or
      go false = Passes-pure_failed x f false e

  pub Passes-on_true :
      (m : Program Bool) (x : A) (rest : Program A) (f : A → Bool)
      → Passes good b true m (λ ok. ok)
      → f x ≡ false
      → Passes good b true rest f
      → Passes good b true (on_true m x rest) f
  Passes-on_true m x rest f om e or = Passes-bind_true m x rest f om e or

module _ {A B : Type 0} {good : List Entry → Bool} {b : Binding} where
  pub Passes-on_some :
      (m : Program (Option A)) (x : B) (rest : A → Program B) (f : B → Bool)
      → Passes good b true m is_some
      → f x ≡ false
      → ((a : A) → Passes good b true (rest a) f)
      → Passes good b true (on_some m x rest) f
  unfolding on_some
  Passes-on_some m x rest f om e or = Passes-bind m _ is_some f om go
    where
      go : (r : Option A) → Passes good b (is_some r) (elim r [ none ↦ pure x | some a ↦ rest a ]) f
      go none = Passes-pure_failed x f false e
      go (some a) = or a

module _ {good : List Entry → Bool} {b : Binding} where
  pub Passes-both :
      (m n : Program Bool)
      → Passes good b true m (λ ok. ok)
      → Passes good b true n (λ ok. ok)
      → Passes good b true (both m n) (λ ok. ok)
  unfolding both
  Passes-both m n om on = Passes-on_true m false n (λ ok. ok) om refl on

-- Parts of a program that fail it, but do not decide whether `good` holds.
module _ {A : Type 0} {good : List Entry → Bool} {b : Binding} {p : Bool} where
  pub Passes-on_true_kept :
      (m : Program Bool) (x : A) (rest : Program A) (f : A → Bool)
      → Passes good b p m (λ _. p)
      → f x ≡ false
      → Passes good b p rest f
      → Passes good b p (on_true m x rest) f
  unfolding on_true
  Passes-on_true_kept m x rest f om e or =
      Passes-bind_kept m _ f om
        (λ ok. Passes-if ok p rest (pure x) f or (Passes-pure_failed x f p e))

module _ {A B : Type 0} {good : List Entry → Bool} {b : Binding} {p : Bool} where
  pub Passes-on_some_kept :
      (m : Program (Option A)) (x : B) (rest : A → Program B) (f : B → Bool)
      → Passes good b p m (λ _. p)
      → f x ≡ false
      → ((a : A) → Passes good b p (rest a) f)
      → Passes good b p (on_some m x rest) f
  unfolding on_some
  Passes-on_some_kept m x rest f om e or = Passes-bind_kept m _ f om go
    where
      go : (r : Option A) → Passes good b p (elim r [ none ↦ pure x | some a ↦ rest a ]) f
      go none = Passes-pure_failed x f p e
      go (some a) = or a

module _ {good : List Entry → Bool} {b : Binding} {p : Bool} where
  pub Passes-pure_kept : {A : Type 0} (a : A) → Passes good b p (pure a) (λ _. p)
  Passes-pure_kept a = Passes-pure_self a (λ _. p)

  pub Passes-both_kept :
      (m n : Program Bool)
      → Passes good b p m (λ _. p)
      → Passes good b p n (λ _. p)
      → Passes good b p (both m n) (λ _. p)
  unfolding both on_true
  Passes-both_kept m n om on =
      Passes-bind_kept m _ _ om (λ ok. Passes-if ok p n (pure false) _ on (Passes-pure_kept false))

module _ {good : List Entry → Bool} {b : Binding} {p : Bool} where
  pub Passes-gets : {A : Type 0} (f : Globals → A) → Passes good b p (gets f) (λ _. p)
  unfolding gets
  Passes-gets f = record { at = λ w e. e }

  pub Passes-modify : (f : Globals → Globals) → Passes good b p (modify f) (λ _. p)
  unfolding modify
  Passes-modify f = record { at = λ w e. e }

  pub Passes-note :
      IsSteady good → (e : Entry) → is_request e ≡ false → Passes good b p (note e) (λ _. p)
  unfolding note
  Passes-note steady e r = record { at = λ w h i. steady e w.log r ∙ h i }

  pub Passes-report :
      IsSteady good → (label err : Bytes) → Passes good b p (report label err) (λ _. p)
  unfolding report
  Passes-report steady label err = Passes-note steady _ refl

  pub Passes-listened : IsSteady good → (h : ℕ) → Passes good b p (note (listened h)) (λ _. p)
  Passes-listened steady h = Passes-note steady _ refl

  pub Passes-destroy : IsSteady good → (h : Option ℕ) → Passes good b p (destroy h) (λ _. p)
  unfolding destroy
  Passes-destroy steady h = Passes-note steady _ refl

  pub Passes-pause : IsSteady good → Passes good b p pause (λ _. p)
  unfolding pause sleep
  Passes-pause steady = record { at = λ w h. (Passes-note steady waited refl).at _ h }

  pub Passes-wait_done : (d : ℕ → Globals → Bool) → Passes good b p (wait_done d) (λ _. p)
  unfolding wait_done
  Passes-wait_done d = record { at = λ w e. go w e (poll 1000 0 d b w) (poll-log b 1000 0 d w) }
    where
      end :
          (w v : World) (c : Bool)
          → (p ≡ true → good w.log ≡ true)
          → v.log ≡ w.log
          → Passing good (λ _. p) (if c then returned tt v else exited 1 v)
      end w v true e h = λ i. ap good h ∙ e i
      end w v false e h = tt

      go :
          (w : World)
          → (p ≡ true → good w.log ≡ true)
          → (q : ℕ × World) → q.1.log ≡ w.log
          → Passing good
              (λ _. p)
              (let (i, v) = q in if d i v.globals then returned tt v else exited 1 v)
      go w e (i, v) h = end w v (d i v.globals) e h

  pub Passes-wait_flag :
      IsSteady good → (f : Globals → Bool) → Passes good b p (wait_flag f) (λ _. p)
  unfolding wait_flag
  Passes-wait_flag steady f =
      Passes-bind_kept _ _ _ (Passes-wait_done _) (λ _. Passes-note steady waited refl)
