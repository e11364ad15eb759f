-- ===== src/Cbind/Contexts/Rules.antt =====
-- Ownership of contexts by programs of cbind/examples, one rule for each way to build one.
use nim_libp2p.Common.{
  ℕ, zero, suc, ◌+◌, ◌≡◌, refl, sym, ◌∙◌, ap, Bool, true, false, List, ◌∷◌, Option, none, some,
  if◌then◌else◌, arith, is_some,
}
use nim_libp2p.Common.Sets.{contains}
use nim_libp2p.Cbind.Binding.{Bytes, Call, Reply, Answer, Entry, asked, waited, listened, Binding}
use nim_libp2p.Cbind.Program.{
  Globals, Outcome, returned, exited, World, Program, ◌>>=◌, ◌>>◌, pure, gets, modify, note, sleep,
  poll, wait_done, fired, call, wait_flag, pause, report, destroy, on_true, on_some, both,
}
use nim_libp2p.Cbind.Contexts.{is_owned, context, gained, after, owned_after, Owning, Owns, Keeps}

module _ {A B : Type 0} {b : Binding} {L : List ℕ} where
  pub Owns-bind :
      (m : Program A) (k : A → Program B) (f : A → List ℕ) (g : B → List ℕ)
      → Owns b L m f
      → ((a : A) → Owns b (f a) (k a) g)
      → Owns b L (m >>= k) g
  unfolding ◌>>=◌
  Owns-bind m k f g om ok = record { at = λ w e. go w (m b w) (om.at w e) }
    where
      go :
          (w : World) (r : Outcome A)
          → Owning f r
          → Owning g (elim r [ returned a v ↦ k a b v | exited c v ↦ exited c v ])
      go w (returned a v) h = (ok a).at v h
      go w (exited c v) h = h

module _ {A : Type 0} {b : Binding} {L : List ℕ} where
  pub Keeps-pure : (a : A) → Keeps b L (pure a)
  unfolding pure
  Keeps-pure a = record { at = λ w e. e }

  pub Owns-pure : (a : A) (f : A → List ℕ) → f a ≡ L → Owns b L (pure a) f
  unfolding pure
  Owns-pure a f h = record { at = λ w e. e ∙ ap some (sym h) }

  pub Owns-if :
      (c : Bool) (m n : Program A) (f : A → List ℕ)
      → Owns b L m f
      → Owns b L n f
      → Owns b L (if c then m else n) f
  Owns-if true m n f om on = om
  Owns-if false m n f om on = on

  pub Keeps-gets : (f : Globals → A) → Keeps b L (gets f)
  unfolding gets
  Keeps-gets f = record { at = λ w e. e }

pub poll-log :
    (b : Binding) (n i : ℕ) (d : ℕ → Globals → Bool) (w : World) → (poll n i d b w).1.log ≡ w.log
unfolding poll sleep
poll-log b zero i d w = refl
poll-log b (suc n) i d w = go (d i w.globals) (poll-log b n (i + 1) d (sleep i b w))
  where
    go :
        (c : Bool)
        → (poll n (i + 1) d b (sleep i b w)).1.log ≡ w.log
        → (if c then (i, w) else poll n (i + 1) d b (sleep i b w)).1.log ≡ w.log
    go true h = refl
    go false h = h

module _ {b : Binding} {L : List ℕ} where
  pub Keeps-modify : (f : Globals → Globals) → Keeps b L (modify f)
  unfolding modify
  Keeps-modify f = record { at = λ w e. e }

  pub Owns-note : (e : Entry) (L' : List ℕ) → after e L ≡ some L' → Owns b L (note e) (λ _. L')
  unfolding note owned_after
  Owns-note e L' h = record { at = λ w o. rw o h }

  pub Keeps-wait_done : (d : ℕ → Globals → Bool) → Keeps b L (wait_done d)
  unfolding wait_done
  Keeps-wait_done d = record { at = λ w e. go w e (poll 1000 0 d b w) (poll-log b 1000 0 d w) }
    where
      end :
          (w v : World) (c : Bool)
          → owned_after w.log ≡ some L
          → v.log ≡ w.log
          → Owning (λ _. L) (if c then returned tt v else exited 1 v)
      end w v true e h = ap owned_after h ∙ e
      end w v false e h = ap is_some (ap owned_after h ∙ e)

      go :
          (w : World)
          → owned_after w.log ≡ some L
          → (p : ℕ × World) → p.1.log ≡ w.log
          → Owning (λ _. L) (let (i, v) = p in if d i v.globals then returned tt v else exited 1 v)
      go w e (i, v) h = end w v (d i v.globals) e h

  pub Owns-call : (c : Call) → is_owned (context c) L ≡ true → Owns b L (call c) (λ a. gained c a L)
  unfolding call after
  Owns-call c h = record {
    at = λ w e.
        let a = (b.answer) w.log c in
        (Owns-bind _ _ (λ _. L) _ (Keeps-wait_done (fired a))
            (λ _.
              Owns-bind _ _ (λ _. gained c a L) _ (Owns-note (asked c a) (gained c a L) (rw h))
                (λ _. Owns-pure a (λ x. gained c x L) refl))).at
          w e;
  }

  -- The rest of a program has the answer of the binding.
  pub Owns-asked :
      {B : Type 0} (c : Call) (k : Answer (Reply c) → Program B) (g : B → List ℕ)
      → is_owned (context c) L ≡ true
      → ((log : List Entry) → Owns b (gained c ((b.answer) log c) L) (k ((b.answer) log c)) g)
      → Owns b L (call c >>= k) g
  unfolding call after ◌>>=◌ pure note
  Owns-asked c k g h ok = record {
    at = λ w e.
        go w e (wait_done (fired ((b.answer) w.log c)) b w)
          ((Keeps-wait_done (fired ((b.answer) w.log c))).at w e);
  }
    where
      go :
          (w : World)
          → owned_after w.log ≡ some L
          → (r : Outcome Unit) → Owning (λ _. L) r
          → (let answered : Outcome (Answer (Reply c)) = elim r [
            | returned x v ↦ (note (asked c ((b.answer) w.log c)) >> pure ((b.answer) w.log c)) b v
            | exited s v ↦ exited s v
          ] in
              Owning g (elim answered [ returned a v ↦ k a b v | exited s v ↦ exited s v ]))
      go w e (returned x v) o =
          (Owns-bind _ (λ _. k ((b.answer) w.log c)) (λ _. gained c ((b.answer) w.log c) L) g
              (Owns-note (asked c ((b.answer) w.log c)) _ (rw h)) (λ _. ok w.log)).at
            v o
      go w e (exited s v) o = o

  -- Requests that own nothing new.
  pub Keeps-call :
      (c : Call)
      → is_owned (context c) L ≡ true
      → ((a : Answer (Reply c)) → gained c a L ≡ L)
      → Keeps b L (call c)
  Keeps-call c h quiet = record { at = λ w e. go (call c b w) ((Owns-call c h).at w e) }
    where
      go : (r : Outcome (Answer (Reply c))) → Owning (λ a. gained c a L) r → Owning (λ _. L) r
      go (returned a w) h = h ∙ ap some (quiet a)
      go (exited x w) h = h

  pub Keeps-report : (label err : Bytes) → Keeps b L (report label err)
  unfolding report after
  Keeps-report label err = Owns-note _ L refl

  pub Keeps-wait_flag : (f : Globals → Bool) → Keeps b L (wait_flag f)
  unfolding wait_flag after
  Keeps-wait_flag f = Owns-bind _ _ (λ _. L) _ (Keeps-wait_done _) (λ _. Owns-note waited L refl)

  pub Keeps-pause : Keeps b L pause
  unfolding pause note sleep after owned_after
  Keeps-pause = record {
    at = λ w e. ap (λ o. elim o [ none ↦ none | some owned ↦ after waited owned ]) e;
  }

  pub Keeps-listened : (h : ℕ) → is_owned (some h) L ≡ true → Keeps b L (note (listened h))
  unfolding after
  Keeps-listened h o = Owns-note _ L (rw o)

  pub Keeps-destroy_null : Keeps b L (destroy none)
  unfolding destroy after
  Keeps-destroy_null = Owns-note _ L refl

module _ {A : Type 0} {b : Binding} {L : List ℕ} where
  pub Owns-on_true :
      (m : Program Bool) (x : A) (rest : Program A) (f : A → List ℕ)
      → Keeps b L m
      → f x ≡ L
      → Owns b L rest f
      → Owns b L (on_true m x rest) f
  unfolding on_true
  Owns-on_true m x rest f om e or =
      Owns-bind m _ (λ _. L) f om (λ ok. Owns-if ok rest (pure x) f or (Owns-pure x f e))

  pub Keeps-if :
      (c : Bool) (m n : Program A) → Keeps b L m → Keeps b L n → Keeps b L (if c then m else n)
  Keeps-if c m n om on = Owns-if c m n (λ _. L) om on

  pub Keeps-on_true :
      (m : Program Bool) (x : A) (rest : Program A)
      → Keeps b L m
      → Keeps b L rest
      → Keeps b L (on_true m x rest)
  Keeps-on_true m x rest om or = Owns-on_true m x rest (λ _. L) om refl or

module _ {A B : Type 0} {b : Binding} {L : List ℕ} where
  pub Owns-on_some :
      (m : Program (Option A)) (x : B) (rest : A → Program B) (f : Option A → List ℕ)
      (g : B → List ℕ)
      → Owns b L m f
      → f none ≡ g x
      → ((a : A) → Owns b (f (some a)) (rest a) g)
      → Owns b L (on_some m x rest) g
  unfolding on_some
  Owns-on_some m x rest f g om e or = Owns-bind m _ f g om go
    where
      go : (r : Option A) → Owns b (f r) (elim r [ none ↦ pure x | some a ↦ rest a ]) g
      go none = Owns-pure x g (sym e)
      go (some a) = or a

  pub Keeps-bind :
      (m : Program A) (k : A → Program B)
      → Keeps b L m
      → ((a : A) → Keeps b L (k a))
      → Keeps b L (m >>= k)
  Keeps-bind m k om ok = Owns-bind m k (λ _. L) (λ _. L) om ok

  pub Keeps-on_some :
      (m : Program (Option A)) (x : B) (rest : A → Program B)
      → Keeps b L m
      → ((a : A) → Keeps b L (rest a))
      → Keeps b L (on_some m x rest)
  Keeps-on_some m x rest om or = Owns-on_some m x rest (λ _. L) (λ _. L) om refl or

module _ {b : Binding} {L : List ℕ} where
  pub Keeps-both : (m n : Program Bool) → Keeps b L m → Keeps b L n → Keeps b L (both m n)
  unfolding both
  Keeps-both m n om on = Keeps-on_true m false n om on

  -- The context that was created last is destroyed, or the one before it.
  pub Owns-destroy : (h : ℕ) → Owns b (h ∷ L) (destroy (some h)) (λ _. L)
  unfolding destroy after contains
  Owns-destroy h = Owns-note _ L (ground arith)

  pub Owns-destroy_next : (g h : ℕ) → Owns b (g ∷ h ∷ L) (destroy (some h)) (λ _. g ∷ L)
  unfolding destroy after contains
  Owns-destroy_next g h = Owns-note _ (g ∷ L) (ground arith)
