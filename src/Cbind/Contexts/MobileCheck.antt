-- ===== src/Cbind/Contexts/MobileCheck.antt =====
-- Ownership of contexts by cbind/examples/libp2p_mobile_check.c.
use nim_libp2p.Common.{
  ℕ, suc, arith, ◌≡◌, refl, ap, Bool, true, false, List, [], ◌∷◌, Option, none, some, is_some,
  if◌then◌else◌, ◌&&◌, not,
}
use nim_libp2p.Common.Sets.{contains}
use nim_libp2p.Cbind.Binding.{
  Bytes, codes, pos, is_ok, Binding, Call, create, start, stop, Answer, Reply, Entry, asked,
  refused, destroyed, wait_initialised,
}
use nim_libp2p.Cbind.Program.{
  Program, World, returned, exited, ◌>>=◌, ◌>>◌, pure, note, fired, report,
}
use nim_libp2p.Cbind.MobileCheck.{
  Host, CallbackWait, callback_wait, timed_wait, wait_init, wait_destroy, wait_for_callback,
  wait_result, submit, drop_context, finish_create, finish_call, mobile_config, create_node,
  call_bool_method, destroy_checked, run, main, on_created, record_error, signal_done, set_ctx,
  is_null,
}
use nim_libp2p.Cbind.Contexts.{
  is_owned, context, gained, after, owned_after, Owning, Owns, Keeps, IsTidy,
}
use nim_libp2p.Cbind.Contexts.Rules.{
  Owns-bind, Owns-pure, Owns-if, Keeps-pure, Keeps-if, Keeps-bind, Keeps-report, Owns-on_some,
  Owns-note, Keeps-both,
}
use nim_libp2p.Cbind.Contexts.Waiters.{kept_rules, is_owned_first, created}

module _ {b : Binding} {L : List ℕ} where
  Keeps-wait_destroy : Keeps b L wait_destroy
  unfolding wait_destroy after
  Keeps-wait_destroy = Owns-note _ L refl

  Keeps-wait_init : (host : Host) → Keeps b L (wait_init host)
  unfolding wait_init note after owned_after
  Keeps-wait_init host = record {
    at = λ w e. go w (is_ok ((host.mutex_init) w.log) && is_ok ((host.cond_init) w.log)) e;
  }
    where
      go :
          (w : World) (c : Bool)
          → owned_after w.log ≡ some L
          → Owning (λ _. L) (if c then note wait_initialised b w else exited 2 w)
      go w true e = ap (λ o. elim o [ none ↦ none | some owned ↦ after wait_initialised owned ]) e
      go w false e = ap is_some e

  Keeps-submit : (c : Call) (op : Bytes) → is_owned (context c) L ≡ true → Keeps b L (submit c op)
  unfolding submit after
  Keeps-submit c op h = record { at = λ w e. go w (is_ok ((b.submit) w.log c)) e }
    where
      refusal : Keeps b L (note (refused c) >> (report op (codes "submit failed") >> pure false))
      refusal =
          Keeps-bind _ _ (Owns-note _ L (rw h))
            (λ _. Keeps-bind _ _ (Keeps-report _ _) (λ _. Keeps-pure false))

      go :
          (w : World) (c' : Bool)
          → owned_after w.log ≡ some L
          → Owning
              (λ _. L)
              (if c'
                then returned true w
                else (note (refused c) >> (report op (codes "submit failed") >> pure false)) b w)
      go w true e = e
      go w false e = refusal.at w e

  -- The rest of a program has the answer of the binding.
  Owns-wait :
      {B : Type 0} (host : Host) (c : Call) (k : Answer (Reply c) → Program B) (g : B → List ℕ)
      → is_owned (context c) L ≡ true
      → ((log : List Entry) → Owns b (gained c ((b.answer) log c) L) (k ((b.answer) log c)) g)
      → Owns b L (wait_for_callback host c >>= k) g
  unfolding wait_for_callback ◌>>=◌ note pure after
  Owns-wait {B = B} host c k g h ok = record {
    at = λ w e. go w e (
        is_ok ((host.clock_gettime) w.log)
        && is_ok (
            timed_wait host.wakeups 0 (λ i. fired ((b.answer) w.log c) i w.globals)
              ((host.cond_timedwait) w.log) (pos (suc host.etimedout))));
  }
    where
      go :
          (w : World)
          → owned_after w.log ≡ some L
          → (c' : Bool)
          → Owning g
              (elim (if c'
                then (note (asked c ((b.answer) w.log c)) >> pure ((b.answer) w.log c)) b w
                else exited 1 w) [ returned a v ↦ k a b v | exited x v ↦ exited x v ])
      go w e true =
          (Owns-bind _ (λ _. k ((b.answer) w.log c)) (λ _. gained c ((b.answer) w.log c) L) g
              (Owns-note (asked c ((b.answer) w.log c)) _ (rw h)) (λ _. ok w.log)).at
            w e
      go w e false = ap is_some e

  Keeps-wait_result : (w : CallbackWait) (op : Bytes) → Keeps b L (wait_result w op)
  unfolding wait_result
  Keeps-wait_result w op = search (kept_rules) depth 10

  Keeps-finish_call : (w : CallbackWait) (op : Bytes) → Keeps b L (finish_call w op)
  unfolding finish_call
  Keeps-finish_call w op = search (kept_rules, Keeps-wait_result, Keeps-wait_destroy) depth 20

  Keeps-call_bool_method :
      (host : Host) (c : Call) (to_bool : Answer (Reply c) → Answer Bool) (op : Bytes)
      → is_owned (context c) L ≡ true
      → ((a : Answer (Reply c)) → gained c a L ≡ L)
      → Keeps b L (call_bool_method host c to_bool op)
  unfolding call_bool_method
  Keeps-call_bool_method host c to_bool op h quiet = Keeps-bind _ _ (Keeps-wait_init host) (λ _.
      Keeps-bind _ _ (Keeps-submit c op h) (λ taken.
        Keeps-if _ _ _ (Keeps-bind _ _ Keeps-wait_destroy (λ _. Keeps-pure false))
          (Owns-wait host c _ _ h (λ log. rw (quiet ((b.answer) log c)) (Keeps-finish_call _ op)))))

  -- The error that the callback recorded decides what follows.
  Owns-wait_result :
      {B : Type 0} (w : CallbackWait) (op : Bytes) (k : Bool → Program B) (g : B → List ℕ)
      → (is_ok w.err_code ≡ true → Owns b L (k true) g)
      → (is_ok w.err_code ≡ false → Owns b L (k false) g)
      → Owns b L (wait_result w op >>= k) g
  unfolding wait_result ◌>>=◌ pure report note
  Owns-wait_result {B = B} w op k g good bad = go (is_ok w.err_code) good bad
    where
      go :
          (c : Bool)
          → (c ≡ true → Owns b L (k true) g)
          → (c ≡ false → Owns b L (k false) g)
          → Owns b L ((if not c then (report op w.err_msg >> pure false) else pure true) >>= k) g
      go true good bad = record { at = λ v e. (good refl).at v e }
      go false good bad = record {
        at = λ v e.
            (Owns-bind _ (λ _. k false) (λ _. L) g (Keeps-report op w.err_msg) (λ _. bad refl)).at v
              e;
      }

-- The context in the waiter is the one that the program owns after the callback.
created-on_created :
    (a : Answer ℕ) (L : List ℕ)
    → (is_ok a.code ≡ false → a.reply ≡ none)
    → is_ok (on_created a callback_wait).err_code ≡ true
    → gained (create mobile_config) a L ≡ created L (on_created a callback_wait).ctx
unfolding on_created signal_done record_error set_ctx is_null
created-on_created a L tidy h = ground arith

on_created-failed :
    (a : Answer ℕ) (L : List ℕ)
    → (is_ok a.code ≡ false → a.reply ≡ none)
    → is_ok (on_created a callback_wait).err_code ≡ false
    → (gained (create mobile_config) a L ≡ L) × ((on_created a callback_wait).ctx ≡ none)
unfolding on_created signal_done record_error set_ctx is_null
on_created-failed a L tidy h = ground arith

module _ {b : Binding} {L : List ℕ} where
  Owns-drop_context :
      (X : List ℕ) (o : Option ℕ)
      → X ≡ L
      → o ≡ none
      → Owns b X (drop_context o >> (wait_destroy >> pure none)) (created L)
  unfolding drop_context
  Owns-drop_context X none e n = rw e (
      Owns-bind _ _ (λ _. L) _ (Keeps-pure tt)
        (λ _. Owns-bind _ _ (λ _. L) _ Keeps-wait_destroy (λ _. Owns-pure none _ refl)))
  Owns-drop_context X (some h) e n = absurd (ground arith)

  -- A creation ends the wait, and gives the context or nothing.
  Owns-finish_create :
      (a : Answer ℕ)
      → (is_ok a.code ≡ false → a.reply ≡ none)
      → Owns b
          (gained (create mobile_config) a L)
          (finish_create (on_created a callback_wait))
          (created L)
  unfolding finish_create
  Owns-finish_create a tidy =
      Owns-wait_result w _ _ _
        (λ h.
          rw (created-on_created a L tidy h) (
            Owns-bind _ _ (λ _. created L w.ctx) _ Keeps-wait_destroy
              (λ _. Owns-pure w.ctx _ refl)))
        (λ h. let (g, n) = on_created-failed a L tidy h in failed g n)
    where
      w : CallbackWait
      w = on_created a callback_wait

      failed :
          gained (create mobile_config) a L ≡ L
          → w.ctx ≡ none
          → Owns b
              (gained (create mobile_config) a L)
              (drop_context w.ctx >> (wait_destroy >> pure none))
              (created L)
      failed g n = Owns-drop_context _ _ g n

  Owns-create_node : (host : Host) → IsTidy b → Owns b L (create_node host) (created L)
  unfolding create_node
  Owns-create_node host tidy =
      Owns-bind _ _ (λ _. L) _ (Keeps-wait_init host)
        (λ _.
          Owns-bind _ _ (λ _. L) _ (Keeps-submit (create mobile_config) _ refl)
            (λ taken.
              Owns-if _ _ _ _
                (Owns-bind _ _ (λ _. L) _ Keeps-wait_destroy (λ _. Owns-pure none _ refl))
                (Owns-wait host (create mobile_config)
                  (λ a. finish_create (on_created a callback_wait)) _ refl
                  (λ log.
                    Owns-finish_create ((b.answer) log (create mobile_config))
                      (tidy log mobile_config)))))

module _ {b : Binding} where
  Owns-destroy_checked : (h : ℕ) → Owns b (h ∷ []) (destroy_checked h) (λ _. [])
  unfolding destroy_checked ◌>>=◌ note pure after owned_after contains
  Owns-destroy_checked h = record {
    at = λ w e. (Owns-note {b = b} (destroyed (some h)) [] (ground arith)).at w e;
  }

  Owns-run : (host : Host) (h : ℕ) → Owns b (h ∷ []) (run host h) (λ _. [])
  unfolding run
  Owns-run host h =
      Owns-bind _ _ (λ _. h ∷ []) _
        (Keeps-both _ _ (Keeps-call_bool_method host (start h) _ _ (is_owned_first h _) (λ a. refl))
          (Keeps-call_bool_method host (stop h) _ _ (is_owned_first h _) (λ a. refl)))
        (λ ok.
          Owns-bind _ _ (λ _. []) _ (Owns-destroy_checked h)
            (λ down.
              Owns-bind _ _ (λ _. []) _ (Keeps-if _ _ _ (Keeps-pure tt) (Keeps-report _ _))
                (λ _. Keeps-pure _)))

  pub mobile_check_main-Owns : (host : Host) → IsTidy b → Owns b [] (main host) (λ _. [])
  unfolding main
  mobile_check_main-Owns host tidy =
      Owns-on_some _ _ _ (created []) _ (Owns-create_node host tidy) refl (Owns-run host)
