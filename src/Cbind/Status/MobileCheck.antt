-- ===== src/Cbind/Status/MobileCheck.antt =====
-- What libp2p_mobile_check.c was told when it ends with the status 0.
pub mod Main
use nim_libp2p.Common.{
  ℕ, suc, ◌≡◌, refl, arith, Bool, true, false, List, Option, none, some, if◌then◌else◌, ◌&&◌, not,
}
use nim_libp2p.Cbind.Binding.{
  Bytes, codes, pos, is_ok, Binding, Call, create, start, stop, Answer, Reply, Entry, asked,
  refused, destroyed, wait_initialised, wait_destroyed,
}
use nim_libp2p.Cbind.Program.{
  World, returned, exited, ◌>>=◌, ◌>>◌, pure, note, fired, report, both, on_true,
}
use nim_libp2p.Cbind.MobileCheck.{
  Host, CallbackWait, callback_wait, timed_wait, wait_init, wait_destroy, wait_for_callback,
  wait_result, submit, drop_context, finish_create, finish_call, mobile_config, create_node,
  call_bool_method, destroy_checked, run, main, on_bool_reply, record_error, signal_done, set_reply,
  is_null,
}
use nim_libp2p.Cbind.Status.{IsSteady, Asks, Passes, Passing}
use nim_libp2p.Cbind.Status.Rules.{
  Passes-bind, Passes-bind_kept, Passes-pure, Passes-pure_self, Passes-pure_kept,
  Passes-pure_failed, Passes-if, Passes-note, Passes-report, Passes-on_some_kept, Passes-bind_true,
}
use nim_libp2p.Cbind.Status.Waiters.{shown_rules}
use nim_libp2p.Cbind.Status.Nodes.{is_zero}
use nim_libp2p.Cbind.Status.Shown.{shown, shown-IsSteady, Asks-kept, Asks-created, Asks-hit}

-- The start and the stop of the node, answered without an error and with `true`.
abbrev pub is_true : Answer Bool → Bool
is_true a = is_ok a.code && elim a.reply [ none ↦ false | some r ↦ r ]

abbrev pub is_start : (c : Call) → Answer (Reply c) → Bool
is_start (start _) a = is_true a
is_start c a = false

abbrev pub is_stop : (c : Call) → Answer (Reply c) → Bool
is_stop (stop _) a = is_true a
is_stop c a = false

-- The waiter says just that after the callback.
on_bool_reply-is_true :
    (a : Answer Bool)
    → (is_ok (on_bool_reply a callback_wait).err_code && (on_bool_reply a callback_wait).bool_reply)
      ≡ is_true a
unfolding on_bool_reply signal_done record_error set_reply is_null
on_bool_reply-is_true a = ground arith

module _ {good : List Entry → Bool} {b : Binding} (steady : IsSteady good) where
  Passes-wait_destroy : (p : Bool) → Passes good b p wait_destroy (λ _. p)
  unfolding wait_destroy
  Passes-wait_destroy p = Passes-note steady wait_destroyed refl

  Passes-wait_init : (host : Host) (p : Bool) → Passes good b p (wait_init host) (λ _. p)
  unfolding wait_init
  Passes-wait_init host p = record {
    at = λ w e. go w e (is_ok ((host.mutex_init) w.log) && is_ok ((host.cond_init) w.log));
  }
    where
      go :
          (w : World)
          → (p ≡ true → good w.log ≡ true)
          → (c : Bool) → Passing good (λ _. p) (if c then note wait_initialised b w else exited 2 w)
      go w e true = (Passes-note steady wait_initialised refl).at w e
      go w e false = tt

  Passes-submit : (c : Call) (op : Bytes) (p : Bool) → Passes good b p (submit c op) (λ _. p)
  unfolding submit
  Passes-submit c op p = record { at = λ w e. go w e (is_ok ((b.submit) w.log c)) }
    where
      refusal :
          Passes good b p
            (note (refused c) >> (report op (codes "submit failed") >> pure false))
            (λ _. p)
      refusal =
          Passes-bind_kept _ _ _ (Passes-note steady (refused c) refl)
            (λ _. Passes-bind_kept _ _ _ (Passes-report steady _ _) (λ _. Passes-pure_kept false))

      go :
          (w : World)
          → (p ≡ true → good w.log ≡ true)
          → (c' : Bool)
          → Passing good
              (λ _. p)
              (if c'
                then returned true w
                else (note (refused c) >> (report op (codes "submit failed") >> pure false)) b w)
      go w e true = e
      go w e false = refusal.at w e

  Passes-wait_for_callback :
      (host : Host) (c : Call) (p : Bool) (f : Answer (Reply c) → Bool)
      → Asks good c p f
      → Passes good b p (wait_for_callback host c) f
  unfolding wait_for_callback note
  Passes-wait_for_callback host c p f asks = record {
    at = λ w e. go w e (
        is_ok ((host.clock_gettime) w.log)
        && is_ok (
            timed_wait host.wakeups 0 (λ i. fired ((b.answer) w.log c) i w.globals)
              ((host.cond_timedwait) w.log) (pos (suc host.etimedout))));
  }
    where
      noted : (a : Answer (Reply c)) → Passes good b p (note (asked c a) >> pure a) f
      noted a =
          Passes-bind _ _ (λ _. f a) _ (record { at = λ w e i. asks a w.log e i })
            (λ _. Passes-pure_self a f)

      go :
          (w : World)
          → (p ≡ true → good w.log ≡ true)
          → (c' : Bool)
          → Passing good f (
              if c'
              then (note (asked c ((b.answer) w.log c)) >> pure ((b.answer) w.log c)) b w
              else exited 1 w)
      go w e true = (noted ((b.answer) w.log c)).at w e
      go w e false = tt

  Passes-wait_result :
      (w : CallbackWait) (op : Bytes) (p : Bool) → Passes good b p (wait_result w op) (λ _. p)
  unfolding wait_result
  Passes-wait_result w op p = search (shown_rules, Passes-pure_kept) depth 10

  ended_false : (p : Bool) → Passes good b p (wait_destroy >> pure false) (λ ok. ok)
  ended_false p =
      Passes-bind_kept _ _ _ (Passes-wait_destroy p)
        (λ _. Passes-pure_failed false (λ ok. ok) p refl)

  Passes-finish_call :
      (w : CallbackWait) (op : Bytes)
      → Passes good b (is_ok w.err_code && w.bool_reply) (finish_call w op) (λ ok. ok)
  unfolding finish_call wait_result
  Passes-finish_call w op =
      Passes-bind _ _ (λ ok. ok && w.bool_reply) _ (result (is_ok w.err_code) w.bool_reply)
        (next w.bool_reply)
    where
      result :
          (c r : Bool)
          → Passes good b
              (c && r)
              (if not c then (report op w.err_msg >> pure false) else pure true)
              (λ ok. ok && r)
      result true r = Passes-pure_self true (λ ok. ok && r)
      result false r =
          Passes-bind_kept _ _ _ (Passes-report steady _ _)
            (λ _. Passes-pure_self false (λ ok. ok && r))

      next :
          (r ok : Bool)
          → Passes good b
              (ok && r)
              (if not ok
                then (wait_destroy >> pure false)
                else (if not r
                    then (report op (codes "expected true reply") >> (wait_destroy >> pure false))
                    else (wait_destroy >> pure true)))
              (λ ok. ok)
      next r false = ended_false false
      next true true = Passes-bind_kept _ _ _ (Passes-wait_destroy true) (λ _. Passes-pure true _)
      next false true = Passes-bind_kept _ _ _ (Passes-report steady _ _) (λ _. ended_false false)

  pub Passes-call_bool_method :
      (host : Host) (c : Call) (to_bool : Answer (Reply c) → Answer Bool) (op : Bytes) (p : Bool)
      → Asks good c p (λ a. is_true (to_bool a))
      → Passes good b p (call_bool_method host c to_bool op) (λ ok. ok)
  unfolding call_bool_method
  Passes-call_bool_method host c to_bool op p asks =
      Passes-bind_kept _ _ _ (Passes-wait_init host p) (λ _.
        Passes-bind_kept _ _ _ (Passes-submit c op p) (λ taken.
          Passes-if (not taken) p (wait_destroy >> pure false) _ _ (ended_false p) (
            Passes-bind (wait_for_callback host c) _ (λ a. is_true (to_bool a)) _
              (Passes-wait_for_callback host c p _ asks)
              (λ a. rw⁻¹ (on_bool_reply-is_true (to_bool a)) (Passes-finish_call _ op)))))

  pub Passes-call_bool_method_kept :
      (host : Host) (c : Call) (to_bool : Answer (Reply c) → Answer Bool) (op : Bytes) (p : Bool)
      → Asks good c p (λ _. p)
      → Passes good b p (call_bool_method host c to_bool op) (λ _. p)
  unfolding call_bool_method finish_call
  Passes-call_bool_method_kept host c to_bool op p asks =
      search
        (
          shown_rules, steady, Passes-pure_kept, Passes-wait_init, Passes-submit,
          Passes-wait_destroy, Passes-wait_for_callback, Passes-wait_result,
        )
        depth 40

  pub Passes-create_node_kept :
      (host : Host) (p : Bool)
      → Asks good (create mobile_config) p (λ _. p)
      → Passes good b p (create_node host) (λ _. p)
  unfolding create_node finish_create drop_context
  Passes-create_node_kept host p asks =
      search
        (
          shown_rules, Passes-pure_kept, Passes-wait_init, Passes-submit, Passes-wait_destroy,
          Passes-wait_for_callback, Passes-wait_result, drop,
        )
        depth 40
    where
      drop : (o : Option ℕ) → Passes good b p (drop_context o) (λ _. p)
      drop none = Passes-pure_kept tt
      drop (some h) = Passes-note steady (destroyed (some h)) refl

  -- What follows the two calls.
  pub Passes-finish :
      (ctx : ℕ) (ok : Bool)
      → Passes good b ok
          (destroy_checked ctx >>= λ down.
            (if down then pure tt else report (codes "destroy") (codes "context teardown failed"))
            >> pure (if ok && down then 0 else 1))
          is_zero
  unfolding destroy_checked note pure ◌>>=◌
  Passes-finish ctx ok = Passes-bind_kept _ _ _ torn_down (λ down.
      Passes-bind_kept _ _ _
        (Passes-if down ok _ _ _ (Passes-pure_kept tt)
          (Passes-report steady (codes "destroy") (codes "context teardown failed")))
        (λ _. status ok down))
    where
      torn_down : Passes good b ok (destroy_checked ctx) (λ _. ok)
      torn_down = record {
        at = λ w e. (Passes-note {b = b} steady (destroyed (some ctx)) refl).at w e;
      }

      status : (ok down : Bool) → Passes good b ok (pure (if ok && down then 0 else 1)) is_zero
      status true down = Passes-pure _ _
      status false down = Passes-pure_failed 1 is_zero false refl
