-- ===== src/Cbind/Status/MobileCheck/Main.antt =====
-- The status of libp2p_mobile_check.c: both calls of the node have been answered with `true`.
use nim_libp2p.Common.{ℕ, refl, true, false}
use nim_libp2p.Cbind.Binding.{Binding, start, stop}
use nim_libp2p.Cbind.Program.{both, on_true}
use nim_libp2p.Cbind.MobileCheck.{Host, mobile_config, run, main}
use nim_libp2p.Cbind.Status.{Passes}
use nim_libp2p.Cbind.Status.Rules.{
  Passes-bind, Passes-bind_kept, Passes-pure_failed, Passes-if, Passes-on_some_kept,
  Passes-bind_true,
}
use nim_libp2p.Cbind.Status.Nodes.{is_zero}
use nim_libp2p.Cbind.Status.Shown.{shown, shown-IsSteady, Asks-kept, Asks-created, Asks-hit}
use nim_libp2p.Cbind.Status.MobileCheck.{
  is_start, is_stop, Passes-call_bool_method, Passes-call_bool_method_kept, Passes-create_node_kept,
  Passes-finish,
}

module _ {b : Binding} (host : Host) where
  start_shown : (ctx : ℕ) → Passes (shown is_start) b false (run host ctx) is_zero
  unfolding run both
  start_shown ctx =
      Passes-bind _ _ (λ ok. ok) _
        (Passes-bind_true _ _ _ _
          (Passes-call_bool_method (shown-IsSteady is_start) host (start ctx) (λ a. a) _ false
            (Asks-hit is_start (start ctx) false))
          refl
          (Passes-call_bool_method (shown-IsSteady is_start) host (stop ctx) (λ a. a) _ true
            (λ a log before f. Asks-kept is_start (stop ctx) true a log before refl)))
        (Passes-finish (shown-IsSteady is_start) ctx)

  stop_shown : (ctx : ℕ) → Passes (shown is_stop) b false (run host ctx) is_zero
  unfolding run both on_true
  stop_shown ctx =
      Passes-bind _ _ (λ ok. ok) _
        (Passes-bind_kept _ _ _
          (Passes-call_bool_method_kept (shown-IsSteady is_stop) host (start ctx) (λ a. a) _ false
            (Asks-kept is_stop (start ctx) false))
          (λ ok.
            Passes-if ok false _ _ _
              (Passes-call_bool_method (shown-IsSteady is_stop) host (stop ctx) (λ a. a) _ false
                (Asks-hit is_stop (stop ctx) false))
              (Passes-pure_failed false _ false refl)))
        (Passes-finish (shown-IsSteady is_stop) ctx)

  pub mobile_check_main-start : Passes (shown is_start) b false (main host) is_zero
  unfolding main
  mobile_check_main-start =
      Passes-on_some_kept _ _ _ _
        (Passes-create_node_kept (shown-IsSteady is_start) host false
          (Asks-created is_start mobile_config false))
        refl start_shown

  pub mobile_check_main-stop : Passes (shown is_stop) b false (main host) is_zero
  unfolding main
  mobile_check_main-stop =
      Passes-on_some_kept _ _ _ _
        (Passes-create_node_kept (shown-IsSteady is_stop) host false
          (Asks-created is_stop mobile_config false))
        refl stop_shown
