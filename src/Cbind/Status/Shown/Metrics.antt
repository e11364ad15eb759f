-- ===== src/Cbind/Status/Shown/Metrics.antt =====
-- The data that cbind/examples/metrics.c compares.
use nim_libp2p.Common.{ℕ, refl, false, []}
use nim_libp2p.Cbind.Binding.{Binding, collect_metrics, start}
use nim_libp2p.Cbind.Waiters.{filled, copied_bytes}
use nim_libp2p.Cbind.Metrics
use nim_libp2p.Cbind.Status.{Passes}
use nim_libp2p.Cbind.Status.Rules.{Passes-bind, Passes-on_true_kept, Passes-pure}
use nim_libp2p.Cbind.Status.Waiters.{shown_rules, Passes-await_call_kept}
use nim_libp2p.Cbind.Status.Nodes.{is_zero, Passes-pure_status}
use nim_libp2p.Cbind.Status.Shown.{
  shown, is_json, shown-IsSteady, Asks-kept, Asks-hit, Passes-tested, Passes-then,
}

module _ {b : Binding} where
  metrics_exchange : (n : ℕ) → Passes (shown is_json) b false (Metrics.exchange n) is_zero
  unfolding Metrics.exchange Metrics.on_metrics filled copied_bytes
  metrics_exchange n =
      Passes-on_true_kept _ _ _ _
        (Passes-await_call_kept (shown-IsSteady is_json) (start n) _ false
          (Asks-kept is_json (start n) false))
        refl
        (Passes-tested is_json collect_metrics Metrics.on_metrics [] _ Metrics.is_metrics _ _ _ refl
          (Asks-hit is_json collect_metrics false)
          (λ v. Passes-then is_json (Metrics.is_metrics v) _ _ _ (Passes-pure 0 is_zero)))

  metrics_run : (n : ℕ) → Passes (shown is_json) b false (Metrics.run n) is_zero
  unfolding Metrics.run
  metrics_run n = Passes-bind _ _ is_zero _ (metrics_exchange n) (λ s.
      search (shown_rules, shown-IsSteady is_json, Asks-kept is_json, Passes-pure_status) depth 30)

  pub metrics_main-shown : Passes (shown is_json) b false Metrics.main is_zero
  unfolding Metrics.main
  metrics_main-shown =
      search (shown_rules, shown-IsSteady is_json, Asks-kept is_json, metrics_run) depth 30
