-- ===== src/Cbind/Status/Metrics.antt =====
-- Passed requests of cbind/examples/metrics.c.
use nim_libp2p.Common.{ℕ, true}
use nim_libp2p.Cbind.Binding.{Binding}
use nim_libp2p.Cbind.Waiters.{filled}
use nim_libp2p.Cbind.Metrics
use nim_libp2p.Cbind.Status.{all_passed, Passes}
use nim_libp2p.Cbind.Status.Rules.{Passes-bind}
use nim_libp2p.Cbind.Status.Waiters.{passed_rules}
use nim_libp2p.Cbind.Status.Nodes.{is_zero, Passes-pure_status}

module _ {b : Binding} where
  metrics_exchange : (n : ℕ) → Passes all_passed b true (Metrics.exchange n) is_zero
  unfolding Metrics.exchange Metrics.on_metrics filled
  metrics_exchange n = search passed_rules depth 30

  metrics_run : (n : ℕ) → Passes all_passed b true (Metrics.run n) is_zero
  unfolding Metrics.run
  metrics_run n =
      Passes-bind _ _ is_zero _ (metrics_exchange n)
        (λ s. search (passed_rules, Passes-pure_status) depth 30)

  pub metrics_main-Passes : Passes all_passed b true Metrics.main is_zero
  unfolding Metrics.main
  metrics_main-Passes = search (passed_rules, metrics_run) depth 30
