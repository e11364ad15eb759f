-- ===== src/Cbind/Status/Kad.antt =====
-- Passed requests of cbind/examples/kad.c.
use nim_libp2p.Common.{ℕ, true}
use nim_libp2p.Cbind.Binding.{Binding}
use nim_libp2p.Cbind.Waiters.{PeerInfoWaiter, filled}
use nim_libp2p.Cbind.Kad
use nim_libp2p.Cbind.Status.{all_passed, Passes}
use nim_libp2p.Cbind.Status.Rules.{Passes-bind}
use nim_libp2p.Cbind.Status.Waiters.{passed_rules}
use nim_libp2p.Cbind.Status.Nodes.{is_zero, Passes-pure_status}

module _ {b : Binding} where
  kad_find_provider :
      (s c : ℕ) (info : PeerInfoWaiter)
      → Passes all_passed b true (Kad.find_provider s c info) is_zero
  unfolding Kad.find_provider Kad.on_cid Kad.on_providers filled
  kad_find_provider s c info = search passed_rules depth 30

  kad_exchange :
      (s c : ℕ) (info : PeerInfoWaiter) → Passes all_passed b true (Kad.exchange s c info) is_zero
  unfolding Kad.exchange Kad.on_value filled
  kad_exchange s c info = search (passed_rules, kad_find_provider) depth 30

  kad_run_client :
      (s c : ℕ) (info : PeerInfoWaiter) → Passes all_passed b true (Kad.run_client s c info) is_zero
  unfolding Kad.run_client
  kad_run_client s c info =
      Passes-bind _ _ is_zero _ (kad_exchange s c info)
        (λ t. search (passed_rules, Passes-pure_status) depth 30)

  kad_run_server : (s : ℕ) → Passes all_passed b true (Kad.run_server s) is_zero
  unfolding Kad.run_server Kad.serve Kad.kad_node
  kad_run_server s =
      Passes-bind _ _ is_zero _ (search (passed_rules, kad_run_client) depth 30)
        (λ t. search (passed_rules, Passes-pure_status) depth 30)

  pub kad_main-Passes : Passes all_passed b true Kad.main is_zero
  unfolding Kad.main Kad.kad_node
  kad_main-Passes = search (passed_rules, kad_run_server) depth 30
