-- ===== src/Cbind/Status/Relay.antt =====
-- Passed requests of cbind/examples/relay.c.
use nim_libp2p.Common.{ℕ, true, is_some, ◌&&◌}
use nim_libp2p.Cbind.Binding.{Binding}
use nim_libp2p.Cbind.Waiters.{PeerInfoWaiter, filled}
use nim_libp2p.Cbind.Echo
use nim_libp2p.Cbind.Relay
use nim_libp2p.Cbind.Status.{all_passed, all_passed-IsSteady, Asks-create, Passes}
use nim_libp2p.Cbind.Status.Rules.{Passes-bind}
use nim_libp2p.Cbind.Status.Waiters.{passed_rules, Passes-await_create}
use nim_libp2p.Cbind.Status.Nodes.{is_zero, Passes-pure_status, Passes-with_three}

module _ {b : Binding} where
  relay_receive : (d : ℕ) → Passes all_passed b true (Relay.receive d) is_zero
  unfolding Relay.receive Echo.on_read filled
  relay_receive d = search passed_rules depth 40

  relay_send :
      (d s : ℕ) (ri di : PeerInfoWaiter) → Passes all_passed b true (Relay.send d s ri di) is_zero
  unfolding Relay.send Echo.on_dial filled
  relay_send d s ri di = search (passed_rules, relay_receive) depth 40

  relay_reserve :
      (d s : ℕ) (ri di : PeerInfoWaiter)
      → Passes all_passed b true (Relay.reserve d s ri di) is_zero
  unfolding Relay.reserve
  relay_reserve d s ri di = search (passed_rules, relay_send) depth 40

  relay_exchange : (r d s : ℕ) → Passes all_passed b true (Relay.exchange r d s) is_zero
  unfolding Relay.exchange Relay.started
  relay_exchange r d s = search (passed_rules, relay_reserve) depth 40

  relay_run : (r d s : ℕ) → Passes all_passed b true (Relay.run r d s) is_zero
  unfolding Relay.run
  relay_run r d s =
      Passes-bind _ _ is_zero _ (relay_exchange r d s)
        (λ s. search (passed_rules, Passes-pure_status) depth 40)

  pub relay_main-Passes : Passes all_passed b true Relay.main is_zero
  unfolding Relay.main Relay.create_node
  relay_main-Passes =
      Passes-bind _ _ is_some _
        (Passes-await_create all_passed-IsSteady _ _ true (Asks-create _ true))
        (λ r.
          Passes-bind _ _ (λ d. is_some r && is_some d) _
            (Passes-await_create all_passed-IsSteady _ _ (is_some r) (Asks-create _ _))
            (λ d.
              Passes-bind _ _ (λ s. (is_some r && is_some d) && is_some s) _
                (Passes-await_create all_passed-IsSteady _ _ _ (Asks-create _ _))
                (λ s. Passes-with_three all_passed-IsSteady r d s Relay.run relay_run)))
