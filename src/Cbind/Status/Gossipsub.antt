-- ===== src/Cbind/Status/Gossipsub.antt =====
-- Passed requests of cbind/examples/gossipsub.c.
use nim_libp2p.Common.{ℕ, true, is_some, ◌&&◌}
use nim_libp2p.Cbind.Binding.{Binding}
use nim_libp2p.Cbind.Waiters.{filled}
use nim_libp2p.Cbind.Gossipsub
use nim_libp2p.Cbind.Status.{all_passed, all_passed-IsSteady, Asks-create, Passes}
use nim_libp2p.Cbind.Status.Rules.{Passes-bind}
use nim_libp2p.Cbind.Status.Waiters.{passed_rules, Passes-await_create}
use nim_libp2p.Cbind.Status.Nodes.{is_zero, Passes-pure_status, Passes-with_two}

module _ {b : Binding} where
  gossipsub_publish : (p : ℕ) → Passes all_passed b true (Gossipsub.publish p) is_zero
  unfolding Gossipsub.publish Gossipsub.on_publish filled
  gossipsub_publish p = search passed_rules depth 40

  gossipsub_exchange : (s p : ℕ) → Passes all_passed b true (Gossipsub.exchange s p) is_zero
  unfolding Gossipsub.exchange Gossipsub.start_all
  gossipsub_exchange s p = search (passed_rules, gossipsub_publish) depth 40

  gossipsub_run : (s p : ℕ) → Passes all_passed b true (Gossipsub.run s p) is_zero
  unfolding Gossipsub.run
  gossipsub_run s p =
      Passes-bind _ _ is_zero _ (gossipsub_exchange s p)
        (λ s. search (passed_rules, Passes-pure_status) depth 30)

  pub gossipsub_main-Passes : Passes all_passed b true Gossipsub.main is_zero
  unfolding Gossipsub.main Gossipsub.gossipsub_node
  gossipsub_main-Passes =
      Passes-bind _ _ is_some _
        (Passes-await_create all_passed-IsSteady _ _ true (Asks-create _ true))
        (λ l.
          Passes-bind _ _ (λ o. is_some l && is_some o) _
            (Passes-await_create all_passed-IsSteady _ _ (is_some l) (Asks-create _ _))
            (λ o. Passes-with_two all_passed-IsSteady l o Gossipsub.run gossipsub_run))
