-- ===== src/Cbind/Status/Peerstore.antt =====
-- Passed requests of cbind/examples/peerstore.c.
use nim_libp2p.Common.{ℕ, true, is_some, ◌&&◌}
use nim_libp2p.Cbind.Binding.{Binding}
use nim_libp2p.Cbind.Waiters.{filled}
use nim_libp2p.Cbind.Peerstore
use nim_libp2p.Cbind.Status.{all_passed, all_passed-IsSteady, Asks-create, Passes}
use nim_libp2p.Cbind.Status.Rules.{Passes-bind}
use nim_libp2p.Cbind.Status.Waiters.{passed_rules, Passes-await_create}
use nim_libp2p.Cbind.Status.Nodes.{is_zero, Passes-pure_status, Passes-with_two}

module _ {b : Binding} where
  peerstore_add_and_delete :
      (l o : ℕ) → Passes all_passed b true (Peerstore.add_and_delete l o) is_zero
  unfolding Peerstore.add_and_delete Peerstore.get_peers Peerstore.on_peers Peerstore.on_entry
      filled
  peerstore_add_and_delete l o = search passed_rules depth 40

  peerstore_run : (l o : ℕ) → Passes all_passed b true (Peerstore.run l o) is_zero
  unfolding Peerstore.run
  peerstore_run l o =
      Passes-bind _ _ is_zero _ (peerstore_add_and_delete l o)
        (λ s. search (passed_rules, Passes-pure_status) depth 30)

  pub peerstore_main-Passes : Passes all_passed b true Peerstore.main is_zero
  unfolding Peerstore.main Peerstore.create_node
  peerstore_main-Passes =
      Passes-bind _ _ is_some _
        (Passes-await_create all_passed-IsSteady _ _ true (Asks-create _ true))
        (λ l.
          Passes-bind _ _ (λ o. is_some l && is_some o) _
            (Passes-await_create all_passed-IsSteady _ _ (is_some l) (Asks-create _ _))
            (λ o. Passes-with_two all_passed-IsSteady l o Peerstore.run peerstore_run))
