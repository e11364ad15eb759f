-- ===== src/Cbind/Status/Shown/Kad.antt =====
-- The data that cbind/examples/kad.c compares.
use nim_libp2p.Common.{ℕ, refl, true, false, []}
use nim_libp2p.Cbind.Binding.{Binding, kad_get_value}
use nim_libp2p.Cbind.Waiters.{PeerInfoWaiter, filled, copied_bytes, equal}
use nim_libp2p.Cbind.Kad
use nim_libp2p.Cbind.Status.{Passes}
use nim_libp2p.Cbind.Status.Rules.{Passes-bind, Passes-on_true_kept}
use nim_libp2p.Cbind.Status.Waiters.{shown_rules}
use nim_libp2p.Cbind.Status.Nodes.{is_zero, Passes-pure_status}
use nim_libp2p.Cbind.Status.Shown.{
  shown, is_value, shown-IsSteady, Asks-kept, Asks-hit, Passes-tested, Passes-else,
}

module _ {b : Binding} where
  kad_find_provider :
      (s c : ℕ) (info : PeerInfoWaiter)
      → Passes (shown is_value) b true (Kad.find_provider s c info) is_zero
  unfolding Kad.find_provider
  kad_find_provider s c info =
      search (shown_rules, shown-IsSteady is_value, Asks-kept is_value) depth 30

  kad_exchange :
      (s c : ℕ) (info : PeerInfoWaiter)
      → Passes (shown is_value) b false (Kad.exchange s c info) is_zero
  unfolding Kad.exchange Kad.on_value filled copied_bytes
  kad_exchange s c info =
      Passes-on_true_kept _ _ _ _
        (search (shown_rules, shown-IsSteady is_value, Asks-kept is_value) depth 30) refl
        (Passes-on_true_kept _ _ _ _
          (search (shown_rules, shown-IsSteady is_value, Asks-kept is_value) depth 30) refl
          (Passes-tested is_value (kad_get_value c Kad.value_key 1) Kad.on_value [] _
            (λ v. equal v Kad.value_data) _ _ _ refl
            (Asks-hit is_value (kad_get_value c Kad.value_key 1) false)
            (λ v.
              Passes-else is_value (equal v Kad.value_data) _ _ _ (kad_find_provider s c info))))

  kad_run_client :
      (s c : ℕ) (info : PeerInfoWaiter)
      → Passes (shown is_value) b false (Kad.run_client s c info) is_zero
  unfolding Kad.run_client
  kad_run_client s c info = Passes-bind _ _ is_zero _ (kad_exchange s c info) (λ t.
      search (shown_rules, shown-IsSteady is_value, Asks-kept is_value, Passes-pure_status) depth
        30)

  kad_run_server : (s : ℕ) → Passes (shown is_value) b false (Kad.run_server s) is_zero
  unfolding Kad.run_server Kad.serve Kad.kad_node
  kad_run_server s =
      Passes-bind _ _ is_zero _
        (search (shown_rules, shown-IsSteady is_value, Asks-kept is_value, kad_run_client) depth 30)
        (λ t.
          search (shown_rules, shown-IsSteady is_value, Asks-kept is_value, Passes-pure_status)
            depth 30)

  pub kad_main-shown : Passes (shown is_value) b false Kad.main is_zero
  unfolding Kad.main Kad.kad_node
  kad_main-shown =
      search (shown_rules, shown-IsSteady is_value, Asks-kept is_value, kad_run_server) depth 30
