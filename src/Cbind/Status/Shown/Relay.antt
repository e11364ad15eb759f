-- ===== src/Cbind/Status/Shown/Relay.antt =====
-- The data that cbind/examples/relay.c compares.
use nim_libp2p.Common.{ℕ, refl, Bool, false, []}
use nim_libp2p.Cbind.Binding.{Binding, stream_read_lp}
use nim_libp2p.Cbind.Program.{pure}
use nim_libp2p.Cbind.Waiters.{PeerInfoWaiter, filled, copied_bytes, equal}
use nim_libp2p.Cbind.Relay
use nim_libp2p.Cbind.Echo
use nim_libp2p.Cbind.Status.{Passes}
use nim_libp2p.Cbind.Status.Rules.{
  Passes-bind, Passes-bind_kept, Passes-if, Passes-pure_kept, Passes-gets, Passes-report,
  Passes-wait_flag,
}
use nim_libp2p.Cbind.Status.Waiters.{shown_rules, Passes-await_create_kept}
use nim_libp2p.Cbind.Status.Nodes.{is_zero, Passes-pure_status, Passes-three_kept}
use nim_libp2p.Cbind.Status.Shown.{
  shown, is_message, shown-IsSteady, Asks-kept, Asks-created, Asks-hit, Passes-tested,
  Passes-pure_flag,
}

module _ {b : Binding} where
  relay_receive : (d : ℕ) → Passes (shown is_message) b false (Relay.receive d) is_zero
  unfolding Relay.receive Echo.on_read filled copied_bytes
  relay_receive d = Passes-bind_kept _ _ _ (Passes-wait_flag (shown-IsSteady is_message) _) (λ _.
      Passes-bind_kept _ _ _ (Passes-gets _) (λ id.
        Passes-tested is_message (stream_read_lp d id 4096) Echo.on_read [] _
          (λ v. equal v Relay.message) _ _ _ refl
          (Asks-hit is_message (stream_read_lp d id 4096) false)
          (λ v.
            let t : Bool = equal v Relay.message in
            Passes-bind_kept _ _ _
              (Passes-if t t (pure tt) _ _ (Passes-pure_kept tt)
                (Passes-report (shown-IsSteady is_message) _ _))
              (λ _.
                search
                  (shown_rules, shown-IsSteady is_message, Asks-kept is_message, Passes-pure_flag)
                  depth 30))))

  relay_send :
      (d s : ℕ) (ri di : PeerInfoWaiter)
      → Passes (shown is_message) b false (Relay.send d s ri di) is_zero
  unfolding Relay.send
  relay_send d s ri di =
      search (shown_rules, shown-IsSteady is_message, Asks-kept is_message, relay_receive) depth 30

  relay_exchange : (r d s : ℕ) → Passes (shown is_message) b false (Relay.exchange r d s) is_zero
  unfolding Relay.exchange Relay.started Relay.reserve
  relay_exchange r d s =
      search (shown_rules, shown-IsSteady is_message, Asks-kept is_message, relay_send) depth 40

  relay_run : (r d s : ℕ) → Passes (shown is_message) b false (Relay.run r d s) is_zero
  unfolding Relay.run
  relay_run r d s = Passes-bind _ _ is_zero _ (relay_exchange r d s) (λ t.
      search (shown_rules, shown-IsSteady is_message, Asks-kept is_message, Passes-pure_status)
        depth 30)

  pub relay_main-shown : Passes (shown is_message) b false Relay.main is_zero
  unfolding Relay.main Relay.create_node
  relay_main-shown =
      Passes-bind_kept _ _ _
        (Passes-await_create_kept (shown-IsSteady is_message) _ _ false
          (Asks-created is_message _ false))
        (λ r.
          Passes-bind_kept _ _ _
            (Passes-await_create_kept (shown-IsSteady is_message) _ _ false
              (Asks-created is_message _ false))
            (λ d.
              Passes-bind_kept _ _ _
                (Passes-await_create_kept (shown-IsSteady is_message) _ _ false
                  (Asks-created is_message _ false))
                (λ s. Passes-three_kept (shown-IsSteady is_message) r d s Relay.run relay_run)))
