-- ===== src/Cbind/Status/Echo.antt =====
-- Passed requests of cbind/examples/echo.c.
use nim_libp2p.Common.{
  ℕ, refl, Bool, true, false, List, Option, none, some, is_some, not, if◌then◌else◌,
}
use nim_libp2p.Cbind.Binding.{Bytes, codes, Binding}
use nim_libp2p.Cbind.Program.{◌>>=◌}
use nim_libp2p.Cbind.Waiters.{PeerInfoWaiter, await_peerinfo, filled}
use nim_libp2p.Cbind.Echo
use nim_libp2p.Cbind.Status.{all_passed, all_passed-IsSteady, Asks-create, Passes}
use nim_libp2p.Cbind.Status.Rules.{
  Passes-bind, Passes-bind_kept, Passes-pure_self, Passes-pure_failed, Passes-on_some,
  Passes-destroy,
}
use nim_libp2p.Cbind.Status.Waiters.{passed_rules, Passes-await_create}
use nim_libp2p.Cbind.Status.Nodes.{is_zero, Passes-pure_status}

module _ {b : Binding} where
  echo_serve : (s : ℕ) → Passes all_passed b true (Echo.serve_echo s) (λ ok. ok)
  unfolding Echo.serve_echo Echo.on_read filled
  echo_serve s = Passes-bind_kept _ _ _ (search passed_rules) (λ _.
      Passes-bind_kept _ _ _ (search passed_rules) (λ id.
        Passes-bind_kept _ _ _ (search passed_rules) (λ _.
          Passes-on_some _ _ _ _ (search passed_rules) refl (λ rw.
            Passes-bind _ _ (λ ok. ok) _ (search passed_rules)
              (λ ok.
                Passes-bind_kept _ _ _ (search passed_rules)
                  (λ _. Passes-pure_self ok (λ x. x)))))))

  echo_verify :
      (c id : ℕ) (sent : Bytes) → Passes all_passed b true (Echo.verify_echo c id sent) (λ ok. ok)
  unfolding Echo.verify_echo Echo.on_read filled
  echo_verify c id sent = search passed_rules depth 40

  echo_round_trip :
      (c s : ℕ) (id : Bytes) (addrs : List Bytes) (sent : Bytes)
      → Passes all_passed b true (Echo.echo_round_trip c s id addrs sent) (λ ok. ok)
  unfolding Echo.echo_round_trip Echo.on_dial filled
  echo_round_trip c s id addrs sent = search (passed_rules, echo_serve, echo_verify) depth 40

  echo_exchange :
      (s c : ℕ) (pw : PeerInfoWaiter) → Passes all_passed b true (Echo.exchange s c pw) is_zero
  unfolding Echo.exchange
  echo_exchange s c pw = search (passed_rules, echo_round_trip) depth 40

  echo_run : (s c : ℕ) (pw : PeerInfoWaiter) → Passes all_passed b true (Echo.run s c pw) is_zero
  unfolding Echo.run
  echo_run s c pw =
      Passes-bind _ _ is_zero _ (echo_exchange s c pw)
        (λ s. search (passed_rules, Passes-pure_status) depth 40)

  echo_give_up : (p : Bool) (s : ℕ) → Passes all_passed b p (Echo.give_up s) is_zero
  unfolding Echo.give_up
  echo_give_up p s =
      Passes-bind_kept _ _ _ (Passes-destroy all_passed-IsSteady (some s))
        (λ _. Passes-pure_failed 1 is_zero p refl)

  echo_with_server : (s : ℕ) → Passes all_passed b true (Echo.with_server s) is_zero
  unfolding Echo.with_server Echo.create_node
  echo_with_server s =
      Passes-bind_kept _ _ _ (search passed_rules)
        (λ _. Passes-bind _ _ (λ ok. ok) _ (search passed_rules depth 20) started)
    where
      with_client :
          (pw : PeerInfoWaiter) (c : Option ℕ)
          → Passes all_passed b
              (is_some c)
              (elim c [ none ↦ Echo.give_up s | some h ↦ Echo.run s h pw ])
              is_zero
      with_client pw none = echo_give_up false s
      with_client pw (some h) = echo_run s h pw

      with_info :
          (info : Option PeerInfoWaiter)
          → Passes all_passed b
              (is_some info)
              (elim info [
                | none ↦ Echo.give_up s
                | some pw ↦
                    Echo.create_node (codes "/ip4/127.0.0.1/tcp/0") (codes "client") >>= λ client.
                    elim client [ none ↦ Echo.give_up s | some h ↦ Echo.run s h pw ]
              ])
              is_zero
      with_info none = echo_give_up false s
      with_info (some pw) =
          Passes-bind _ _ is_some _
            (Passes-await_create all_passed-IsSteady _ _ true (Asks-create _ true)) (with_client pw)

      started :
          (ok : Bool)
          → Passes all_passed b ok
              (if not ok
                then Echo.give_up s
                else (await_peerinfo s (codes "peerinfo") >>= λ info. elim info [
                  | none ↦ Echo.give_up s
                  | some pw ↦
                      Echo.create_node (codes "/ip4/127.0.0.1/tcp/0") (codes "client") >>= λ client.
                      elim client [ none ↦ Echo.give_up s | some h ↦ Echo.run s h pw ]
                ]))
              is_zero
      started false = echo_give_up false s
      started true = Passes-bind _ _ is_some _ (search passed_rules) with_info

  pub echo_main-Passes : Passes all_passed b true Echo.main is_zero
  unfolding Echo.main Echo.create_node
  echo_main-Passes = search (passed_rules, echo_with_server) depth 20
