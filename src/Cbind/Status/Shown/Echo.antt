-- ===== src/Cbind/Status/Shown/Echo.antt =====
-- The data that cbind/examples/echo.c compares.
use nim_libp2p.Common.{ℕ, refl, Bool, false, List, [], Option, none, some, not}
use nim_libp2p.Cbind.Binding.{
  Bytes, codes, Binding, stream_read_lp, start, stream_release, stream_close_with_eof,
}
use nim_libp2p.Cbind.Program.{pure, ◌>>=◌}
use nim_libp2p.Cbind.Waiters.{PeerInfoWaiter, filled, copied_bytes, equal, await_peerinfo}
use nim_libp2p.Cbind.Echo
use nim_libp2p.Cbind.Status.{Passes}
use nim_libp2p.Cbind.Status.Rules.{
  Passes-bind, Passes-bind_kept, Passes-pure_self, Passes-if, Passes-on_true_kept, Passes-pure,
  Passes-pure_kept, Passes-report, Passes-listened, Passes-bind_true,
}
use nim_libp2p.Cbind.Status.Waiters.{shown_rules, Passes-await_call_kept, Passes-await_create_kept}
use nim_libp2p.Cbind.Status.Nodes.{is_zero, Passes-pure_status}
use nim_libp2p.Cbind.Status.Shown.{
  shown, is_echo, shown-IsSteady, Asks-kept, Asks-created, Asks-hit, Passes-tested,
}

module _ {b : Binding} where
  echo_serve : (s : ℕ) → Passes (shown is_echo) b false (Echo.serve_echo s) (λ _. false)
  unfolding Echo.serve_echo
  echo_serve s = search (shown_rules, shown-IsSteady is_echo, Asks-kept is_echo) depth 30

  -- The read of the reply decides, whatever was sent; it is the last one that counts.
  echo_verify :
      (c id : ℕ)
      → Passes (shown is_echo) b false (Echo.verify_echo c id (codes "hello again")) (λ ok. ok)
  unfolding Echo.verify_echo Echo.on_read filled copied_bytes
  echo_verify c id =
      Passes-tested is_echo (stream_read_lp c id 4096) Echo.on_read [] _
        (λ v. equal v (codes "hello again")) _ _ _ refl
        (Asks-hit is_echo (stream_read_lp c id 4096) false)
        (λ v.
          let t : Bool = equal v (codes "hello again") in
          Passes-bind_kept _ _ _
            (Passes-if t t (pure tt) _ _ (Passes-pure_kept tt)
              (Passes-report (shown-IsSteady is_echo) _ _))
            (λ _.
              Passes-bind_kept _ _ _
                (Passes-await_call_kept (shown-IsSteady is_echo) (stream_close_with_eof c id) _ t
                  (Asks-kept is_echo (stream_close_with_eof c id) t))
                (λ _.
                  Passes-bind_kept _ _ _
                    (Passes-await_call_kept (shown-IsSteady is_echo) (stream_release c id) _ t
                      (Asks-kept is_echo (stream_release c id) t))
                    (λ _. Passes-pure_self t (λ ok. ok)))))

  -- The first round trip decides nothing.
  echo_first :
      (c s : ℕ) (id : Bytes) (addrs : List Bytes) (sent : Bytes)
      → Passes (shown is_echo) b false (Echo.echo_round_trip c s id addrs sent) (λ _. false)
  unfolding Echo.echo_round_trip Echo.verify_echo
  echo_first c s id addrs sent =
      search (shown_rules, shown-IsSteady is_echo, Asks-kept is_echo, echo_serve) depth 40

  echo_second :
      (c s : ℕ) (id : Bytes) (addrs : List Bytes)
      → Passes
          (shown is_echo)
          b
          false
          (Echo.echo_round_trip c s id addrs (codes "hello again"))
          (λ ok. ok)
  unfolding Echo.echo_round_trip
  echo_second c s id addrs =
      search (shown_rules, shown-IsSteady is_echo, Asks-kept is_echo, echo_serve, echo_verify) depth
        40

  echo_exchange :
      (s c : ℕ) (pw : PeerInfoWaiter)
      → Passes (shown is_echo) b false (Echo.exchange s c pw) is_zero
  unfolding Echo.exchange
  echo_exchange s c pw =
      Passes-on_true_kept _ _ _ _
        (Passes-await_call_kept (shown-IsSteady is_echo) (start c) _ false
          (Asks-kept is_echo (start c) false))
        refl
        (Passes-on_true_kept _ _ _ _ (echo_first c s _ _ _) refl
          (Passes-bind_true _ _ _ _ (echo_second c s _ _) refl (Passes-pure 0 is_zero)))

  echo_run :
      (s c : ℕ) (pw : PeerInfoWaiter) → Passes (shown is_echo) b false (Echo.run s c pw) is_zero
  unfolding Echo.run
  echo_run s c pw = Passes-bind _ _ is_zero _ (echo_exchange s c pw) (λ t.
      search (shown_rules, shown-IsSteady is_echo, Asks-kept is_echo, Passes-pure_status) depth 30)

  echo_give_up : (s : ℕ) → Passes (shown is_echo) b false (Echo.give_up s) is_zero
  unfolding Echo.give_up
  echo_give_up s = search (shown_rules, shown-IsSteady is_echo) depth 10

  echo_with_server : (s : ℕ) → Passes (shown is_echo) b false (Echo.with_server s) is_zero
  unfolding Echo.with_server Echo.create_node
  echo_with_server s = Passes-bind_kept _ _ _ (Passes-listened (shown-IsSteady is_echo) s) (λ _.
      Passes-bind_kept _ _ _
        (search (shown_rules, shown-IsSteady is_echo, Asks-kept is_echo) depth 20)
        (λ ok. Passes-if (not ok) false (Echo.give_up s) _ _ (echo_give_up s) (
          Passes-bind_kept (await_peerinfo s (codes "peerinfo")) _ _
            (search (shown_rules, shown-IsSteady is_echo, Asks-kept is_echo) depth 20) with_info)))
    where
      with_client :
          (pw : PeerInfoWaiter) (c : Option ℕ)
          → Passes
              (shown is_echo)
              b
              false
              (elim c [ none ↦ Echo.give_up s | some h ↦ Echo.run s h pw ])
              is_zero
      with_client pw none = echo_give_up s
      with_client pw (some h) = echo_run s h pw

      with_info :
          (info : Option PeerInfoWaiter)
          → Passes
              (shown is_echo)
              b
              false
              (elim info [
                | none ↦ Echo.give_up s
                | some pw ↦
                    Echo.create_node (codes "/ip4/127.0.0.1/tcp/0") (codes "client") >>= λ client.
                    elim client [ none ↦ Echo.give_up s | some h ↦ Echo.run s h pw ]
              ])
              is_zero
      with_info none = echo_give_up s
      with_info (some pw) =
          Passes-bind_kept _ _ _
            (Passes-await_create_kept (shown-IsSteady is_echo) _ _ false
              (Asks-created is_echo _ false))
            (with_client pw)

  pub echo_main-shown : Passes (shown is_echo) b false Echo.main is_zero
  unfolding Echo.main Echo.create_node
  echo_main-shown =
      search (shown_rules, shown-IsSteady is_echo, Asks-kept is_echo, echo_with_server) depth 30
