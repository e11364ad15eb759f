-- ===== src/Cbind/Liveness/Programs.antt =====
-- The programs of cbind/examples return, if the binding calls back in time.
use nim_libp2p.Common.{ℕ, zero, suc, Bool, true, false, List, Option, none, some, not}
use nim_libp2p.Cbind.Binding.{Bytes, codes, Binding}
use nim_libp2p.Cbind.Program.{◌>>=◌, ◌>>◌, pause, pure, report}
use nim_libp2p.Cbind.Waiters.{PeerInfoWaiter, await_peerinfo}
use nim_libp2p.Cbind.Echo
use nim_libp2p.Cbind.Gossipsub
use nim_libp2p.Cbind.Kad
use nim_libp2p.Cbind.Metrics
use nim_libp2p.Cbind.Peerstore
use nim_libp2p.Cbind.Relay
use nim_libp2p.Cbind.ServiceDisco
use nim_libp2p.Cbind.Liveness.{IsPrompt, IsHeard, Returns}
use nim_libp2p.Cbind.Liveness.Rules.{
  Returns-if, Returns-on_some, Returns-bind, Returns-pause, Returns-pure, Returns-report,
}
use nim_libp2p.Cbind.Liveness.Waits.{returns_rules, Returns-await}

module _ {b : Binding} (prompt : IsPrompt b) where
  pub metrics_main-Returns : Returns b Metrics.main
  unfolding Metrics.main Metrics.run Metrics.exchange
  metrics_main-Returns = search returns_rules depth 60

  kad_run_client : (s c : ℕ) (info : PeerInfoWaiter) → Returns b (Kad.run_client s c info)
  unfolding Kad.run_client Kad.exchange Kad.find_provider
  kad_run_client s c info = search returns_rules depth 60

  pub kad_main-Returns : Returns b Kad.main
  unfolding Kad.main Kad.run_server Kad.serve Kad.kad_node
  kad_main-Returns = search (returns_rules, kad_run_client) depth 60

  peerstore_run : (l o : ℕ) → Returns b (Peerstore.run l o)
  unfolding Peerstore.run Peerstore.add_and_delete Peerstore.get_peers
  peerstore_run l o = search returns_rules depth 60

  pub peerstore_main-Returns : Returns b Peerstore.main
  unfolding Peerstore.main Peerstore.create_node
  peerstore_main-Returns = search (returns_rules, peerstore_run) depth 60

  disco_attempt : (n c : ℕ) (id : Bytes) → Returns b (ServiceDisco.attempt n c id)
  unfolding ServiceDisco.attempt
  disco_attempt zero c id = search returns_rules depth 10
  disco_attempt (suc n) c id =
      Returns-on_some _ _ _ (Returns-await prompt _ _ _ _)
        (λ rw. go (ServiceDisco.round_tripped rw id) (disco_attempt n c id))
    where
      go :
          (r : Option Bool)
          → Returns b (ServiceDisco.attempt n c id)
          → Returns b (elim r [
            | none ↦ pause >> ServiceDisco.attempt n c id
            | some true ↦ pure true
            | some false ↦
                (report (codes "Error") (codes "service data did not round-trip") >> pure false)
          ])
      go none h = Returns-bind _ _ Returns-pause (λ _. h)
      go (some true) h = Returns-pure true
      go (some false) h = Returns-bind _ _ (Returns-report _ _) (λ _. Returns-pure false)

  disco_run_seeker :
      (p s : ℕ) (info : PeerInfoWaiter) → Returns b (ServiceDisco.run_seeker p s info)
  unfolding ServiceDisco.run_seeker ServiceDisco.exchange ServiceDisco.lookup_provider
  disco_run_seeker p s info = search (returns_rules, disco_attempt) depth 60

  disco_rejects : (p : ℕ) → Returns b (ServiceDisco.rejects_disco_before_start p)
  unfolding ServiceDisco.rejects_disco_before_start
  disco_rejects p = search returns_rules depth 60

  pub disco_main-Returns : Returns b ServiceDisco.main
  unfolding ServiceDisco.main ServiceDisco.run_provider ServiceDisco.advertise
      ServiceDisco.disco_node
  disco_main-Returns = search (returns_rules, disco_rejects, disco_run_seeker) depth 60

module _ {b : Binding} (prompt : IsPrompt b) (heard : IsHeard b) where
  gossipsub_exchange : (s p : ℕ) → Returns b (Gossipsub.exchange s p)
  unfolding Gossipsub.exchange Gossipsub.start_all Gossipsub.publish
  gossipsub_exchange s p = search returns_rules depth 60

  pub gossipsub_main-Returns : Returns b Gossipsub.main
  unfolding Gossipsub.main Gossipsub.gossipsub_node Gossipsub.run
  gossipsub_main-Returns = search (returns_rules, gossipsub_exchange) depth 60

  relay_exchange : (r d s : ℕ) → Returns b (Relay.exchange r d s)
  unfolding Relay.exchange Relay.started Relay.reserve Relay.send Relay.receive
  relay_exchange r d s = search returns_rules depth 60

  pub relay_main-Returns : Returns b Relay.main
  unfolding Relay.main Relay.create_node Relay.run
  relay_main-Returns = search (returns_rules, relay_exchange) depth 60

  echo_round_trip :
      (c s : ℕ) (id : Bytes) (addrs : List Bytes) (sent : Bytes)
      → Returns b (Echo.echo_round_trip c s id addrs sent)
  unfolding Echo.echo_round_trip Echo.serve_echo Echo.verify_echo
  echo_round_trip c s id addrs sent = search returns_rules depth 60

  echo_run : (s c : ℕ) (pw : PeerInfoWaiter) → Returns b (Echo.run s c pw)
  unfolding Echo.run Echo.exchange
  echo_run s c pw = search (returns_rules, echo_round_trip) depth 60

  echo_with_server : (s : ℕ) → Returns b (Echo.with_server s)
  unfolding Echo.with_server Echo.create_node Echo.give_up
  echo_with_server s = Returns-bind _ _ (search returns_rules) (λ _.
      Returns-bind _ _ (search returns_rules depth 20) (λ ok.
        Returns-if (not ok) (Echo.give_up s) _ (search returns_rules depth 20)
          (Returns-bind (await_peerinfo s (codes "peerinfo")) _ (search returns_rules) with_info)))
    where
      with_client :
          (pw : PeerInfoWaiter) (c : Option ℕ)
          → Returns b (elim c [ none ↦ Echo.give_up s | some h ↦ Echo.run s h pw ])
      with_client pw none = search returns_rules depth 20
      with_client pw (some h) = echo_run s h pw

      with_info :
          (info : Option PeerInfoWaiter)
          → Returns b (elim info [
            | none ↦ Echo.give_up s
            | some pw ↦
                Echo.create_node (codes "/ip4/127.0.0.1/tcp/0") (codes "client") >>= λ client.
                elim client [ none ↦ Echo.give_up s | some h ↦ Echo.run s h pw ]
          ])
      with_info none = search returns_rules depth 20
      with_info (some pw) = Returns-bind _ _ (search returns_rules) (with_client pw)

  pub echo_main-Returns : Returns b Echo.main
  unfolding Echo.main Echo.create_node
  echo_main-Returns = search (returns_rules, echo_with_server) depth 60
