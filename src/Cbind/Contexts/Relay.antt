-- ===== src/Cbind/Contexts/Relay.antt =====
-- Ownership of contexts by cbind/examples/relay.c.
use nim_libp2p.Common.{ℕ, ◌≡◌, refl, true, List, [], ◌∷◌, some}
use nim_libp2p.Cbind.Binding.{Binding, stop}
use nim_libp2p.Cbind.Waiters.{PeerInfoWaiter}
use nim_libp2p.Cbind.Relay.{receive, send, reserve, started, exchange, run, create_node, main}
use nim_libp2p.Cbind.Contexts.{IsTidy, is_owned, Owns, Keeps}
use nim_libp2p.Cbind.Contexts.Rules.{Owns-bind, Keeps-pure, Owns-destroy}
use nim_libp2p.Cbind.Contexts.Nodes.{Owns-with_three}
use nim_libp2p.Cbind.Contexts.Waiters.{
  kept_rules, is_owned_first, is_owned_second, is_owned_third, created, Keeps-await_call,
  Owns-await_create,
}

module _ {b : Binding} {L : List ℕ} where
  Keeps-receive : (d : ℕ) → is_owned (some d) L ≡ true → Keeps b L (receive d)
  unfolding receive
  Keeps-receive d hd = search (kept_rules) depth 30

  Keeps-send :
      (d s : ℕ) (ri di : PeerInfoWaiter)
      → is_owned (some d) L ≡ true
      → is_owned (some s) L ≡ true
      → Keeps b L (send d s ri di)
  unfolding send
  Keeps-send d s ri di hd hs = search (kept_rules, Keeps-receive) depth 30

  Keeps-reserve :
      (d s : ℕ) (ri di : PeerInfoWaiter)
      → is_owned (some d) L ≡ true
      → is_owned (some s) L ≡ true
      → Keeps b L (reserve d s ri di)
  unfolding reserve
  Keeps-reserve d s ri di hd hs = search (kept_rules, Keeps-send) depth 30

  Keeps-exchange :
      (r d s : ℕ)
      → is_owned (some r) L ≡ true
      → is_owned (some d) L ≡ true
      → is_owned (some s) L ≡ true
      → Keeps b L (exchange r d s)
  unfolding exchange started
  Keeps-exchange r d s hr hd hs = search (kept_rules, Keeps-reserve) depth 40

module _ {b : Binding} (tidy : IsTidy b) where
  Owns-run : (relay dst src : ℕ) → Owns b (src ∷ dst ∷ relay ∷ []) (run relay dst src) (λ _. [])
  unfolding run
  Owns-run r d s =
      Owns-bind _ _ (λ _. s ∷ d ∷ r ∷ []) _
        (Keeps-exchange r d s (is_owned_third s d r []) (is_owned_second s d _)
          (is_owned_first s _))
        (λ status.
          Owns-bind _ _ (λ _. s ∷ d ∷ r ∷ []) _
            (Keeps-await_call (stop s) _ (is_owned_first s _) (λ a. refl))
            (λ _.
              Owns-bind _ _ (λ _. s ∷ d ∷ r ∷ []) _
                (Keeps-await_call (stop d) _ (is_owned_second s d _) (λ a. refl))
                (λ _.
                  Owns-bind _ _ (λ _. s ∷ d ∷ r ∷ []) _
                    (Keeps-await_call (stop r) _ (is_owned_third s d r []) (λ a. refl))
                    (λ _.
                      Owns-bind _ _ (λ _. d ∷ r ∷ []) _ (Owns-destroy s)
                        (λ _.
                          Owns-bind _ _ (λ _. r ∷ []) _ (Owns-destroy d)
                            (λ _.
                              Owns-bind _ _ (λ _. []) _ (Owns-destroy r)
                                (λ _. Keeps-pure status)))))))

  pub relay_main-Owns : Owns b [] main (λ _. [])
  unfolding main create_node
  relay_main-Owns = Owns-bind _ _ (created []) _ (Owns-await_create _ _ tidy) (λ r.
      Owns-bind _ _ (created (created [] r)) _ (Owns-await_create _ _ tidy) (λ d.
        Owns-bind _ _ (created (created (created [] r) d)) _ (Owns-await_create _ _ tidy)
          (λ s. Owns-with_three b r d s run 1 Owns-run)))
