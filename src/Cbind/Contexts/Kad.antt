-- ===== src/Cbind/Contexts/Kad.antt =====
-- Ownership of contexts by cbind/examples/kad.c.
use nim_libp2p.Common.{ℕ, ◌≡◌, refl, true, List, [], ◌∷◌, some}
use nim_libp2p.Cbind.Binding.{Binding, start}
use nim_libp2p.Cbind.Waiters.{PeerInfoWaiter}
use nim_libp2p.Cbind.Kad.{find_provider, exchange, run_client, serve, run_server, kad_node, main}
use nim_libp2p.Cbind.Contexts.{IsTidy, is_owned, Owns, Keeps}
use nim_libp2p.Cbind.Contexts.Nodes.{Owns-stop-destroy}
use nim_libp2p.Cbind.Contexts.Rules.{Owns-bind, Keeps-on_true, Keeps-on_some, Owns-on_some}
use nim_libp2p.Cbind.Contexts.Waiters.{
  kept_rules, is_owned_first, is_owned_second, created, Keeps-await_call, Keeps-await_peerinfo,
  Owns-await_create,
}

module _ {b : Binding} {L : List ℕ} where
  Keeps-find_provider :
      (s c : ℕ) (info : PeerInfoWaiter)
      → is_owned (some s) L ≡ true
      → is_owned (some c) L ≡ true
      → Keeps b L (find_provider s c info)
  unfolding find_provider
  Keeps-find_provider s c info hs hc = search (kept_rules) depth 30

  Keeps-exchange :
      (s c : ℕ) (info : PeerInfoWaiter)
      → is_owned (some s) L ≡ true
      → is_owned (some c) L ≡ true
      → Keeps b L (exchange s c info)
  unfolding exchange
  Keeps-exchange s c info hs hc = search (kept_rules, Keeps-find_provider) depth 30

module _ {b : Binding} where
  Owns-run_client :
      (s c : ℕ) (info : PeerInfoWaiter) → Owns b (c ∷ s ∷ []) (run_client s c info) (λ _. s ∷ [])
  unfolding run_client
  Owns-run_client s c info =
      Owns-bind _ _ (λ _. c ∷ s ∷ []) _
        (Keeps-exchange s c info (is_owned_second c s []) (is_owned_first c _))
        (Owns-stop-destroy c _)

module _ {b : Binding} (tidy : IsTidy b) where
  Keeps-serve : (server : ℕ) → Keeps b (server ∷ []) (serve server)
  unfolding serve kad_node
  Keeps-serve s =
      Keeps-on_true _ _ _ (Keeps-await_call (start s) _ (is_owned_first s _) (λ a. refl)) (
        Keeps-on_some _ _ _ (Keeps-await_peerinfo s _ (is_owned_first s _)) (λ info.
          Owns-on_some _ _ _ (created (s ∷ [])) _ (Owns-await_create _ _ tidy) refl
            (λ c. Owns-run_client s c info)))

  Owns-run_server : (server : ℕ) → Owns b (server ∷ []) (run_server server) (λ _. [])
  unfolding run_server
  Owns-run_server s = Owns-bind _ _ (λ _. s ∷ []) _ (Keeps-serve s) (Owns-stop-destroy s _)

  pub kad_main-Owns : Owns b [] main (λ _. [])
  unfolding main kad_node
  kad_main-Owns =
      Owns-on_some _ _ _ (created []) _ (Owns-await_create _ _ tidy) refl Owns-run_server
