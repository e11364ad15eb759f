-- ===== src/Cbind/Contexts/Metrics.antt =====
-- Ownership of contexts by cbind/examples/metrics.c.
use nim_libp2p.Common.{ℕ, ◌≡◌, refl, true, List, [], ◌∷◌, some}
use nim_libp2p.Cbind.Binding.{Binding}
use nim_libp2p.Cbind.Metrics.{exchange, run, main}
use nim_libp2p.Cbind.Contexts.{IsTidy, is_owned, Owns, Keeps}
use nim_libp2p.Cbind.Contexts.Nodes.{Owns-stop-destroy}
use nim_libp2p.Cbind.Contexts.Rules.{Owns-bind, Owns-on_some}
use nim_libp2p.Cbind.Contexts.Waiters.{kept_rules, is_owned_first, created, Owns-await_create}

module _ {b : Binding} {L : List ℕ} where
  Keeps-exchange : (n : ℕ) → is_owned (some n) L ≡ true → Keeps b L (exchange n)
  unfolding exchange
  Keeps-exchange n hn = search (kept_rules) depth 30

module _ {b : Binding} (tidy : IsTidy b) where
  Owns-run : (node : ℕ) → Owns b (node ∷ []) (run node) (λ _. [])
  unfolding run
  Owns-run n =
      Owns-bind _ _ (λ _. n ∷ []) _ (Keeps-exchange n (is_owned_first n _)) (Owns-stop-destroy n _)

  pub metrics_main-Owns : Owns b [] main (λ _. [])
  unfolding main
  metrics_main-Owns = Owns-on_some _ _ _ (created []) _ (Owns-await_create _ _ tidy) refl Owns-run
