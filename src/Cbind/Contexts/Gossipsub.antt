-- ===== src/Cbind/Contexts/Gossipsub.antt =====
-- Ownership of contexts by cbind/examples/gossipsub.c.
use nim_libp2p.Common.{ℕ, ◌≡◌, refl, true, List, [], ◌∷◌, some}
use nim_libp2p.Cbind.Binding.{Binding, stop}
use nim_libp2p.Cbind.Gossipsub.{start_all, publish, exchange, run, gossipsub_node, main}
use nim_libp2p.Cbind.Contexts.{IsTidy, is_owned, Owns, Keeps}
use nim_libp2p.Cbind.Contexts.Rules.{Owns-bind, Keeps-pure, Owns-destroy}
use nim_libp2p.Cbind.Contexts.Nodes.{Owns-with_two}
use nim_libp2p.Cbind.Contexts.Waiters.{
  kept_rules, is_owned_first, is_owned_second, created, Keeps-await_call, Owns-await_create,
}

module _ {b : Binding} {L : List ℕ} where
  Keeps-publish : (p : ℕ) → is_owned (some p) L ≡ true → Keeps b L (publish p)
  unfolding publish
  Keeps-publish p hp = search (kept_rules) depth 30

  Keeps-exchange :
      (s p : ℕ) → is_owned (some s) L ≡ true → is_owned (some p) L ≡ true → Keeps b L (exchange s p)
  unfolding exchange start_all
  Keeps-exchange s p hs hp = search (kept_rules, Keeps-publish) depth 30

module _ {b : Binding} (tidy : IsTidy b) where
  Owns-run : (s p : ℕ) → Owns b (p ∷ s ∷ []) (run s p) (λ _. [])
  unfolding run
  Owns-run s p =
      Owns-bind _ _ (λ _. p ∷ s ∷ []) _
        (Keeps-exchange s p (is_owned_second p s []) (is_owned_first p _))
        (λ status.
          Owns-bind _ _ (λ _. p ∷ s ∷ []) _
            (Keeps-await_call (stop p) _ (is_owned_first p _) (λ a. refl))
            (λ _.
              Owns-bind _ _ (λ _. p ∷ s ∷ []) _
                (Keeps-await_call (stop s) _ (is_owned_second p s []) (λ a. refl))
                (λ _.
                  Owns-bind _ _ (λ _. s ∷ []) _ (Owns-destroy p)
                    (λ _. Owns-bind _ _ (λ _. []) _ (Owns-destroy s) (λ _. Keeps-pure status)))))

  pub gossipsub_main-Owns : Owns b [] main (λ _. [])
  unfolding main gossipsub_node
  gossipsub_main-Owns = Owns-bind _ _ (created []) _ (Owns-await_create _ _ tidy) (λ l.
      Owns-bind _ _ (created (created [] l)) _ (Owns-await_create _ _ tidy)
        (λ o. Owns-with_two b l o run 1 Owns-run))
