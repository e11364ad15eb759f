-- ===== src/Cbind/Contexts/Peerstore.antt =====
-- Ownership of contexts by cbind/examples/peerstore.c.
use nim_libp2p.Common.{ℕ, ◌≡◌, refl, true, List, [], ◌∷◌, some}
use nim_libp2p.Cbind.Binding.{Binding, stop}
use nim_libp2p.Cbind.Peerstore.{add_and_delete, run, main, create_node, get_peers}
use nim_libp2p.Cbind.Contexts.{IsTidy, is_owned, Owns, Keeps}
use nim_libp2p.Cbind.Contexts.Rules.{Owns-bind, Keeps-pure, Owns-destroy}
use nim_libp2p.Cbind.Contexts.Nodes.{Owns-with_two}
use nim_libp2p.Cbind.Contexts.Waiters.{
  kept_rules, is_owned_first, is_owned_second, created, Keeps-await_call, Keeps-await,
  Owns-await_create,
}

module _ {b : Binding} {L : List ℕ} where
  Keeps-get_peers : (h : ℕ) → is_owned (some h) L ≡ true → Keeps b L (get_peers h)
  unfolding get_peers
  Keeps-get_peers h o = Keeps-await _ _ _ _ o (λ a. refl)

  Keeps-add_and_delete :
      (l o : ℕ)
      → is_owned (some l) L ≡ true
      → is_owned (some o) L ≡ true
      → Keeps b L (add_and_delete l o)
  unfolding add_and_delete
  Keeps-add_and_delete l o hl ho = search (kept_rules, Keeps-get_peers) depth 30

module _ {b : Binding} (tidy : IsTidy b) where
  Owns-run : (local other : ℕ) → Owns b (other ∷ local ∷ []) (run local other) (λ _. [])
  unfolding run
  Owns-run l o =
      Owns-bind _ _ (λ _. o ∷ l ∷ []) _
        (Keeps-add_and_delete l o (is_owned_second o l []) (is_owned_first o _))
        (λ status.
          Owns-bind _ _ (λ _. o ∷ l ∷ []) _
            (Keeps-await_call (stop o) _ (is_owned_first o _) (λ a. refl))
            (λ _.
              Owns-bind _ _ (λ _. l ∷ []) _ (Owns-destroy o)
                (λ _. Owns-bind _ _ (λ _. []) _ (Owns-destroy l) (λ _. Keeps-pure status))))

  -- Whatever the binding answers: when peerstore.c returns, it owns no context, and each that it
  -- created is destroyed once; it never uses one that it does not own, also when it exits.
  pub peerstore_main-Owns : Owns b [] main (λ _. [])
  unfolding main create_node
  peerstore_main-Owns = Owns-bind _ _ (created []) _ (Owns-await_create _ _ tidy) (λ l.
      Owns-bind _ _ (created (created [] l)) _ (Owns-await_create _ _ tidy)
        (λ o. Owns-with_two b l o run 1 Owns-run))
