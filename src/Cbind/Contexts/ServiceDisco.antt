-- ===== src/Cbind/Contexts/ServiceDisco.antt =====
-- Ownership of contexts by cbind/examples/service_disco.c.
use nim_libp2p.Common.{
  ℕ, zero, suc, ◌≡◌, refl, Bool, true, false, List, [], ◌∷◌, Option, none, some,
}
use nim_libp2p.Cbind.Binding.{Bytes, codes, Binding, start}
use nim_libp2p.Cbind.Program.{◌>>◌, pure, pause, report}
use nim_libp2p.Cbind.Waiters.{PeerInfoWaiter}
use nim_libp2p.Cbind.ServiceDisco.{
  attempt, round_tripped, lookup_provider, rejects_disco_before_start, exchange, run_seeker,
  advertise, run_provider, disco_node, main,
}
use nim_libp2p.Cbind.Contexts.{IsTidy, is_owned, Owns, Keeps}
use nim_libp2p.Cbind.Contexts.Nodes.{Owns-stop-destroy}
use nim_libp2p.Cbind.Contexts.Rules.{
  Owns-bind, Keeps-pure, Keeps-bind, Keeps-report, Keeps-on_true, Keeps-on_some, Owns-on_some,
  Keeps-pause,
}
use nim_libp2p.Cbind.Contexts.Waiters.{
  kept_rules, is_owned_first, is_owned_second, created, Keeps-await_call, Keeps-await,
  Keeps-await_peerinfo, Owns-await_create,
}

module _ {b : Binding} {L : List ℕ} where
  Keeps-attempt : (n c : ℕ) (id : Bytes) → is_owned (some c) L ≡ true → Keeps b L (attempt n c id)
  unfolding attempt
  Keeps-attempt zero c id hc = search (kept_rules) depth 30
  Keeps-attempt (suc n) c id hc =
      Keeps-on_some _ _ _ (Keeps-await _ _ _ _ hc (λ a. refl))
        (λ rw. go (round_tripped rw id) (Keeps-attempt n c id hc))
    where
      go :
          (r : Option Bool)
          → Keeps b L (attempt n c id)
          → Keeps b L (elim r [
            | none ↦ pause >> attempt n c id
            | some true ↦ pure true
            | some false ↦
                (report (codes "Error") (codes "service data did not round-trip") >> pure false)
          ])
      go none h = Keeps-bind _ _ Keeps-pause (λ _. h)
      go (some true) h = Keeps-pure true
      go (some false) h = Keeps-bind _ _ (Keeps-report _ _) (λ _. Keeps-pure false)

  Keeps-rejects : (p : ℕ) → is_owned (some p) L ≡ true → Keeps b L (rejects_disco_before_start p)
  unfolding rejects_disco_before_start
  Keeps-rejects p hp = search (kept_rules) depth 30

  Keeps-lookup_provider :
      (c : ℕ) (id : Bytes) → is_owned (some c) L ≡ true → Keeps b L (lookup_provider c id)
  unfolding lookup_provider
  Keeps-lookup_provider c id hc = Keeps-attempt 30 c id hc

  Keeps-exchange :
      (s c : ℕ) (info : PeerInfoWaiter)
      → is_owned (some s) L ≡ true
      → is_owned (some c) L ≡ true
      → Keeps b L (exchange s c info)
  unfolding exchange
  Keeps-exchange s c info hs hc = search (kept_rules, Keeps-lookup_provider) depth 30

module _ {b : Binding} where
  Owns-run_seeker :
      (s c : ℕ) (info : PeerInfoWaiter) → Owns b (c ∷ s ∷ []) (run_seeker s c info) (λ _. s ∷ [])
  unfolding run_seeker
  Owns-run_seeker s c info =
      Owns-bind _ _ (λ _. c ∷ s ∷ []) _
        (Keeps-exchange s c info (is_owned_second c s []) (is_owned_first c _))
        (Owns-stop-destroy c _)

module _ {b : Binding} (tidy : IsTidy b) where
  Keeps-advertise : (provider : ℕ) → Keeps b (provider ∷ []) (advertise provider)
  unfolding advertise disco_node
  Keeps-advertise s = Keeps-on_true _ _ _ (Keeps-rejects s (is_owned_first s _)) (
      Keeps-on_true _ _ _ (Keeps-await_call (start s) _ (is_owned_first s _) (λ a. refl)) (
        Keeps-on_some _ _ _ (Keeps-await_peerinfo s _ (is_owned_first s _)) (λ info.
          Owns-on_some _ _ _ (created (s ∷ [])) _ (Owns-await_create _ _ tidy) refl
            (λ c. Owns-run_seeker s c info))))

  Owns-run_provider : (provider : ℕ) → Owns b (provider ∷ []) (run_provider provider) (λ _. [])
  unfolding run_provider
  Owns-run_provider s = Owns-bind _ _ (λ _. s ∷ []) _ (Keeps-advertise s) (Owns-stop-destroy s _)

  pub disco_main-Owns : Owns b [] main (λ _. [])
  unfolding main disco_node
  disco_main-Owns =
      Owns-on_some _ _ _ (created []) _ (Owns-await_create _ _ tidy) refl Owns-run_provider
