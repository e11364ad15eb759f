-- ===== src/Cbind/Contexts/Echo.antt =====
-- Ownership of contexts by cbind/examples/echo.c.
use nim_libp2p.Common.{ℕ, ◌≡◌, refl, true, List, [], ◌∷◌, Option, none, some}
use nim_libp2p.Cbind.Binding.{Bytes, codes, Binding, stop}
use nim_libp2p.Cbind.Program.{◌>>=◌}
use nim_libp2p.Cbind.Waiters.{PeerInfoWaiter}
use nim_libp2p.Cbind.Echo.{
  serve_echo, verify_echo, echo_round_trip, exchange, run, give_up, with_server, create_node, main,
}
use nim_libp2p.Cbind.Contexts.{IsTidy, is_owned, Owns, Keeps}
use nim_libp2p.Cbind.Contexts.Rules.{Owns-bind, Owns-if, Keeps-pure, Owns-on_some, Owns-destroy}
use nim_libp2p.Cbind.Contexts.Waiters.{
  kept_rules, is_owned_first, is_owned_second, created, Keeps-await_call, Keeps-await_peerinfo,
  Owns-await_create,
}

module _ {b : Binding} {L : List ℕ} where
  Keeps-serve_echo : (s : ℕ) → is_owned (some s) L ≡ true → Keeps b L (serve_echo s)
  unfolding serve_echo
  Keeps-serve_echo s hs = search (kept_rules) depth 30

  Keeps-verify_echo :
      (c id : ℕ) (sent : Bytes) → is_owned (some c) L ≡ true → Keeps b L (verify_echo c id sent)
  unfolding verify_echo
  Keeps-verify_echo c id sent hc = search (kept_rules) depth 30

  Keeps-echo_round_trip :
      (c s : ℕ) (id : Bytes) (addrs : List Bytes) (sent : Bytes)
      → is_owned (some c) L ≡ true
      → is_owned (some s) L ≡ true
      → Keeps b L (echo_round_trip c s id addrs sent)
  unfolding echo_round_trip
  Keeps-echo_round_trip c s id addrs sent hc hs =
      search (kept_rules, Keeps-serve_echo, Keeps-verify_echo) depth 30

  Keeps-exchange :
      (s c : ℕ) (info : PeerInfoWaiter)
      → is_owned (some s) L ≡ true
      → is_owned (some c) L ≡ true
      → Keeps b L (exchange s c info)
  unfolding exchange
  Keeps-exchange s c info hs hc = search (kept_rules, Keeps-echo_round_trip) depth 30

module _ {b : Binding} (tidy : IsTidy b) where
  Owns-run : (s c : ℕ) (pw : PeerInfoWaiter) → Owns b (c ∷ s ∷ []) (run s c pw) (λ _. [])
  unfolding run
  Owns-run s c pw =
      Owns-bind _ _ (λ _. c ∷ s ∷ []) _
        (Keeps-exchange s c pw (is_owned_second c s []) (is_owned_first c _))
        (λ status.
          Owns-bind _ _ (λ _. c ∷ s ∷ []) _
            (Keeps-await_call (stop c) _ (is_owned_first c _) (λ a. refl))
            (λ _.
              Owns-bind _ _ (λ _. c ∷ s ∷ []) _
                (Keeps-await_call (stop s) _ (is_owned_second c s []) (λ a. refl))
                (λ _.
                  Owns-bind _ _ (λ _. s ∷ []) _ (Owns-destroy c)
                    (λ _. Owns-bind _ _ (λ _. []) _ (Owns-destroy s) (λ _. Keeps-pure status)))))

  Owns-give_up : (s : ℕ) → Owns b (s ∷ []) (give_up s) (λ _. [])
  unfolding give_up
  Owns-give_up s = Owns-bind _ _ (λ _. []) _ (Owns-destroy s) (λ _. Keeps-pure 1)

  Owns-with_client :
      (s : ℕ) (pw : PeerInfoWaiter) (c : Option ℕ)
      → Owns b (created (s ∷ []) c) (elim c [ none ↦ give_up s | some c ↦ run s c pw ]) (λ _. [])
  Owns-with_client s pw none = Owns-give_up s
  Owns-with_client s pw (some c) = Owns-run s c pw

  Owns-with_info :
      (s : ℕ) (info : Option PeerInfoWaiter)
      → Owns b
          (s ∷ [])
          (elim info [
            | none ↦ give_up s
            | some pw ↦ create_node (codes "/ip4/127.0.0.1/tcp/0") (codes "client") >>= λ client.
                elim client [ none ↦ give_up s | some c ↦ run s c pw ]
          ])
          (λ _. [])
  unfolding create_node
  Owns-with_info s none = Owns-give_up s
  Owns-with_info s (some pw) =
      Owns-bind _ _ (created (s ∷ [])) _ (Owns-await_create _ _ tidy) (Owns-with_client s pw)

  Owns-with_server : (s : ℕ) → Owns b (s ∷ []) (with_server s) (λ _. [])
  unfolding with_server
  Owns-with_server s =
      Owns-bind _ _ (λ _. s ∷ []) _ (let h = is_owned_first s [] in search (kept_rules) depth 10)
        (λ _.
          Owns-bind _ _ (λ _. s ∷ []) _
            (let h = is_owned_first s [] in search (kept_rules) depth 10)
            (λ started. Owns-if _ _ _ _ (Owns-give_up s) (
              Owns-bind _ _ (λ _. s ∷ []) _ (Keeps-await_peerinfo s _ (is_owned_first s []))
                (Owns-with_info s))))

  pub echo_main-Owns : Owns b [] main (λ _. [])
  unfolding main create_node
  echo_main-Owns =
      Owns-on_some _ _ _ (created []) _ (Owns-await_create _ _ tidy) refl Owns-with_server
