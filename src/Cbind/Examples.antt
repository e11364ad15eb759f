-- ===== src/Cbind/Examples.antt =====
-- The programs of cbind/examples that are built on common.h, and what holds of all of them.
use nim_libp2p.Common.{ℕ, Bool, arith, ◌≡◌, refl, true, false, List, [], ◌∷◌, All}
use nim_libp2p.Cbind.Binding.{Binding, Call, Answer, Reply}
use nim_libp2p.Cbind.Program.{Program, initial}
use nim_libp2p.Cbind.Echo
use nim_libp2p.Cbind.Gossipsub
use nim_libp2p.Cbind.Kad
use nim_libp2p.Cbind.Metrics
use nim_libp2p.Cbind.Peerstore
use nim_libp2p.Cbind.Relay
use nim_libp2p.Cbind.ServiceDisco
use nim_libp2p.Cbind.MobileCheck
use nim_libp2p.Cbind.MobileCheck.{Host}
use nim_libp2p.Cbind.Contexts.{Owning, owned_after, Owns, IsTidy}
use nim_libp2p.Cbind.Contexts.Echo.{echo_main-Owns}
use nim_libp2p.Cbind.Contexts.Gossipsub.{gossipsub_main-Owns}
use nim_libp2p.Cbind.Contexts.Kad.{kad_main-Owns}
use nim_libp2p.Cbind.Contexts.Metrics.{metrics_main-Owns}
use nim_libp2p.Cbind.Contexts.Peerstore.{peerstore_main-Owns}
use nim_libp2p.Cbind.Contexts.Relay.{relay_main-Owns}
use nim_libp2p.Cbind.Contexts.ServiceDisco.{disco_main-Owns}
use nim_libp2p.Cbind.Contexts.MobileCheck.{mobile_check_main-Owns}
use nim_libp2p.Cbind.Liveness.{IsPrompt, IsHeard, is_returned}
use nim_libp2p.Cbind.Liveness.Programs.{
  echo_main-Returns, gossipsub_main-Returns, kad_main-Returns, metrics_main-Returns,
  peerstore_main-Returns, relay_main-Returns, disco_main-Returns,
}
use nim_libp2p.Cbind.Status.{Passing, Passes, all_passed}
use nim_libp2p.Cbind.Status.Shown.{shown}
use nim_libp2p.Cbind.Status.MobileCheck.{is_start, is_stop}
use nim_libp2p.Cbind.Status.MobileCheck.Main.{mobile_check_main-start, mobile_check_main-stop}
use nim_libp2p.Cbind.Status.Nodes.{is_zero}
use nim_libp2p.Cbind.Status.Echo.{echo_main-Passes}
use nim_libp2p.Cbind.Status.Gossipsub.{gossipsub_main-Passes}
use nim_libp2p.Cbind.Status.Kad.{kad_main-Passes}
use nim_libp2p.Cbind.Status.Metrics.{metrics_main-Passes}
use nim_libp2p.Cbind.Status.Peerstore.{peerstore_main-Passes}
use nim_libp2p.Cbind.Status.Relay.{relay_main-Passes}
use nim_libp2p.Cbind.Status.ServiceDisco.{disco_main-Passes}

-- The examples on common.h.
unfoldable pub examples : List (Program ℕ)
examples =
    Echo.main ∷ Gossipsub.main ∷ Kad.main ∷ Metrics.main ∷ Peerstore.main ∷ Relay.main
    ∷ ServiceDisco.main ∷ []

owning : {b : Binding} {m : Program ℕ} → Owns b [] m (λ _. []) → Owning (λ _. []) (m b initial)
unfolding owned_after
owning o = o.at initial refl

passing :
    {b : Binding} {m : Program ℕ}
    → Passes all_passed b true m is_zero
    → Passing all_passed is_zero (m b initial)
unfolding all_passed
passing o = o.at initial (λ _. refl)

showing :
    {b : Binding} (hit : (c : Call) → Answer (Reply c) → Bool) {m : Program ℕ}
    → Passes (shown hit) b false m is_zero
    → Passing (shown hit) is_zero (m b initial)
showing hit o = o.at initial (λ e. absurd (ground arith))

-- For a binding that gives no context together with an error: an example that returns has destroyed
-- every context that it was given, just once, and no example uses a context that it does not own, also
-- when it exits.
pub examples-Owning : (b : Binding) → IsTidy b → All (λ m. Owning (λ _. []) (m b initial)) examples
unfolding examples
examples-Owning b tidy = (
  owning (echo_main-Owns tidy),
  (
    owning (gossipsub_main-Owns tidy),
    (
      owning (kad_main-Owns tidy),
      (
        owning (metrics_main-Owns tidy),
        (
          owning (peerstore_main-Owns tidy),
          (owning (relay_main-Owns tidy), (owning (disco_main-Owns tidy), tt)),
        ),
      ),
    ),
  ),
)

-- Whatever the binding answers, an example that returns the status 0 was given every context that it
-- asked for, and an answer without an error to every request, but those by which it stops nodes and
-- ends streams, and the premature start of discovery, which was refused.
pub examples-Passing : (b : Binding) → All (λ m. Passing all_passed is_zero (m b initial)) examples
unfolding examples
examples-Passing b = (
  passing echo_main-Passes,
  (
    passing gossipsub_main-Passes,
    (
      passing kad_main-Passes,
      (
        passing metrics_main-Passes,
        (
          passing peerstore_main-Passes,
          (passing relay_main-Passes, (passing disco_main-Passes, tt)),
        ),
      ),
    ),
  ),
)

-- The same of the contexts of libp2p_mobile_check.c, for a binding that gives none with an error,
-- whatever the host answers.
pub mobile_check-Owning :
    (host : Host) (b : Binding) → IsTidy b → Owning (λ _. []) (MobileCheck.main host b initial)
mobile_check-Owning host b tidy = owning (mobile_check_main-Owns host tidy)

-- An example returns, and is not ended by a wait, if the binding answers every request within the
-- 1000 sleeps of a wait, and if in every wait a stream comes in and a message arrives.
pub examples-is_returned :
    (b : Binding) → IsPrompt b → IsHeard b → All (λ m. is_returned (m b initial) ≡ true) examples
unfolding examples
examples-is_returned b prompt heard = (
  (echo_main-Returns prompt heard).at initial,
  (
    (gossipsub_main-Returns prompt heard).at initial,
    (
      (kad_main-Returns prompt).at initial,
      (
        (metrics_main-Returns prompt).at initial,
        (
          (peerstore_main-Returns prompt).at initial,
          (
            (relay_main-Returns prompt heard).at initial,
            ((disco_main-Returns prompt).at initial, tt),
          ),
        ),
      ),
    ),
  ),
)

-- Whatever the binding and the host answer, libp2p_mobile_check.c ends with the status 0 only if its
-- start and its stop of the node were answered without an error and with `true`.
pub mobile_check-shown :
    (host : Host) (b : Binding)
    → Passing (shown is_start) is_zero (MobileCheck.main host b initial)
      × Passing (shown is_stop) is_zero (MobileCheck.main host b initial)
mobile_check-shown host b =
    (showing is_start (mobile_check_main-start host), showing is_stop (mobile_check_main-stop host))
