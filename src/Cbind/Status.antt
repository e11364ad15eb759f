-- ===== src/Cbind/Status.antt =====
-- Whether the requests of a program of cbind/examples went as it wants, read off what it did.
pub mod Rules
pub mod Waiters
pub mod Shown
pub mod MobileCheck
pub mod Nodes
pub mod Kad
pub mod Metrics
pub mod Peerstore
pub mod Gossipsub
pub mod Relay
pub mod Echo
pub mod ServiceDisco
use nim_libp2p.Common.{ℕ, ◌≡◌, refl, arith, Bool, true, false, List, [], ◌∷◌, is_some, not, ◌&&◌}
use nim_libp2p.Cbind.Binding
use nim_libp2p.Cbind.Binding.{
  Call, Config, create, stop, Reply, Answer, Entry, asked, Binding, is_ok,
}
use nim_libp2p.Cbind.Program.{Outcome, returned, exited, World, Program}

-- A creation gives a context, and a request answers without an error. The examples do not look at
-- the answers to `stop` and to the end of a stream; the start of discovery must be refused.
abbrev pub passed : (c : Call) → Answer (Reply c) → Bool
passed (create _) a = is_ok a.code && is_some a.reply
passed (stop _) a = true
passed (Binding.stream_release _ _) a = true
passed (Binding.stream_close_with_eof _ _) a = true
passed (Binding.service_disco_start _) a = not (is_ok a.code)
passed c a = is_ok a.code

unfoldable pub all_passed : List Entry → Bool
all_passed [] = true
all_passed (asked c a ∷ log) = passed c a && all_passed log
all_passed (e ∷ log) = all_passed log

-- What is read off the requests only: the other entries change nothing.
abbrev pub is_request : Entry → Bool
is_request (asked c a) = true
is_request e = false

abbrev pub IsSteady : (List Entry → Bool) → Type 0
IsSteady good = (e : Entry) (log : List Entry) → is_request e ≡ false → good (e ∷ log) ≡ good log

-- After the answer `a` to `c`, `good` holds if `f a` does, and if it held before when `p`.
abbrev pub Asks : (List Entry → Bool) → (c : Call) → Bool → (Answer (Reply c) → Bool) → Type 0
Asks good c p f =
    (a : Answer (Reply c)) (log : List Entry)
    → (p ≡ true → good log ≡ true)
    → f a ≡ true
    → good (asked c a ∷ log) ≡ true

abbrev pub Passing : {A : Type 0} → (List Entry → Bool) → (A → Bool) → Outcome A → Type 0
Passing good f (returned a w) = f a ≡ true → good w.log ≡ true
Passing good f (exited c w) = Unit

-- From a state in which `good` holds, if `p`, a result of `m` with `f` says that it holds.
pub record Passes {A : Type 0} (good : List Entry → Bool) (b : Binding) (p : Bool) (m : Program A)
    (f : A → Bool) : Type 0 where
  pub at : (w : World) → (p ≡ true → good w.log ≡ true) → Passing good f (m b w)

pub all_passed-IsSteady : IsSteady all_passed
unfolding all_passed
all_passed-IsSteady (asked c a) log h = absurd (ground arith)
all_passed-IsSteady (Binding.destroyed h) log e = refl
all_passed-IsSteady (Binding.listened h) log e = refl
all_passed-IsSteady Binding.waited log e = refl
all_passed-IsSteady (Binding.refused c) log e = refl
all_passed-IsSteady Binding.wait_initialised log e = refl
all_passed-IsSteady Binding.wait_destroyed log e = refl
all_passed-IsSteady (Binding.reported l r) log e = refl

pub Asks-passed : (c : Call) → Asks all_passed c true (passed c)
unfolding all_passed
Asks-passed c a log before f = rw f (before refl)

pub Asks-checked :
    (c : Call)
    → ((a : Answer (Reply c)) → passed c a ≡ is_ok a.code)
    → Asks all_passed c true (λ a. is_ok a.code)
unfolding all_passed
Asks-checked c h a log before f = rw (h a, f) (before refl)

-- A request that the examples do not look at.
pub Asks-ignored :
    (c : Call) (p : Bool)
    → ((a : Answer (Reply c)) → passed c a ≡ true)
    → Asks all_passed c p (λ _. p)
unfolding all_passed
Asks-ignored c p h a log before f = rw (h a) (before f)

pub Asks-create :
    (cfg : Config) (p : Bool)
    → Asks all_passed (create cfg) p (λ a. p && (is_ok a.code && is_some a.reply))
unfolding all_passed
Asks-create cfg p a log before f = ground arith
