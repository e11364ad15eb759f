-- ===== src/Cbind/Contexts/Waiters.antt =====
-- Ownership of contexts by the blocking calls of cbind/examples/common.h.
use nim_libp2p.Common.{
  ℕ, ◌≡◌, refl, Bool, true, false, List, ◌∷◌, Option, none, some, if◌then◌else◌, ◌&&◌, is_some,
  arith,
}
use nim_libp2p.Common.Sets.{contains}
use nim_libp2p.Cbind.Binding.{
  Bytes, ℤ, is_ok, Call, create, peer_info, Config, Reply, Answer, Binding,
}
use nim_libp2p.Cbind.Program.{◌>>◌, pure, report}
use nim_libp2p.Cbind.Waiters.{
  Waiter, CreateWaiter, PeerInfoWaiter, await_bool, await_call, created_context, checked,
  await_create, await, await_peerinfo, await_connect, on_created, create_waiter,
}
use nim_libp2p.Cbind.Contexts.{is_owned, context, gained, IsTidy, Owns, Keeps}
use nim_libp2p.Cbind.Contexts.Rules.{
  Owns-bind, Owns-asked, Owns-pure, Owns-if, Keeps-pure, Keeps-if, Keeps-bind, Keeps-call,
  Keeps-report, Keeps-on_true, Keeps-on_some, Keeps-both, Keeps-gets, Keeps-modify, Keeps-wait_flag,
  Keeps-pause, Keeps-listened,
}

-- What is owned after a creation.
abbrev pub created : List ℕ → Option ℕ → List ℕ
created L none = L
created L (some h) = h ∷ L

module _ {b : Binding} {L : List ℕ} where
  pub Keeps-await_call :
      (c : Call) (label : Bytes)
      → is_owned (context c) L ≡ true
      → ((a : Answer (Reply c)) → gained c a L ≡ L)
      → Keeps b L (await_call c label)
  unfolding await_call await_bool
  Keeps-await_call c label h quiet = Keeps-bind _ _ (Keeps-call c h quiet) (λ a.
      Keeps-if _ _ _ (Keeps-bind _ _ (Keeps-report label _) (λ _. Keeps-pure false))
        (Keeps-pure true))

  pub Keeps-checked :
      {W : Type 0} (code : ℤ) (err label : Bytes) (w : W) → Keeps b L (checked code err label w)
  unfolding checked
  Keeps-checked code err label w =
      Keeps-if _ _ _ (Keeps-bind _ _ (Keeps-report label _) (λ _. Keeps-pure none))
        (Keeps-pure (some w))

  pub Keeps-await :
      {A : Type 0} (c : Call) (on : Answer (Reply c) → Waiter A → Waiter A) (z : A) (label : Bytes)
      → is_owned (context c) L ≡ true
      → ((a : Answer (Reply c)) → gained c a L ≡ L)
      → Keeps b L (await c on z label)
  unfolding await
  Keeps-await c on z label h quiet =
      Keeps-bind _ _ (Keeps-call c h quiet) (λ a. Keeps-checked _ _ label _)

  pub Keeps-await_peerinfo :
      (h : ℕ) (label : Bytes) → is_owned (some h) L ≡ true → Keeps b L (await_peerinfo h label)
  unfolding await_peerinfo
  Keeps-await_peerinfo h label o =
      Keeps-bind _ _ (Keeps-call (peer_info h) o (λ a. refl)) (λ a. Keeps-checked _ _ label _)

  pub Keeps-await_connect :
      (h : ℕ) (to : PeerInfoWaiter) → is_owned (some h) L ≡ true → Keeps b L (await_connect h to)
  unfolding await_connect
  Keeps-await_connect h to o = Keeps-await_call _ _ o (λ a. refl)

  pub Owns-await_create :
      (cfg : Config) (label : Bytes) → IsTidy b → Owns b L (await_create cfg label) (created L)
  unfolding await_create created_context on_created
  Owns-await_create cfg label tidy = Owns-asked (create cfg) _ _ refl (λ log.
      let a = (b.answer) log (create cfg) in go a (is_ok a.code) refl a.reply (tidy log cfg))
    where
      failed : (w : CreateWaiter) → Owns b L (report label w.err >> pure none) (created L)
      failed w = Owns-bind _ _ (λ _. L) _ (Keeps-report label _) (λ _. Owns-pure none _ refl)

      go :
          (a : Answer ℕ) (c : Bool)
          → is_ok a.code ≡ c
          → (r : Option ℕ) → (is_ok a.code ≡ false → r ≡ none)
          → Owns b
              (elim r [ none ↦ L | some h ↦ h ∷ L ])
              (if c && is_some r
                then pure r
                else (report label (on_created a create_waiter).err >> pure none))
              (created L)
      go a true e none tidy = failed (on_created a create_waiter)
      go a true e (some h) tidy = Owns-pure (some h) _ refl
      go a false e none tidy = failed (on_created a create_waiter)
      go a false e (some h) tidy = absurd (ground (arith, tidy e))

-- Of two contexts, the second one that was created.
pub is_owned_first : (h : ℕ) (L : List ℕ) → is_owned (some h) (h ∷ L) ≡ true
unfolding contains
is_owned_first h L = ground arith

pub is_owned_second : (g h : ℕ) (L : List ℕ) → is_owned (some h) (g ∷ h ∷ L) ≡ true
unfolding contains
is_owned_second g h L = ground arith

pub is_owned_third : (f g h : ℕ) (L : List ℕ) → is_owned (some h) (f ∷ g ∷ h ∷ L) ≡ true
unfolding contains
is_owned_third f g h L = ground arith

pub ruleset kept_rules = (
  Keeps-await_call, Keeps-await, Keeps-await_peerinfo, Keeps-await_connect, Keeps-on_true,
  Keeps-on_some, Keeps-both, Keeps-if, Keeps-bind, Keeps-report, Keeps-pure, Keeps-gets,
  Keeps-modify, Keeps-wait_flag, Keeps-pause, Keeps-listened, Keeps-call,
)
