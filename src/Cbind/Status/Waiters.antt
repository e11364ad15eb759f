-- ===== src/Cbind/Status/Waiters.antt =====
-- Passed requests of the blocking calls of cbind/examples/common.h.
use nim_libp2p.Common.{
  List, ℕ, ◌≡◌, refl, Bool, true, false, Option, none, some, if◌then◌else◌, is_some, not, ◌&&◌,
}
use nim_libp2p.Cbind.Binding.{
  Bytes, ℤ, is_ok, Call, create, connect, peer_info, Config, Reply, Answer, Entry, asked, Binding,
}
use nim_libp2p.Cbind.Program.{◌>>◌, pure, note, wait_done, fired, call, report}
use nim_libp2p.Cbind.Waiters.{
  Waiter, PeerInfoWaiter, await_bool, await_call, created_context, checked, await_create, await,
  await_peerinfo, await_connect, on_peerinfo, on_created, on_bool, bool_waiter, create_waiter,
  waiter,
}
use nim_libp2p.Cbind.Status.{
  all_passed-IsSteady, Asks-checked, Asks-ignored, Asks-create, IsSteady, Asks, Passes,
}
use nim_libp2p.Cbind.Status.Rules.{
  Passes-bind, Passes-bind_kept, Passes-pure, Passes-pure_self, Passes-pure_failed, Passes-if,
  Passes-on_true, Passes-on_some, Passes-both, Passes-gets, Passes-modify, Passes-report,
  Passes-listened, Passes-destroy, Passes-pause, Passes-wait_done, Passes-wait_flag,
  Passes-pure_kept, Passes-on_true_kept, Passes-on_some_kept, Passes-both_kept,
}

-- A result that is there, and that passes a test.
abbrev pub tested : {A : Type 0} → (A → Bool) → Option A → Bool
tested test none = false
tested test (some a) = test a

module _ {good : List Entry → Bool} {b : Binding} where
  pub Passes-call :
      (c : Call) (p : Bool) (f : Answer (Reply c) → Bool)
      → Asks good c p f
      → Passes good b p (call c) f
  unfolding call note
  Passes-call c p f asks = record {
    at = λ w e.
        let a = (b.answer) w.log c in
        (Passes-bind_kept (wait_done (fired a)) _ _ (Passes-wait_done _) (λ _.
            Passes-bind (note (asked c a)) _ (λ _. f a) _ (noted a) (λ _. Passes-pure_self a f))).at
          w e;
  }
    where
      noted : (a : Answer (Reply c)) → Passes good b p (note (asked c a)) (λ _. f a)
      noted a = record { at = λ w e i. asks a w.log e i }

module _ {good : List Entry → Bool} {b : Binding} (steady : IsSteady good) where
  -- After a report the request has failed.
  pub Passes-failed :
      {A : Type 0} (p : Bool) (label err : Bytes) (x : A) (f : A → Bool)
      → f x ≡ false
      → Passes good b p (report label err >> pure x) f
  Passes-failed p label err x f h =
      Passes-bind_kept _ _ _ (Passes-report steady label err) (λ _. Passes-pure_failed x f p h)

  Passes-reported :
      {A : Type 0} (p : Bool) (label err : Bytes) (x : A)
      → Passes good b p (report label err >> pure x) (λ _. p)
  Passes-reported p label err x =
      Passes-bind_kept _ _ _ (Passes-report steady label err) (λ _. Passes-pure_kept x)

  Passes-checked :
      {W : Type 0} (code : ℤ) (err label : Bytes) (w : W)
      → Passes good b (is_ok code) (checked code err label w) is_some
  unfolding checked
  Passes-checked {W = W} code err label w = go (is_ok code)
    where
      go :
          (c : Bool)
          → Passes good b c
              (if not c then (report label err >> pure none) else pure (some w))
              is_some
      go true = Passes-pure (some w) _
      go false = Passes-failed false label err none _ refl

  Passes-checked_tested :
      {W : Type 0} (test : W → Bool) (code : ℤ) (err label : Bytes) (w : W)
      → Passes good b (is_ok code && test w) (checked code err label w) (tested test)
  unfolding checked
  Passes-checked_tested {W = W} test code err label w = go (is_ok code)
    where
      go :
          (c : Bool)
          → Passes good b
              (c && test w)
              (if not c then (report label err >> pure none) else pure (some w))
              (tested test)
      go true = Passes-pure_self (some w) (tested test)
      go false = Passes-failed false label err none _ refl

  pub Passes-await :
      {A : Type 0} (c : Call) (on : Answer (Reply c) → Waiter A → Waiter A) (z : A) (label : Bytes)
      → Asks good c true (λ a. is_ok (on a (waiter z)).err_code)
      → Passes good b true (await c on z label) is_some
  unfolding await
  Passes-await c on z label h =
      Passes-bind _ _ (λ a. is_ok (on a (waiter z)).err_code) _ (Passes-call c true _ h)
        (λ a. Passes-checked _ _ label _)

  -- A request whose answer decides, by a test of the waiter, whether `good` holds.
  pub Passes-await_tested :
      {A : Type 0} (c : Call) (on : Answer (Reply c) → Waiter A → Waiter A) (z : A) (label : Bytes)
      (p : Bool) (test : A → Bool)
      → Asks good c p (λ a. is_ok (on a (waiter z)).err_code && test (on a (waiter z)).value)
      → Passes good b p (await c on z label) (tested test)
  unfolding await
  Passes-await_tested c on z label p test h =
      Passes-bind _ _ _ _ (Passes-call c p _ h) (λ a. Passes-checked_tested test _ _ label _)

  Passes-checked_kept :
      {W : Type 0} (p : Bool) (code : ℤ) (err label : Bytes) (w : W)
      → Passes good b p (checked code err label w) (λ _. p)
  unfolding checked
  Passes-checked_kept p code err label w =
      Passes-if _ _ _ _ _ (Passes-reported p label err none) (Passes-pure_kept (some w))

  pub Passes-await_kept :
      {A : Type 0} (c : Call) (on : Answer (Reply c) → Waiter A → Waiter A) (z : A) (label : Bytes)
      (p : Bool)
      → Asks good c p (λ _. p)
      → Passes good b p (await c on z label) (λ _. p)
  unfolding await
  Passes-await_kept c on z label p h =
      Passes-bind_kept _ _ _ (Passes-call c p _ h) (λ a. Passes-checked_kept p _ _ label _)

  pub Passes-await_peerinfo :
      (h : ℕ) (label : Bytes)
      → Asks good (peer_info h) true (λ a. is_ok a.code)
      → Passes good b true (await_peerinfo h label) is_some
  unfolding await_peerinfo on_peerinfo
  Passes-await_peerinfo h label asks =
      Passes-bind _ _ (λ a. is_ok a.code) _ (Passes-call (peer_info h) true _ asks)
        (λ a. Passes-checked _ _ label _)

  pub Passes-await_peerinfo_kept :
      (h : ℕ) (label : Bytes) (p : Bool)
      → Asks good (peer_info h) p (λ _. p)
      → Passes good b p (await_peerinfo h label) (λ _. p)
  unfolding await_peerinfo
  Passes-await_peerinfo_kept h label p asks =
      Passes-bind_kept _ _ _ (Passes-call (peer_info h) p _ asks)
        (λ a. Passes-checked_kept p _ _ label _)

  pub Passes-await_call :
      (c : Call) (label : Bytes)
      → Asks good c true (λ a. is_ok a.code)
      → Passes good b true (await_call c label) (λ ok. ok)
  unfolding await_call await_bool on_bool
  Passes-await_call c label h =
      Passes-bind _ _ (λ a. is_ok a.code) _ (Passes-call c true _ h) (λ a. go a (is_ok a.code))
    where
      go :
          (a : Answer (Reply c)) (o : Bool)
          → Passes good b o
              (if not o
                then (report label (on_bool a bool_waiter).err >> pure false)
                else pure true)
              (λ ok. ok)
      go a true = Passes-pure true _
      go a false = Passes-failed false label _ false _ refl

  pub Passes-await_call_kept :
      (c : Call) (label : Bytes) (p : Bool)
      → Asks good c p (λ _. p)
      → Passes good b p (await_call c label) (λ _. p)
  unfolding await_call await_bool
  Passes-await_call_kept c label p h =
      Passes-bind_kept _ _ _ (Passes-call c p _ h)
        (λ a. Passes-if _ _ _ _ _ (Passes-reported p label _ false) (Passes-pure_kept true))

  pub Passes-await_connect :
      (h : ℕ) (to : PeerInfoWaiter)
      → Asks good (connect h to.peer_id to.addrs) true (λ a. is_ok a.code)
      → Passes good b true (await_connect h to) (λ ok. ok)
  unfolding await_connect
  Passes-await_connect h to asks = Passes-await_call _ _ asks

  pub Passes-await_connect_kept :
      (h : ℕ) (to : PeerInfoWaiter) (p : Bool)
      → Asks good (connect h to.peer_id to.addrs) p (λ _. p)
      → Passes good b p (await_connect h to) (λ _. p)
  unfolding await_connect
  Passes-await_connect_kept h to p asks = Passes-await_call_kept _ _ p asks

  pub Passes-await_create :
      (cfg : Config) (label : Bytes) (p : Bool)
      → Asks good (create cfg) p (λ a. p && (is_ok a.code && is_some a.reply))
      → Passes good b p (await_create cfg label) (λ o. p && is_some o)
  unfolding await_create created_context on_created
  Passes-await_create cfg label p asks =
      Passes-bind _ _ (λ a. p && (is_ok a.code && is_some a.reply)) _
        (Passes-call (create cfg) p _ asks) (λ a. go a p (is_ok a.code) a.reply)
    where
      go :
          (a : Answer ℕ) (p c : Bool) (r : Option ℕ)
          → Passes good b
              (p && (c && is_some r))
              (if c && is_some r
                then pure r
                else (report label (on_created a create_waiter).err >> pure none))
              (λ o. p && is_some o)
      go a true true none = Passes-failed false label _ none _ refl
      go a true true (some h) = Passes-pure (some h) _
      go a true false r = Passes-failed false label _ none _ refl
      go a false c r =
          Passes-if _ _ _ _ _ (Passes-pure_failed r _ false refl)
            (Passes-failed false label _ none _ refl)

  pub Passes-await_create_kept :
      (cfg : Config) (label : Bytes) (p : Bool)
      → Asks good (create cfg) p (λ _. p)
      → Passes good b p (await_create cfg label) (λ _. p)
  unfolding await_create created_context
  Passes-await_create_kept cfg label p asks =
      Passes-bind_kept _ _ _ (Passes-call (create cfg) p _ asks)
        (λ a. Passes-if _ _ _ _ _ (Passes-pure_kept _) (Passes-reported p label _ none))

pub ruleset passed_rules = (
  all_passed-IsSteady, Asks-checked, Asks-ignored, Asks-create, Passes-await_call, Passes-await,
  Passes-await_peerinfo, Passes-await_connect, Passes-await_create, Passes-await_call_kept,
  Passes-on_true, Passes-on_some, Passes-both, Passes-if, Passes-bind_kept, Passes-report,
  Passes-pure, Passes-pure_self, Passes-gets, Passes-modify, Passes-wait_flag, Passes-pause,
  Passes-listened, Passes-destroy,
)

-- For what one answer decides: the rest of a program keeps it.
pub ruleset shown_rules = (
  Passes-await_call_kept, Passes-await_kept, Passes-await_peerinfo_kept, Passes-await_connect_kept,
  Passes-await_create_kept, Passes-on_true_kept, Passes-on_some_kept, Passes-both_kept, Passes-if,
  Passes-bind_kept, Passes-report, Passes-pure, Passes-pure_failed, Passes-pure_self, Passes-gets,
  Passes-modify, Passes-wait_flag, Passes-pause, Passes-listened, Passes-destroy,
)
