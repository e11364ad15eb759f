-- ===== src/Cbind/Status/Shown.antt =====
-- What the programs of cbind/examples that end with the status 0 were told: the answer with the
-- data that the program compares.
pub mod Kad
pub mod Metrics
pub mod Relay
pub mod Echo
pub mod ServiceDisco
use nim_libp2p.Common.{
  ℕ, ◌≡◌, refl, arith, Bool, true, false, List, [], ◌∷◌, Option, none, some, ◌&&◌, ◌||◌, not, take,
  ◌==◌, if◌then◌else◌,
}
use nim_libp2p.Cbind.Binding
use nim_libp2p.Cbind.Binding.{
  Bytes, codes, Binding, Call, Reply, Answer, Entry, asked, is_ok, kad_get_value, collect_metrics,
  stream_read_lp, create, Config, pos, start, stop, stream_release, stream_close_with_eof, dial,
  stream_write_lp,
}
use nim_libp2p.Cbind.Program.{Program, pure, report, ◌>>=◌, ◌>>◌, on_some}
use nim_libp2p.Cbind.Waiters.{
  PeerInfoWaiter, Waiter, filled, copied_bytes, equal, await, await_peerinfo, waiter,
}
use nim_libp2p.Cbind.Kad.{value_data}
use nim_libp2p.Cbind.Metrics.{is_metrics}
use nim_libp2p.Cbind.Relay.{message}
use nim_libp2p.Cbind.Status.{IsSteady, Asks, Passes, is_request}
use nim_libp2p.Cbind.Status.Rules.{
  Passes-bind, Passes-bind_kept, Passes-pure_failed, Passes-pure_self, Passes-if,
  Passes-on_some_kept, Passes-on_true_kept, Passes-pure, Passes-pure_kept, Passes-gets,
  Passes-report, Passes-wait_flag, Passes-listened, Passes-bind_true,
}
use nim_libp2p.Cbind.Status.Waiters.{
  shown_rules, tested, Passes-await_tested, Passes-await_call_kept, Passes-await_create_kept,
  Passes-failed,
}
use nim_libp2p.Cbind.Status.Nodes.{is_zero, Passes-pure_status, Passes-three_kept}

-- Whether some answer is one of `hit`.
unfoldable pub shown : ((c : Call) → Answer (Reply c) → Bool) → List Entry → Bool
shown hit [] = false
shown hit (asked c a ∷ log) = hit c a || shown hit log
shown hit (e ∷ log) = shown hit log

-- The bytes of a reply that fit into a buffer; none if there are none.
abbrev pub received : ℕ → Answer (Option Bytes) → Bytes
received cap a = elim a.reply [ none ↦ [] | some r ↦ elim r [ none ↦ [] | some d ↦ take cap d ] ]

-- The value that was stored, the metrics, the message over the relay and the second echo.
abbrev pub is_value : (c : Call) → Answer (Reply c) → Bool
is_value (kad_get_value _ _ _) a = is_ok a.code && equal (received 512 a) value_data
is_value c a = false

abbrev pub is_json : (c : Call) → Answer (Reply c) → Bool
is_json collect_metrics a = is_ok a.code && is_metrics (received 65535 a)
is_json c a = false

abbrev pub is_message : (c : Call) → Answer (Reply c) → Bool
is_message (stream_read_lp _ _ _) a = is_ok a.code && equal (received 4096 a) message
is_message c a = false

abbrev pub is_echo : (c : Call) → Answer (Reply c) → Bool
is_echo (stream_read_lp _ _ _) a = is_ok a.code && equal (received 4096 a) (codes "hello again")
is_echo c a = false

module _ (hit : (c : Call) → Answer (Reply c) → Bool) where
  pub shown-IsSteady : IsSteady (shown hit)
  unfolding shown
  shown-IsSteady (asked c a) log h = absurd (ground arith)
  shown-IsSteady (Binding.destroyed h) log e = refl
  shown-IsSteady (Binding.listened h) log e = refl
  shown-IsSteady Binding.waited log e = refl
  shown-IsSteady (Binding.refused c) log e = refl
  shown-IsSteady Binding.wait_initialised log e = refl
  shown-IsSteady Binding.wait_destroyed log e = refl
  shown-IsSteady (Binding.reported l r) log e = refl

  pub Asks-kept : (c : Call) (p : Bool) → Asks (shown hit) c p (λ _. p)
  unfolding shown
  Asks-kept c p a log before f = ground arith

  pub Asks-created : (cfg : Config) (p : Bool) → Asks (shown hit) (create cfg) p (λ _. p)
  Asks-created cfg p = Asks-kept (create cfg) p

  pub Asks-hit : (c : Call) (p : Bool) → Asks (shown hit) c p (hit c)
  unfolding shown
  Asks-hit c p a log before f = ground arith

module _ (hit : (c : Call) → Answer (Reply c) → Bool) {b : Binding} where
  -- A program that fails unless the data pass the test, and that goes on if they do.
  pub Passes-tested :
      {A B : Type 0} (c : Call) (on : Answer (Reply c) → Waiter A → Waiter A) (z : A)
      (label : Bytes) (test : A → Bool) (x : B) (rest : A → Program B) (f : B → Bool)
      → f x ≡ false
      → Asks
          (shown hit)
          c
          false
          (λ a. is_ok (on a (waiter z)).err_code && test (on a (waiter z)).value)
      → ((v : A) → Passes (shown hit) b (test v) (rest v) f)
      → Passes (shown hit) b false (on_some (await c on z label) x rest) f
  unfolding on_some
  Passes-tested {A = A} c on z label test x rest f e asks r =
      Passes-bind _ _ (tested test) _
        (Passes-await_tested (shown-IsSteady hit) c on z label false test asks) go
    where
      go :
          (o : Option A)
          → Passes (shown hit) b (tested test o) (elim o [ none ↦ pure x | some v ↦ rest v ]) f
      go none = Passes-pure_failed x f false e
      go (some v) = r v

  -- The test is made before the rest, or before the report of its failure.
  pub Passes-then :
      (t : Bool) (label err : Bytes) (m : Program ℕ)
      → Passes (shown hit) b true m is_zero
      → Passes (shown hit) b t (if t then m else (report label err >> pure 1)) is_zero
  Passes-then true label err m r = r
  Passes-then false label err m r =
      Passes-failed (shown-IsSteady hit) false label err 1 is_zero refl

  pub Passes-else :
      (t : Bool) (label err : Bytes) (m : Program ℕ)
      → Passes (shown hit) b true m is_zero
      → Passes (shown hit) b t (if not t then (report label err >> pure 1) else m) is_zero
  Passes-else true label err m r = r
  Passes-else false label err m r =
      Passes-failed (shown-IsSteady hit) false label err 1 is_zero refl

  pub Passes-pure_flag : (t : Bool) → Passes (shown hit) b t (pure (if t then 0 else 1)) is_zero
  Passes-pure_flag true = Passes-pure 0 is_zero
  Passes-pure_flag false = Passes-pure_failed 1 is_zero false refl
