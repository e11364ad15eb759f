-- ===== src/Cbind/Liveness/Waits.antt =====
-- The waits of programs of cbind/examples return, if the binding calls back in time.
use nim_libp2p.Common.{
  ℕ, zero, suc, ◌+◌, ◌≤◌, ◌<◌, ◌≡◌, refl, subst, arith, Bool, true, false, List, Option, none, some,
  if◌then◌else◌, le→leb, inl, inr, ◌⊎◌,
}
use nim_libp2p.Cbind.Binding.{Bytes, ℤ, Call, peer_info, Config, Reply, Answer, Entry, Binding}
use nim_libp2p.Cbind.Program.{
  Globals, returned, exited, World, Program, ◌>>◌, pure, sleep, poll, wait_done, fired, call,
  wait_flag, destroy, with_two, with_three, deliver, on_incoming_stream, on_pubsub_message,
}
use nim_libp2p.Cbind.Waiters.{
  Waiter, PeerInfoWaiter, await_bool, await_call, created_context, checked, await_create, await,
  await_peerinfo, await_connect,
}
use nim_libp2p.Cbind.Liveness.{IsPrompt, IsHeard, is_returned, Returns}
use nim_libp2p.Cbind.Liveness.Rules.{
  Returns-bind, Returns-pure, Returns-if, Returns-on_true, Returns-gets, Returns-on_some,
  Returns-modify, Returns-note, Returns-report, Returns-destroy, Returns-pause, Returns-both,
}

-- A wait returns when the loop ends with its flag set.
Returns-wait_done :
    (b : Binding) (d : ℕ → Globals → Bool)
    → ((w : World) → let (i, v) = poll 1000 0 d b w in d i v.globals ≡ true)
    → Returns b (wait_done d)
unfolding wait_done
Returns-wait_done b d h = record { at = λ w. go (poll 1000 0 d b w) (h w) }
  where
    end :
        (v : World) (c : Bool)
        → c ≡ true
        → is_returned (if c then returned tt v else exited 1 v) ≡ true
    end v true e = refl
    end v false e = absurd (ground arith)

    go :
        (q : ℕ × World)
        → (let (i, v) = q in d i v.globals ≡ true)
        → is_returned (let (i, v) = q in if d i v.globals then returned tt v else exited 1 v) ≡ true
    go (i, v) e = end v (d i v.globals) e

-- The flag of a callback is set when the loop ends.
poll-fired :
    {R : Type 0} (a : Answer R) (t n i : ℕ) (b : Binding) (w : World)
    → a.time ≡ some t
    → t ≤ i + n
    → let (j, v) = poll n i (fired a) b w in fired a j v.globals ≡ true
unfolding poll fired
poll-fired a t zero i b w e h = rw (e, le→leb t i (omega arith))
poll-fired a t (suc n) i b w e h =
    go (fired a i w.globals) refl (poll-fired a t n (i + 1) b (sleep i b w) e (omega arith))
  where
    go :
        (c : Bool)
        → fired a i w.globals ≡ c
        → (let (j, v) = poll n (i + 1) (fired a) b (sleep i b w) in fired a j v.globals ≡ true)
        → (let (j, v) = (if c then (i, w) else poll n (i + 1) (fired a) b (sleep i b w)) in
            fired a j v.globals ≡ true)
    go true f h = f
    go false f h = h

-- A flag that a listener sets in one of the sleeps is set when the loop ends.
module _ (flag : Globals → Bool) (b : Binding) where
  poll-set :
      (n i : ℕ) (w : World)
      → flag w.globals ≡ true
      → flag (poll n i (λ _. flag) b w).1.globals ≡ true
  unfolding poll
  poll-set zero i w h = h
  poll-set (suc n) i w h = rw h h

  poll-heard :
      (n i k : ℕ) (w : World)
      → i ≤ k
      → k < i + n
      → ((g : Globals) → flag (deliver ((b.event) w.log k) g) ≡ true)
      → flag (poll n i (λ _. flag) b w).1.globals ≡ true
  unfolding poll sleep
  poll-heard zero i k w l u h = absurd (omega arith)
  poll-heard (suc n) i k w l u h =
      go (flag w.globals) refl
        (later (λ e. poll-heard n (i + 1) k (sleep i b w) e (omega arith) h) (le_cases i k l))
    where
      le_cases : (i k : ℕ) → i ≤ k → (k ≡ i) ⊎ (i + 1 ≤ k)
      le_cases i k l = ground arith

      later :
          (i + 1 ≤ k → flag (poll n (i + 1) (λ _. flag) b (sleep i b w)).1.globals ≡ true)
          → (k ≡ i) ⊎ (i + 1 ≤ k)
          → flag (poll n (i + 1) (λ _. flag) b (sleep i b w)).1.globals ≡ true
      later next (inl e) =
          poll-set n (i + 1) (sleep i b w)
            (subst (λ j. flag (deliver ((b.event) w.log j) w.globals) ≡ true) e (h w.globals))
      later next (inr e) = next e

      go :
          (c : Bool)
          → flag w.globals ≡ c
          → flag (poll n (i + 1) (λ _. flag) b (sleep i b w)).1.globals ≡ true
          → flag (if c then (i, w) else poll n (i + 1) (λ _. flag) b (sleep i b w)).1.globals ≡ true
      go true f r = f
      go false f r = r

module _ {b : Binding} where
  pub Returns-call : IsPrompt b → (c : Call) → Returns b (call c)
  unfolding call
  Returns-call prompt c = record {
    at = λ w.
        let a = (b.answer) w.log c in
        (Returns-bind (wait_done (fired a)) _
            (Returns-wait_done b (fired a)
              (λ v. let (t, e, h) = prompt w.log c in poll-fired a t 1000 0 b v e h))
            (λ _. Returns-bind _ _ (Returns-note _) (λ _. Returns-pure a))).at
          w;
  }

  -- A wait for a listener whose event is among those of every wait.
  Returns-wait_flag :
      (flag : Globals → Bool)
      → ((log : List Entry)
          → (k : ℕ) × (k < 1000) × ((g : Globals) → flag (deliver ((b.event) log k) g) ≡ true))
      → Returns b (wait_flag flag)
  unfolding wait_flag
  Returns-wait_flag flag h =
      Returns-bind _ _
        (Returns-wait_done b (λ _. flag)
          (λ w.
            let (k, l, s) = h w.log in
            poll-heard flag b 1000 0 k w (omega arith) (omega (arith, l)) s))
        (λ _. Returns-note _)

  pub Returns-wait_stream : IsHeard b → Returns b (wait_flag (λ g. g.have_stream))
  unfolding deliver on_incoming_stream
  Returns-wait_stream heard =
      Returns-wait_flag (λ g. g.have_stream)
        (λ log. let (i, id, l, e) = (heard log).0 in (i, l, λ g. rw e refl))

  pub Returns-wait_message : IsHeard b → Returns b (wait_flag (λ g. g.got))
  unfolding deliver on_pubsub_message
  Returns-wait_message heard =
      Returns-wait_flag (λ g. g.got)
        (λ log. let (i, payload, l, e) = (heard log).1 in (i, l, λ g. rw e refl))

  pub Returns-await_call : IsPrompt b → (c : Call) (label : Bytes) → Returns b (await_call c label)
  unfolding await_call await_bool
  Returns-await_call prompt c label =
      search (Returns-call, Returns-bind, Returns-if, Returns-report, Returns-pure) depth 20

  Returns-checked :
      {W : Type 0} (code : ℤ) (err label : Bytes) (w : W) → Returns b (checked code err label w)
  unfolding checked
  Returns-checked code err label w =
      search (Returns-bind, Returns-if, Returns-report, Returns-pure) depth 20

  pub Returns-await :
      {A : Type 0}
      → IsPrompt b
      → (c : Call) (on : Answer (Reply c) → Waiter A → Waiter A) (z : A) (label : Bytes)
      → Returns b (await c on z label)
  unfolding await
  Returns-await prompt c on z label =
      Returns-bind _ _ (Returns-call prompt c) (λ a. Returns-checked _ _ label _)

  pub Returns-await_peerinfo :
      IsPrompt b → (h : ℕ) (label : Bytes) → Returns b (await_peerinfo h label)
  unfolding await_peerinfo
  Returns-await_peerinfo prompt h label =
      Returns-bind _ _ (Returns-call prompt (peer_info h)) (λ a. Returns-checked _ _ label _)

  pub Returns-await_connect :
      IsPrompt b → (h : ℕ) (to : PeerInfoWaiter) → Returns b (await_connect h to)
  unfolding await_connect
  Returns-await_connect prompt h to = Returns-await_call prompt _ _

  pub Returns-await_create :
      IsPrompt b → (cfg : Config) (label : Bytes) → Returns b (await_create cfg label)
  unfolding await_create created_context
  Returns-await_create prompt cfg label =
      search (Returns-call, Returns-bind, Returns-if, Returns-report, Returns-pure) depth 20

  pub Returns-with_two :
      (g h : Option ℕ) (rest : ℕ → ℕ → Program ℕ)
      → ((g h : ℕ) → Returns b (rest g h))
      → Returns b (with_two g h rest (destroy g >> (destroy h >> pure 1)))
  unfolding with_two
  Returns-with_two none h rest r = search (Returns-bind, Returns-destroy, Returns-pure) depth 10
  Returns-with_two (some g) none rest r =
      search (Returns-bind, Returns-destroy, Returns-pure) depth 10
  Returns-with_two (some g) (some h) rest r = r g h

  pub Returns-with_three :
      (f g h : Option ℕ) (rest : ℕ → ℕ → ℕ → Program ℕ)
      → ((f g h : ℕ) → Returns b (rest f g h))
      → Returns b (with_three f g h rest (destroy f >> (destroy g >> (destroy h >> pure 1))))
  unfolding with_three
  Returns-with_three none g h rest r = search (Returns-bind, Returns-destroy, Returns-pure) depth 10
  Returns-with_three (some f) none h rest r =
      search (Returns-bind, Returns-destroy, Returns-pure) depth 10
  Returns-with_three (some f) (some g) none rest r =
      search (Returns-bind, Returns-destroy, Returns-pure) depth 10
  Returns-with_three (some f) (some g) (some h) rest r = r f g h

pub ruleset returns_rules = (
  Returns-await_call, Returns-await, Returns-await_peerinfo, Returns-await_connect,
  Returns-await_create, Returns-on_true, Returns-on_some, Returns-both, Returns-if, Returns-bind,
  Returns-report, Returns-pure, Returns-gets, Returns-modify, Returns-wait_stream,
  Returns-wait_message, Returns-pause, Returns-note, Returns-destroy, Returns-call,
  Returns-with_two, Returns-with_three,
)
