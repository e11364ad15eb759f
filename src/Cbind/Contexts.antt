-- ===== src/Cbind/Contexts.antt =====
-- The contexts that a program of cbind/examples owns, read off what it did: a context is owned
-- from the callback that gives it to its destruction, and only an owned one may be used.
pub mod Rules
pub mod Waiters
pub mod Nodes
pub mod Peerstore
pub mod MobileCheck
pub mod Echo
pub mod Relay
pub mod Gossipsub
pub mod ServiceDisco
pub mod Kad
pub mod Metrics
use nim_libp2p.Common.{
  ℕ, ◌≡◌, refl, Bool, true, false, List, [], ◌∷◌, Option, none, some, is_some, if◌then◌else◌,
  ℕ_discrete,
}
use nim_libp2p.Common.Sets.{contains}
use mathlib.Core.Logic.{ite}
use nim_libp2p.Cbind.Binding
use nim_libp2p.Cbind.Binding.{
  Call, create, start, stop, Reply, Answer, Entry, asked, destroyed, listened, refused, Binding,
  is_ok,
}
use nim_libp2p.Cbind.Program.{Outcome, returned, exited, World, Program}

abbrev pub remove : ℕ → List ℕ → List ℕ
remove h [] = []
remove h (x ∷ xs) = ite (ℕ_discrete h x) xs (x ∷ remove h xs)

abbrev pub context : Call → Option ℕ
context (create _) = none
context Binding.collect_metrics = none
context (Binding.create_cid _ _ _) = none
context (start h) = some h
context (stop h) = some h
context (Binding.peer_info h) = some h
context (Binding.mount_protocol h _) = some h
context (Binding.connect h _ _) = some h
context (Binding.dial h _ _ _) = some h
context (Binding.stream_read_lp h _ _) = some h
context (Binding.stream_write_lp h _ _) = some h
context (Binding.stream_close_with_eof h _) = some h
context (Binding.stream_release h _) = some h
context (Binding.peerstore_add_peer h _ _ _) = some h
context (Binding.peerstore_get_peers h) = some h
context (Binding.peerstore_get_peer_info h _) = some h
context (Binding.peerstore_delete_peer h _) = some h
context (Binding.kad_put_value h _ _) = some h
context (Binding.kad_get_value h _ _) = some h
context (Binding.kad_start_providing h _) = some h
context (Binding.kad_get_providers h _) = some h
context (Binding.circuit_relay_reserve h _ _) = some h
context (Binding.dial_circuit_relay h _ _ _) = some h
context (Binding.service_disco_start h) = some h
context (Binding.service_disco_start_advertising h _ _) = some h
context (Binding.service_disco_lookup h _) = some h
context (Binding.gossipsub_subscribe h _) = some h
context (Binding.gossipsub_publish h _ _) = some h

-- Whether a context is owned; a call of the library as a whole needs none.
abbrev pub is_owned : Option ℕ → List ℕ → Bool
is_owned none owned = true
is_owned (some h) owned = contains ℕ_discrete h owned

-- A creation gives a context that is not NULL to the program, also with an error.
abbrev pub gained : (c : Call) → Answer (Reply c) → List ℕ → List ℕ
gained (create _) a owned = elim a.reply [ none ↦ owned | some h ↦ h ∷ owned ]
gained c a owned = owned

-- A creation that fails gives no context.
abbrev pub IsTidy : Binding → Type 0
IsTidy b =
    (log : List Entry) (cfg : _)
    → is_ok ((b.answer) log (create cfg)).code ≡ false
    → ((b.answer) log (create cfg)).reply ≡ none

-- The owned contexts after an entry, or `none` for a use of one that is not owned.
unfoldable pub after : Entry → List ℕ → Option (List ℕ)
after (asked c a) owned = if is_owned (context c) owned then some (gained c a owned) else none
after (destroyed none) owned = some owned
after (destroyed (some h)) owned = if is_owned (some h) owned then some (remove h owned) else none
after (listened h) owned = if is_owned (some h) owned then some owned else none
after (refused c) owned = if is_owned (context c) owned then some owned else none
after e owned = some owned

unfoldable pub owned_after : List Entry → Option (List ℕ)
owned_after [] = some []
owned_after (e ∷ log) = elim (owned_after log) [ none ↦ none | some owned ↦ after e owned ]

-- A program that returns owns what `f` says; one that exits has used no context that it did not own.
abbrev pub Owning : {A : Type 0} → (A → List ℕ) → Outcome A → Type 0
Owning f (returned a w) = owned_after (w.log) ≡ some (f a)
Owning f (exited c w) = is_some (owned_after w.log) ≡ true

-- From a state that owns `L`, `m` uses owned contexts only, and owns `f a` when it returns `a`.
pub record Owns {A : Type 0} (b : Binding) (L : List ℕ) (m : Program A) (f : A → List ℕ)
    : Type 0 where
  pub at : (w : World) → owned_after w.log ≡ some L → Owning f (m b w)

-- `m` ends with the contexts with which it begins.
abbrev pub Keeps : {A : Type 0} → Binding → List ℕ → Program A → Type 0
Keeps b L m = Owns b L m (λ _. L)
