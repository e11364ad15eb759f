-- ===== src/Cbind/Liveness.antt =====
-- When the programs of cbind/examples return: if the binding calls back in time, no wait ends the
-- process.
pub mod Rules
pub mod Waits
pub mod Programs
use nim_libp2p.Common.{ℕ, ◌≡◌, ◌≤◌, ◌<◌, Bool, true, false, List, Option, some}
use nim_libp2p.Cbind.Binding.{
  Call, Answer, Event, incoming_stream, pubsub_message, Entry, Binding, Bytes,
}
use nim_libp2p.Cbind.Program.{Outcome, returned, exited, World, Program}

-- Every request is answered within 1000 sleeps.
abbrev pub IsPrompt : Binding → Type 0
IsPrompt b =
    (log : List Entry) (c : Call) → (t : ℕ) × (((b.answer) log c).time ≡ some t) × (t ≤ 1000)

-- In every wait a stream comes in and a message arrives before the last of 1000 sleeps.
abbrev pub IsHeard : Binding → Type 0
IsHeard b =
    (log : List Entry)
    → ((i : ℕ) × (id : ℕ) × (i < 1000) × ((b.event) log i ≡ some (incoming_stream id)))
      × ((i : ℕ) × (payload : Option Bytes) × (i < 1000)
          × ((b.event) log i ≡ some (pubsub_message payload)))

abbrev pub is_returned : {A : Type 0} → Outcome A → Bool
is_returned (returned a w) = true
is_returned (exited c w) = false

-- `m` returns, from wherever it begins.
pub record Returns {A : Type 0} (b : Binding) (m : Program A) : Type 0 where
  pub at : (w : World) → is_returned (m b w) ≡ true
