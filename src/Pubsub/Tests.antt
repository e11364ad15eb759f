-- ===== src/Pubsub/Tests.antt =====
-- libp2p/protocols/pubsub: the theorems at concrete inputs.
use nim_libp2p.Common.{
  ℕ, ◌≡◌, ◌<◌, refl, arith, ℕ_discrete, true, some, List, [], ◌∷◌, length, ltb, if◌then◌else◌,
}
use nim_libp2p.Common.Sets
use nim_libp2p.Common.Table.{lookup, has_key}
use nim_libp2p.Pubsub.MCache.{MCache, init, put, shift, window}
use nim_libp2p.Pubsub.MCache.Invariant.{
  occurrences, in_slot, IsValid, init-IsValid, put-IsValid, shift-IsValid,
}
use nim_libp2p.Pubsub.MCache.Lifetime.{shifts, put_lifetime}
use nim_libp2p.Pubsub.MCache.Window.{Offers, window_exact}

-- Ids, topics and messages are numbers; a message is its own topic.
abbrev topic_of : ℕ → ℕ
topic_of m = m

abbrev three_slots : MCache ℕ ℕ ℕ
three_slots = record { msgs = []; history = [] ∷ [] ∷ [] ∷ []; pos = 0; window_size = 2 }

three_slots-IsValid : IsValid {T = ℕ} ℕ_discrete three_slots
unfolding lookup
three_slots-IsValid = record { slot = omega arith; once = λ id. unfold occurrences in_slot in refl }

init-IsValid_example :
    (c : MCache ℕ ℕ ℕ) × (init 2 3 ≡ some c) × IsValid ℕ_discrete c × (length c.history ≡ 3)
init-IsValid_example = init-IsValid ℕ_discrete 2 3 (omega arith)

put-IsValid_example :
    (c' : MCache ℕ ℕ ℕ) × (put ℕ_discrete topic_of three_slots 11 4 ≡ some c')
    × IsValid ℕ_discrete c'
    × (length c'.history ≡ 3)
    × (lookup ℕ_discrete 11 c'.msgs ≡ (
        if has_key ℕ_discrete 11 three_slots.msgs
        then lookup ℕ_discrete 11 three_slots.msgs
        else some 4))
put-IsValid_example = put-IsValid ℕ_discrete topic_of three_slots 11 4 three_slots-IsValid

shift-IsValid_example :
    (c' : MCache ℕ ℕ ℕ) × (shift ℕ_discrete three_slots ≡ some c')
    × IsValid ℕ_discrete c'
    × (length c'.history ≡ 3)
shift-IsValid_example = shift-IsValid ℕ_discrete three_slots three_slots-IsValid

put_lifetime_example :
    (c' : MCache ℕ ℕ ℕ) × (c'' : MCache ℕ ℕ ℕ) × (put ℕ_discrete topic_of three_slots 11 4
      ≡ some c')
    × (shifts ℕ_discrete 3 c' ≡ some c'')
    × (has_key ℕ_discrete 11 c''.msgs ≡ ltb 3 3)
unfolding lookup
put_lifetime_example = put_lifetime ℕ_discrete topic_of three_slots 11 4 3 three_slots-IsValid refl

window_exact_example :
    (ids : List ℕ) × (window ℕ_discrete ℕ_discrete three_slots 4 ≡ some ids)
    × ((id : ℕ)
        → Sets.contains ℕ_discrete id ids ≡ true
        → (i : ℕ) × (i < 2) × Offers ℕ_discrete ℕ_discrete three_slots 4 i id)
    × ((id i : ℕ)
        → i < 2
        → Offers ℕ_discrete ℕ_discrete three_slots 4 i id
        → Sets.contains ℕ_discrete id ids ≡ true)
window_exact_example = window_exact ℕ_discrete ℕ_discrete three_slots 4 three_slots-IsValid
