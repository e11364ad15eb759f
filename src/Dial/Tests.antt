-- ===== src/Dial/Tests.antt =====
-- libp2p: the decisions on dials at concrete inputs.
use nim_libp2p.Common.{
  ℕ, ◌+◌, ◌*◌, ◌^◌, min, ◌≤◌, ◌≡◌, refl, arith, List, [], ◌∷◌, length, ltb, ℕ_discrete,
}
use nim_libp2p.Common.Table
use nim_libp2p.Dial.Backoff.{
  Config, BackoffEntry, max_backoff_entries, delay, count_failure, blocked,
}
use nim_libp2p.Dial.Backoff.Delay.{delay_lem}
use nim_libp2p.Dial.Backoff.Bounded.{count_failure-bounded}

abbrev seconds : Config
seconds = record { tolerance = 1; base = 5; factor = 2; max_delay = 300 }

doubles : delay seconds 4 ≡ 20
unfolding delay
doubles = refl

delay_lem_example :
    (4 ≤ seconds.tolerance → delay seconds 4 ≡ 0)
    × ((k : ℕ)
        → ◌≡◌ {A = ℕ} 4 (seconds.tolerance + 1 + k)
        → delay seconds 4 ≡ min (seconds.base * seconds.factor ^ k) seconds.max_delay)
delay_lem_example = delay_lem seconds 4 (omega arith) (omega arith) (omega arith)

abbrev one_entry : List (ℕ × BackoffEntry)
one_entry = (7, record { failures = 1; until = 3 }) ∷ []

count_failure-bounded_example :
    (length (count_failure ℕ_discrete (λ d. d) seconds 7 10 one_entry) ≤ max_backoff_entries)
    × ((later : ℕ)
        → blocked ℕ_discrete 7 later (count_failure ℕ_discrete (λ d. d) seconds 7 10 one_entry)
          ≡ ltb later (10 + 5))
    × (5 ≤ seconds.max_delay)
unfolding delay Table.lookup ℕ_discrete
count_failure-bounded_example =
    count_failure-bounded ℕ_discrete (λ d. d) seconds 7 10 one_entry (omega arith)
      (λ d. omega arith)
