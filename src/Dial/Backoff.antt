-- ===== src/Dial/Backoff.antt =====
-- libp2p/dial_backoff.nim: the wait after failed dials. Moments and durations are nanoseconds; a
-- duration is not negative, so `<= ZeroDuration` is `== 0`.
pub mod Delay
pub mod Bounded
use nim_libp2p.Common.{
  ℕ, zero, suc, ◌+◌, ◌*◌, ◌-◌, ◌/◌, min, Bool, true, false, Option, none, some, List, [], ◌∷◌,
  length, ltb, leb, ◌==◌, ◌&&◌, ◌||◌, not, if◌then◌else◌,
}
use nim_libp2p.Common.Table

abbrev pub max_backoff_entries : ℕ
max_backoff_entries = 1024

-- `jitter` is a fraction, in the source a `float`.
pub record Config : Type 0 where
  pub tolerance : ℕ
  pub base : ℕ
  pub factor : ℕ
  pub max_delay : ℕ

pub record BackoffEntry : Type 0 where
  pub failures : ℕ
  pub until : ℕ

-- The loop of `delay`: `none` stands for the early return of `maxDelay`.
unfoldable pub delay_loop : ℕ → Config → ℕ → Option ℕ
delay_loop zero config delay = some delay
delay_loop (suc rounds) config delay =
    if ltb (config.max_delay / config.factor) delay
    then none
    else delay_loop rounds config (delay * config.factor)

unfoldable pub capped : Config → Option ℕ → ℕ
capped config none = config.max_delay
capped config (some delay) = if ltb config.max_delay delay then config.max_delay else delay

unfoldable pub delay : Config → ℕ → ℕ
unfolding delay_loop capped
delay config failures =
    if leb failures config.tolerance
    then 0
    else if config.base == 0 || config.max_delay == 0
    then 0
    else if leb config.factor 1
    then min config.base config.max_delay
    else capped config (delay_loop (failures - config.tolerance - 1) config config.base)

abbrev pub decayed : Config → BackoffEntry → ℕ → Bool
decayed config entry now = leb (entry.until + config.max_delay) now

-- A missing key counts as an entry with no failures that ends now.
abbrev pub get_or_default : ℕ → Option BackoffEntry → BackoffEntry
get_or_default now none = record { failures = 0; until = now }
get_or_default now (some e) = e

abbrev pub fresh : Config → ℕ → BackoffEntry → BackoffEntry
fresh config now e = if decayed config e now then record { failures = 0; until = now } else e

module _ {K : Type 0} (dec : Discrete K) where
  -- The table without what decayed.
  unfoldable pub prune : Config → ℕ → List (K × BackoffEntry) → List (K × BackoffEntry)
  prune config now [] = []
  prune config now ((k, e) ∷ t) =
      if decayed config e now then prune config now t else (k, e) ∷ prune config now t

  -- The entry that ends first, and of equal ones the first.
  unfoldable pub soonest :
      Option (K × BackoffEntry) → List (K × BackoffEntry) → Option (K × BackoffEntry)
  soonest best [] = best
  soonest none (e ∷ t) = soonest (some e) t
  soonest (some best) (e ∷ t) = soonest (some (if ltb e.1.until best.1.until then e else best)) t

  unfoldable pub evict_soonest : List (K × BackoffEntry) → List (K × BackoffEntry)
  evict_soonest t = elim (soonest none t) [ none ↦ t | some best ↦ Table.del dec best.0 t ]

  unfoldable pub blocked : K → ℕ → List (K × BackoffEntry) → Bool
  blocked k now t = not (leb (get_or_default now (Table.lookup dec k t)).until now)

  unfoldable pub make_room : Config → K → ℕ → List (K × BackoffEntry) → List (K × BackoffEntry)
  unfolding prune evict_soonest
  make_room config k now t =
      let pruned : List (K × BackoffEntry) = prune config now t in
      if leb max_backoff_entries (length t) && not (Table.has_key dec k t)
      then (if leb max_backoff_entries (length pruned) then evict_soonest pruned else pruned)
      else t

  -- `jittered` draws the wait from the random generator of the object: here a parameter.
  unfoldable pub count_failure :
      (ℕ → ℕ) → Config → K → ℕ → List (K × BackoffEntry) → List (K × BackoffEntry)
  unfolding make_room delay
  count_failure jittered config k now t =
      let room : List (K × BackoffEntry) = make_room config k now t in
      let entry : BackoffEntry = fresh config now (get_or_default now (Table.lookup dec k room)) in
      Table.insert dec k
        (record {
          failures = entry.failures + 1;
          until = now + jittered (delay config (entry.failures + 1));
        })
        room

  unfoldable pub record_success : K → List (K × BackoffEntry) → List (K × BackoffEntry)
  record_success k t = Table.del dec k t
