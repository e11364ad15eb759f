-- ===== src/Dial/Backoff/Bounded.antt =====
-- libp2p/dial_backoff.nim: the table of failures stays within its bound, and what a failure changes.
use nim_libp2p.Common.{
  ℕ, ◌+◌, ◌≤◌, ◌<◌, ◌≡◌, ◌⊎◌, inl, inr, refl, ap, ◌∙◌, arith, Bool, true, false, Option, none, some,
  is_some, List, [], ◌∷◌, length, ltb, leb, ◌&&◌, not, if◌then◌else◌, Bool-cases, Option-cases,
}
use nim_libp2p.Common.Table
use nim_libp2p.Dial.Backoff.Delay.{delay-le}
use nim_libp2p.Dial.Backoff.{
  Config, BackoffEntry, max_backoff_entries, prune, soonest, evict_soonest, get_or_default, blocked,
  make_room, fresh, count_failure, delay,
}

-- The failures of a key in a row, of which those that decayed do not count.
abbrev pub failures_of : Config → ℕ → Option BackoffEntry → ℕ
failures_of config now none = 0
failures_of config now (some e) = if leb (e.until + config.max_delay) now then 0 else e.failures

fresh-failures :
    (config : Config) (now : ℕ) (o : Option BackoffEntry)
    → (fresh config now (get_or_default now o)).failures ≡ failures_of config now o
fresh-failures config now none = ground arith
fresh-failures config now (some e) = ground arith

module _ {K : Type 0} (dec : Discrete K) where
  length-prune :
      (config : Config) (now : ℕ) (t : List (K × BackoffEntry))
      → length (prune dec config now t) ≤ length t
  unfolding prune
  length-prune config now [] = omega arith
  length-prune config now ((k, e) ∷ t) = ground (arith, length-prune config now t)

  -- What is left is what was there, or nothing.
  lookup-prune :
      (config : Config) (now : ℕ) (j : K) (t : List (K × BackoffEntry))
      → Table.Distinct dec t
      → (Table.lookup dec j (prune dec config now t) ≡ Table.lookup dec j t)
        ⊎ (Table.lookup dec j (prune dec config now t) ≡ none)
  unfolding prune Table.lookup
  lookup-prune config now j [] d = inl refl
  lookup-prune config now j ((k, e) ∷ t) (new, d) = ground (arith, lookup-prune config now j t d)

  found_key :
      (k j : K) (e : BackoffEntry) (t : List (K × BackoffEntry))
      → j ≡ k
      → is_some (Table.lookup dec j ((k, e) ∷ t)) ≡ true
  unfolding Table.lookup
  found_key k j e t same = ground (arith, same)

  found_later :
      (k j : K) (e : BackoffEntry) (t : List (K × BackoffEntry))
      → is_some (Table.lookup dec j t) ≡ true
      → is_some (Table.lookup dec j ((k, e) ∷ t)) ≡ true
  unfolding Table.lookup
  found_later k j e t later = ground (arith, later)

  -- The best entry of a table that has one, is one of the entries.
  soonest-some :
      (best : K × BackoffEntry) (t : List (K × BackoffEntry))
      → (e : K × BackoffEntry) × (soonest dec (some best) t ≡ some e)
        × ((e ≡ best) ⊎ (is_some (Table.lookup dec e.0 t) ≡ true))
  unfolding soonest Table.lookup
  soonest-some best [] = (best, refl, inl refl)
  soonest-some best ((k, e) ∷ t) = elim (Bool-cases (ltb e.until best.1.until)) [
    | inl less ↦
        let (r, found, from) = soonest-some (k, e) t in
        (
          r,
          rw (less, soonest) found,
          elim from [
            | inl same ↦ inr (found_key k r.0 e t (ap (λ x. x.0) same))
            | inr later ↦ inr (found_later k r.0 e t later)
          ],
        )
    | inr more ↦
        let (r, found, from) = soonest-some best t in
        (
          r,
          rw (more, soonest) found,
          elim from [ inl same ↦ inl same | inr later ↦ inr (found_later k r.0 e t later) ],
        )
  ]

  soonest-first :
      (k : K) (e : BackoffEntry) (t : List (K × BackoffEntry))
      → (r : K × BackoffEntry) × (soonest dec none ((k, e) ∷ t) ≡ some r)
        × (is_some (Table.lookup dec r.0 ((k, e) ∷ t)) ≡ true)
  unfolding soonest
  soonest-first k e t =
      let (r, found, from) = soonest-some (k, e) t in
      (
        r,
        found,
        elim from [
          | inl same ↦ found_key k r.0 e t (ap (λ x. x.0) same)
          | inr later ↦ found_later k r.0 e t later
        ],
      )

  evict-shorter :
      (t : List (K × BackoffEntry)) → 0 < length t → length (evict_soonest dec t) < length t
  unfolding evict_soonest
  evict-shorter [] h = absurd (omega arith)
  evict-shorter ((k, e) ∷ t) h =
      let (r, found, here) = soonest-first k e t in
      rw (found, evict_soonest)
        (elim (Option-cases (Table.lookup dec r.0 ((k, e) ∷ t))) [
          | inl n ↦ absurd (ground (arith, n, here))
          | inr (v, some_v) ↦ Table.length-del-lt dec r.0 ((k, e) ∷ t) v some_v
        ])

  length-make_room :
      (config : Config) (k : K) (now : ℕ) (t : List (K × BackoffEntry))
      → length t ≤ max_backoff_entries
      → (Table.has_key dec k (make_room dec config k now t) ≡ true)
        ⊎ (length (make_room dec config k now t) < max_backoff_entries)
  unfolding make_room
  length-make_room config k now t h =
      go (Table.has_key dec k t) refl (leb max_backoff_entries (length t)) refl
        (leb max_backoff_entries (length pruned)) refl
    where
      pruned : List (K × BackoffEntry)
      pruned = prune dec config now t

      room : (here full still : Bool) → List (K × BackoffEntry)
      room here full still =
          if full && not here then (if still then evict_soonest dec pruned else pruned) else t

      go :
          (here : Bool)
          → Table.has_key dec k t ≡ here
          → (full : Bool) → leb max_backoff_entries (length t) ≡ full
          → (still : Bool) → leb max_backoff_entries (length pruned) ≡ still
          → (Table.has_key dec k (room here full still) ≡ true)
            ⊎ (length (room here full still) < max_backoff_entries)
      go true eh true ef still es = inl eh
      go true eh false ef still es = inl eh
      go false eh false ef still es = inr (ground arith)
      go false eh true ef true es =
          inr (omega (arith, evict-shorter pruned (ground arith), length-prune config now t))
      go false eh true ef false es = inr (ground arith)

  length_room :
      (config : Config) (k : K) (now : ℕ) (t : List (K × BackoffEntry))
      → length t ≤ max_backoff_entries
      → length (make_room dec config k now t) ≤ max_backoff_entries
  unfolding make_room
  length_room config k now t h =
      go (leb max_backoff_entries (length t) && not (Table.has_key dec k t))
        (leb max_backoff_entries (length pruned)) refl
    where
      pruned : List (K × BackoffEntry)
      pruned = prune dec config now t

      go :
          (b still : Bool)
          → leb max_backoff_entries (length pruned) ≡ still
          → length (if b then (if still then evict_soonest dec pruned else pruned) else t)
            ≤ max_backoff_entries
      go false still e = h
      go true true e = omega (arith, evict-shorter pruned (ground arith), length-prune config now t)
      go true false e = omega (arith, length-prune config now t)

  -- Room is made by removing other keys.
  prune_absent :
      (config : Config) (now : ℕ) (k : K) (t : List (K × BackoffEntry))
      → Table.lookup dec k t ≡ none
      → Table.lookup dec k (prune dec config now t) ≡ none
  unfolding prune Table.lookup
  prune_absent config now k [] h = refl
  prune_absent config now k ((j, e) ∷ t) h = ground (arith, prune_absent config now k t)

  evict_absent :
      (k : K) (t : List (K × BackoffEntry))
      → Table.lookup dec k t ≡ none
      → Table.lookup dec k (evict_soonest dec t) ≡ none
  unfolding evict_soonest
  evict_absent k t h = go (soonest dec none t)
    where
      go :
          (o : Option (K × BackoffEntry))
          → Table.lookup dec k (elim o [ none ↦ t | some best ↦ Table.del dec best.0 t ]) ≡ none
      go none = h
      go (some best) = ground (arith, h, Table.lookup-del dec k best.0 t)

  lookup-make_room :
      (config : Config) (k : K) (now : ℕ) (t : List (K × BackoffEntry))
      → Table.lookup dec k (make_room dec config k now t) ≡ Table.lookup dec k t
  unfolding make_room
  lookup-make_room config k now t = elim (Option-cases (Table.lookup dec k t)) [
    | inl absent ↦
        let pruned = prune_absent config now k t absent in
        ground (arith, absent, pruned, evict_absent k (prune dec config now t) pruned)
    | inr (e, here) ↦ ground (arith, here)
  ]

  -- A table of at most 1024 entries has at most 1024 after a failure. From then on the key is
  -- blocked for the wait that is drawn for one failure more than those that count, which the
  -- ceiling bounds, and not after, until the next change.
  pub count_failure-bounded :
      (jittered : ℕ → ℕ) (config : Config) (k : K) (now : ℕ) (t : List (K × BackoffEntry))
      → length t ≤ max_backoff_entries
      → ((d : ℕ) → jittered d ≤ d)
      → let wait : ℕ =
          jittered (delay config (failures_of config now (Table.lookup dec k t) + 1)) in
        (length (count_failure dec jittered config k now t) ≤ max_backoff_entries)
        × ((later : ℕ)
            → blocked dec k later (count_failure dec jittered config k now t)
              ≡ ltb later (now + wait))
        × (wait ≤ config.max_delay)
  unfolding count_failure blocked
  count_failure-bounded jittered config k now t h draws =
      let room : List (K × BackoffEntry) = make_room dec config k now t in
      let entry : BackoffEntry = fresh config now (get_or_default now (Table.lookup dec k room)) in
      let counted : BackoffEntry = record {
        failures = entry.failures + 1;
        until = now + jittered (delay config (entry.failures + 1));
      } in
      let same : entry.failures ≡ failures_of config now (Table.lookup dec k t) =
        fresh-failures config now (Table.lookup dec k room)
        ∙ ap (failures_of config now) (lookup-make_room config k now t) in
      let wait : ℕ = jittered (delay config (failures_of config now (Table.lookup dec k t) + 1)) in
      let drawn : jittered (delay config (entry.failures + 1)) ≡ wait =
        ap (λ n. jittered (delay config (n + 1))) same in
      let fits = length-make_room config k now t h in
      let least : length room ≤ max_backoff_entries = length_room config k now t h in
      let found = Table.lookup-insert_self dec k counted room in
      (
        ground (arith, Table.length-insert dec k counted room, fits, least),
        λ later. rw (found, blocked) (ground (arith, drawn)),
        omega (
          arith,
          draws (delay config (failures_of config now (Table.lookup dec k t) + 1)),
          delay-le config (failures_of config now (Table.lookup dec k t) + 1),
        ),
      )
