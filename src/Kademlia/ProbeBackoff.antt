-- ===== src/Kademlia/ProbeBackoff.antt =====
-- libp2p/protocols/kademlia/probe_backoff.nim: the peers whose admission probe failed. An address is its
-- hash, the 64-bit number that `hash` of the address gives.
pub mod Held
use nim_libp2p.Common.{
  ℕ, zero, suc, ◌+◌, ◌*◌, ◌-◌, ◌%◌, ◌^◌, min, Bool, true, false, Option, none, some, List, [], ◌∷◌,
  length, take, ltb, leb, ◌==◌, ◌&&◌, if◌then◌else◌,
}
use nim_libp2p.Common.Table

pub record ProbeFailure : Type 0 where
  pub count : ℕ
  pub until : ℕ
  pub addrs : ℕ

unfoldable pub doubled : ℕ → ℕ → ℕ → ℕ
doubled zero backoff cap = backoff
doubled (suc rounds) backoff cap =
    if leb cap backoff then backoff else doubled rounds (backoff * 2) cap

unfoldable pub probe_backoff : ℕ → ℕ → ℕ → ℕ
unfolding doubled
probe_backoff count base cap = min (doubled (count - 1) base cap) cap

unfoldable pub probe_addrs_digest : List ℕ → ℕ
probe_addrs_digest [] = 0
probe_addrs_digest (a ∷ addrs) = (a + probe_addrs_digest addrs) % 2 ^ 64

-- The failure of a peer that has none: `count` is 0.
abbrev pub or_default : Option ProbeFailure → ProbeFailure
or_default none = record { count = 0; until = 0; addrs = 0 }
or_default (some f) = f

module _ {K : Type 0} (dec : Discrete K) where
  unfoldable pub backed_off : K → List ℕ → ℕ → List (K × ProbeFailure) → Bool
  unfolding probe_addrs_digest
  backed_off k addrs now t =
      let failure : ProbeFailure = or_default (Table.lookup dec k t) in
      ltb 0 failure.count && ltb now failure.until && (failure.addrs == probe_addrs_digest addrs)

  unfoldable pub drop_elapsed : ℕ → List (K × ProbeFailure) → List (K × ProbeFailure)
  drop_elapsed now [] = []
  drop_elapsed now ((k, f) ∷ t) =
      if leb f.until now then drop_elapsed now t else (k, f) ∷ drop_elapsed now t

  -- `sort` by the moment of expiry is stable.
  unfoldable pub insert_by_expiry :
      K × ProbeFailure → List (K × ProbeFailure) → List (K × ProbeFailure)
  insert_by_expiry e [] = e ∷ []
  insert_by_expiry e (f ∷ fs) =
      if ltb f.1.until e.1.until then f ∷ insert_by_expiry e fs else e ∷ f ∷ fs

  unfoldable pub by_expiry : List (K × ProbeFailure) → List (K × ProbeFailure)
  unfolding insert_by_expiry
  by_expiry [] = []
  by_expiry (e ∷ t) = insert_by_expiry e (by_expiry t)

  unfoldable pub del_keys :
      List (K × ProbeFailure) → List (K × ProbeFailure) → List (K × ProbeFailure)
  del_keys [] t = t
  del_keys (e ∷ es) t = del_keys es (Table.del dec e.0 t)

  unfoldable pub prune_failures : ℕ → ℕ → List (K × ProbeFailure) → List (K × ProbeFailure)
  unfolding drop_elapsed by_expiry del_keys
  prune_failures now cap t =
      let left : List (K × ProbeFailure) = drop_elapsed now t in
      let excess : ℕ = length left + 1 - cap in
      if ltb (length t) cap
      then t
      else if excess == 0
      then left
      else del_keys (take excess (by_expiry left)) left

  -- The result is the count that the peer has now, and the table.
  unfoldable pub record_failure :
      K → List ℕ → ℕ → ℕ → ℕ → ℕ → List (K × ProbeFailure) → ℕ × List (K × ProbeFailure)
  unfolding prune_failures probe_backoff probe_addrs_digest
  record_failure k addrs base cap max_entries now t =
      let count : ℕ = (or_default (Table.lookup dec k t)).count + 1 in
      let room : List (K × ProbeFailure) =
        if count == 1 then prune_failures now max_entries t else t in
      (
        count,
        Table.insert dec k
            (record {
              count = count;
              until = now + probe_backoff count base cap;
              addrs = probe_addrs_digest addrs;
            })
            room,
      )

  abbrev pub clear_failures : K → List (K × ProbeFailure) → List (K × ProbeFailure)
  clear_failures k t = Table.del dec k t
