-- ===== src/Kademlia/ProbeBackoff/Held.antt =====
-- libp2p/protocols/kademlia/probe_backoff.nim: for how long a peer is held back.
use nim_libp2p.Common.{
  ℕ, zero, suc, ◌+◌, ◌*◌, ◌^◌, ◌%◌, min, ◌≤◌, ◌≡◌, inl, inr, sym, ap, ◌∙◌, arith, true, List, [],
  ◌∷◌, ltb, leb, leb→le, ◌==◌, ◌&&◌, if◌then◌else◌, Bool-cases,
}
use nim_libp2p.Common.Table
use native.Mathlib.Nat.{one-le-pow, pow-succ', mul_assoc, le-mul_of_pos_right}
use nim_libp2p.Kademlia.ProbeBackoff.{
  ProbeFailure, doubled, probe_backoff, probe_addrs_digest, or_default, backed_off, prune_failures,
  record_failure,
}

doubled_lem : (n b cap : ℕ) → min (doubled n b cap) cap ≡ min (b * 2 ^ n) cap
unfolding doubled
doubled_lem zero b cap = ap (λ x. min x cap) (omega arith)
doubled_lem (suc n) b cap =
    let total : b * 2 ^ suc n ≡ b * 2 * 2 ^ n =
      ap (λ x. b * x) (pow-succ' 2 n) ∙ sym (mul_assoc b 2 (2 ^ n)) in
    let grows : b * 2 ≤ b * 2 * 2 ^ n =
      le-mul_of_pos_right (b * 2) (one-le-pow n 2 (omega arith)) in
    elim (Bool-cases (leb cap b)) [
      | inl e ↦ rw (e, doubled) (omega (arith, leb→le cap b e, total, grows))
      | inr e ↦ rw (e, doubled) (doubled_lem n (b * 2) cap ∙ ap (λ x. min x cap) (sym total))
    ]

-- The wait after failure number `k + 1` is the base doubled `k` times, or the ceiling if that is less.
pub probe_backoff_lem : (k base cap : ℕ) → probe_backoff (k + 1) base cap ≡ min (base * 2 ^ k) cap
unfolding probe_backoff
probe_backoff_lem k base cap =
    ap (λ n. min (doubled n base cap) cap) (omega arith) ∙ doubled_lem k base cap

abbrev pub sum : List ℕ → ℕ
sum [] = 0
sum (a ∷ addrs) = a + sum addrs

-- The digest of addresses is the sum of their hashes as a 64-bit number.
pub probe_addrs_digest_lem : (addrs : List ℕ) → probe_addrs_digest addrs ≡ sum addrs % 2 ^ 64
unfolding probe_addrs_digest
probe_addrs_digest_lem [] = omega arith
probe_addrs_digest_lem (a ∷ addrs) = omega (arith, probe_addrs_digest_lem addrs)

module _ {K : Type 0} (dec : Discrete K) where
  -- After a failure of a peer for the `k + 1`st time in a row, a probe with addresses whose hashes
  -- have the same sum modulo 2 ^ 64 is held back for the base doubled `k` times or the ceiling, and no
  -- longer, and a probe with addresses whose hashes have another sum is not.
  pub record_failure-backed_off :
      (key : K) (addrs others : List ℕ) (base cap max_entries now later k : ℕ)
      (t : List (K × ProbeFailure))
      → (or_default (Table.lookup dec key t)).count ≡ k
      → backed_off dec key others later (record_failure dec key addrs base cap max_entries now t).1
        ≡ (ltb later (now + min (base * 2 ^ k) cap) && (sum addrs % 2 ^ 64 == sum others % 2 ^ 64))
  unfolding record_failure backed_off
  record_failure-backed_off key addrs others base cap max_entries now later k t e =
      let count : ℕ = (or_default (Table.lookup dec key t)).count + 1 in
      let failure : ProbeFailure = record {
        count = count;
        until = now + probe_backoff count base cap;
        addrs = probe_addrs_digest addrs;
      } in
      let room : List (K × ProbeFailure) =
        if count == 1 then prune_failures dec now max_entries t else t in
      let wait : probe_backoff count base cap ≡ min (base * 2 ^ k) cap =
        ap (λ n. probe_backoff (n + 1) base cap) e ∙ probe_backoff_lem k base cap in
      let some_failures : ltb 0 count ≡ true = ground arith in
      let same =
        ap (λ n. ltb later (now + n) && (probe_addrs_digest addrs == probe_addrs_digest others))
          wait in
      let sums =
        ap (λ m. ltb later (now + min (base * 2 ^ k) cap) && (m == probe_addrs_digest others))
          (probe_addrs_digest_lem addrs)
        ∙ ap (λ m. ltb later (now + min (base * 2 ^ k) cap) && (sum addrs % 2 ^ 64 == m))
            (probe_addrs_digest_lem others) in
      rw (Table.lookup-insert_self dec key failure room, backed_off)
        (rw some_failures (same ∙ sums))
