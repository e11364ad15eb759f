-- ===== src/Pubsub/MCache/Window.antt =====
-- libp2p/protocols/pubsub/mcache.nim: the ids that `window` offers for gossip.
use nim_libp2p.Common.{
  ℕ, zero, suc, ◌+◌, ◌-◌, ◌≤◌, ◌<◌, ◌%◌, ◌≡◌, refl, ap, arith, List, [], ◌∷◌, length, true, false,
  Bool, ◌||◌, ◌&&◌, some, get_elem?, eqb, Bool-cases, inl, inr, ◌⊎◌, min, get_elem?_total,
}
use native.Mathlib.Decide.{ℕ_discrete}
use nim_libp2p.Common.Sets.{contains, contains-incl}
use nim_libp2p.Pubsub.MCache.{CacheEntry, MCache, collect, window_loop, window}
use nim_libp2p.Pubsub.MCache.Invariant.{IsValid}

module _ {I T : Type 0} (dec : Discrete I) (dec_topic : Discrete T) where
  -- An entry of the topic with this id stands in the slot.
  abbrev pub listed : T → I → List (CacheEntry I T) → Bool
  listed topic id [] = false
  listed topic id (e ∷ es) =
      (eqb dec_topic e.topic topic && eqb dec id e.msg_id) || listed topic id es

  contains-collect :
      (topic : T) (id : I) (es : List (CacheEntry I T)) (ids : List I)
      → contains dec id (collect dec dec_topic topic es ids)
        ≡ (contains dec id ids || listed topic id es)
  unfolding collect
  contains-collect topic id [] ids = ground arith
  contains-collect topic id (e ∷ es) ids = elim (Bool-cases (eqb dec_topic e.topic topic)) [
    | inl same ↦
        rw (same, contains-collect topic id es) (ground (arith, contains-incl dec id e.msg_id ids))
    | inr other ↦ rw (other, contains-collect topic id es)
  ]

module _ {I T M : Type 0} (dec : Discrete I) (dec_topic : Discrete T) (c : MCache I T M)
    (topic : T) where
  -- The slot of round `i` lists the id.
  pub record Offers (i : ℕ) (id : I) : Type 0 where
    pub slot : List (CacheEntry I T)
    pub at : get_elem? c.history ((c.pos + length c.history - i) % length c.history) ≡ some slot
    pub entry : listed dec dec_topic topic id slot ≡ true

  -- The ids that were there, and those of the rounds from `i` to `i + left`, and no others.
  record Collects (left i : ℕ) (ids out : List I) : Type 0 where
    sound :
        (id : I)
        → contains dec id out ≡ true
        → (contains dec id ids ≡ true) ⊎ ((j : ℕ) × (i ≤ j) × (j < i + left) × Offers j id)
    kept : (id : I) → contains dec id ids ≡ true → contains dec id out ≡ true
    complete : (id : I) (j : ℕ) → i ≤ j → j < i + left → Offers j id → contains dec id out ≡ true

  Collects-next :
      {left i : ℕ} {ids out : List I} (slot : List (CacheEntry I T))
      → get_elem? c.history ((c.pos + length c.history - i) % length c.history) ≡ some slot
      → Collects left (i + 1) (collect dec dec_topic topic slot ids) out
      → Collects (suc left) i ids out
  Collects-next {left} {i} {ids} {out} slot at n = record {
    sound = λ id e. elim (n.sound id e) [
      | inl h ↦ elim (Bool-cases (listed dec dec_topic topic id slot)) [
        | inl here ↦
            inr (i, omega arith, omega arith, record { slot = slot; at = at; entry = here })
        | inr no_entry ↦ inl (ground (arith, contains-collect dec dec_topic topic id slot ids))
      ]
      | inr (j, lo, hi, o) ↦ inr (j, omega arith, omega arith, o)
    ];
    kept = λ id e. n.kept id (ground (arith, contains-collect dec dec_topic topic id slot ids));
    complete = λ id j lo hi o. elim (ℕ_discrete i j) [
      | yes p ↦
          let here : listed dec dec_topic topic id slot ≡ true = cc (
            o.at,
            o.entry,
            at,
            ap (λ k. get_elem? c.history ((c.pos + length c.history - k) % length c.history)) p,
          ) in
          n.kept id (ground (arith, contains-collect dec dec_topic topic id slot ids))
      | no p ↦ n.complete id j (omega (arith, p)) (omega arith) o
    ];
  }

  window_loop-Collects :
      (left i : ℕ) (ids : List I)
      → 0 < length c.history
      → (out : List I) × (window_loop dec dec_topic c topic left i ids ≡ some out)
        × Collects left i ids out
  unfolding window_loop
  window_loop-Collects zero i ids h = (
    ids,
    refl,
    record {
      sound = λ id e. inl e;
      kept = λ id e. e;
      complete = λ id j lo hi o. absurd (omega arith);
    },
  )
  window_loop-Collects (suc left) i ids h =
      let index : ℕ = (c.pos + length c.history - i) % length c.history in
      let (slot, at) = get_elem?_total c.history index (omega arith) in
      let (out, e, n) =
        window_loop-Collects left (i + 1) (collect dec dec_topic topic slot ids) h in
      (out, rw (at, window_loop) e, Collects-next slot at n)

  -- On a valid cache `window` succeeds, and its ids are exactly those with an entry of the topic
  -- in one of the last `windowSize` slots (in all slots, if there are fewer).
  pub window_exact :
      IsValid dec c
      → (ids : List I) × (window dec dec_topic c topic ≡ some ids)
        × ((id : I)
            → contains dec id ids ≡ true
            → (i : ℕ) × (i < min c.window_size (length c.history)) × Offers i id)
        × ((id : I) (i : ℕ)
            → i < min c.window_size (length c.history)
            → Offers i id
            → contains dec id ids ≡ true)
  unfolding window contains
  window_exact v =
      let (ids, e, n) =
        window_loop-Collects (min c.window_size (length c.history)) 0 [] (omega (arith, v.slot)) in
      (
        ids,
        e,
        λ id h. elim (n.sound id h) [
          | inl none_yet ↦ absurd (ground arith)
          | inr (i, _, hi, o) ↦ (i, omega arith, o)
        ],
        λ id i hi o. n.complete id i (omega arith) (omega arith) o,
      )
