-- ===== src/Pubsub/MCache/Lifetime.antt =====
-- libp2p/protocols/pubsub/mcache.nim: how many shifts a message survives.
use nim_libp2p.Common.{
  ℕ, zero, suc, ◌+◌, ◌≤◌, ◌<◌, ◌%◌, ◌≡◌, ◌≢◌, refl, ap, ◌∙◌, arith, List, [], ◌∷◌, ◌++◌, length,
  true, Option, none, some, get_elem?, ltb, lt→ltb, get_elem?_total, length-set, get_elem?-set_ne,
  get_elem?-set_self, le→ltb,
}
use native.Mathlib.Nat.{mod-add-mod}
use native.Mathlib.Decide.{dec_lt}
use nim_libp2p.Common.Table.{lookup, has_key}
use nim_libp2p.Pubsub.MCache.{CacheEntry, MCache, put, shift}
use nim_libp2p.Pubsub.MCache.Invariant.{
  in_slot, in_slot-add, IsValid, put-IsValid, Shifted, shift-Shifted, lookup-del_entries,
  in_slot-le-occurrences,
}

wraps : (p n len : ℕ) → ((p + n) % len + 1) % len ≡ (p + suc n) % len
wraps p n len =
    mod-add-mod (p + n) len 1 ∙ ap (λ k. k % len) (let e : p + n + 1 ≡ p + suc n = omega arith in e)

no_wrap : (p n len : ℕ) → p < len → suc n < len → (p + suc n) % len ≢ p
no_wrap p n len h k = grind arith

no_shift : (p len : ℕ) → p < len → p ≡ (p + 0) % len
no_shift p len h = grind arith

full_wrap : (p len : ℕ) → p < len → (p + len) % len ≡ p
full_wrap p len h = grind arith

module _ {I T M : Type 0} (dec : Discrete I) where
  -- `n` calls of `shift`, one after another.
  abbrev pub shifts : ℕ → MCache I T M → Option (MCache I T M)
  shifts zero c = some c
  shifts (suc n) c = elim (shifts n c) [ none ↦ none | some c' ↦ shift dec c' ]

  -- The id stands in slot `s`.
  pub record Stands (id : I) (s : ℕ) (c : MCache I T M) : Type 0 where
    pub slot : List (CacheEntry I T)
    pub at : get_elem? c.history s ≡ some slot
    pub there : 0 < in_slot dec id slot

  -- After `n` shifts of a cache with `len` slots that wrote the id to slot `p`.
  record Aged (id : I) (len p n : ℕ) (c : MCache I T M) : Type 0 where
    valid : IsValid dec c
    slots : length c.history ≡ len
    moved : c.pos ≡ (p + n) % len
    young : n < len → Stands id p c
    old : len ≤ n → lookup dec id c.msgs ≡ none

  Stands-has_key :
      (id : I) (s : ℕ) (c : MCache I T M)
      → IsValid dec c
      → Stands id s c
      → has_key dec id c.msgs ≡ true
  Stands-has_key id s c v h =
      ground (arith, v.once id, in_slot-le-occurrences dec id c.history s h.slot h.at, h.there)

  shift-old :
      (id : I) {c c' : MCache I T M}
      → Shifted dec c c'
      → lookup dec id c.msgs ≡ none
      → lookup dec id c'.msgs ≡ none
  shift-old id {c} {c'} s e = rw s.dropped (ground (arith, lookup-del_entries dec id s.slot c.msgs))

  shift-emptied :
      {id : I} {p : ℕ} {c c' : MCache I T M}
      → Shifted dec c c'
      → Stands id p c
      → c'.pos ≡ p
      → lookup dec id c'.msgs ≡ none
  shift-emptied {id} {p} {c} {c'} s h e =
      rw s.dropped (ground (arith, lookup-del_entries dec id s.slot c.msgs, h.there, h.at, s.at, e))

  shift-Stands :
      {id : I} {p : ℕ} {c c' : MCache I T M}
      → Shifted dec c c'
      → Stands id p c
      → c'.pos ≢ p
      → Stands id p c'
  shift-Stands {id} {p} {c} {c'} s h e = record {
    slot = h.slot;
    at = rw s.emptied (get_elem?-set_ne c.history c'.pos p [] e ∙ h.at);
    there = h.there;
  }

  Aged-shift :
      {id : I} {len p n : ℕ} {c c' : MCache I T M}
      → p < len
      → Aged id len p n c
      → Shifted dec c c'
      → Aged id len p (suc n) c'
  Aged-shift {id} {len} {p} {n} {c} {c'} h a s =
      let pos : c'.pos ≡ (p + suc n) % len =
        ground (arith, s.moved, a.moved, a.slots, wraps p n len) in
      record {
        valid = s.valid;
        slots = rw s.emptied (length-set c.history c'.pos [] ∙ a.slots);
        moved = pos;
        young = λ y. shift-Stands s (a.young (omega arith)) (rw pos (no_wrap p n len h y));
        old = λ o. elim (dec_lt n len) [
          | yes y ↦
              let last : suc n ≡ len = omega arith in
              shift-emptied s (a.young y) (pos ∙ rw last (full_wrap p len h))
          | no k ↦ shift-old id s (a.old (omega arith))
        ];
      }

  Aged-shifts :
      {id : I} {len p : ℕ} {c : MCache I T M} (n : ℕ)
      → p < len
      → Aged id len p 0 c
      → (c' : MCache I T M) × (shifts n c ≡ some c') × Aged id len p n c'
  Aged-shifts {c = c} zero h a = (c, refl, a)
  Aged-shifts (suc n) h a =
      let (c', e, a') = Aged-shifts n h a in
      let (c'', e', s) = shift-Shifted dec c' a'.valid in (c'', rw e e', Aged-shift h a' s)

  Stands-put :
      (topic : M → T) (c : MCache I T M) (id : I) (msg : M) {c' : MCache I T M}
      → IsValid dec c
      → lookup dec id c.msgs ≡ none
      → put dec topic c id msg ≡ some c'
      → Stands id c.pos c' × (c'.pos ≡ c.pos)
  unfolding put
  Stands-put topic c id msg v absent e =
      let (slot, at) = get_elem?_total c.history c.pos v.slot in
      let entry : CacheEntry I T = record { msg_id = id; topic = topic msg } in
      (
        record {
          slot = slot ++ entry ∷ [];
          at = ground (arith, get_elem?-set_self c.history c.pos (slot ++ entry ∷ []) v.slot);
          there = ground (arith, in_slot-add dec id slot entry);
        },
        ground arith,
      )

  -- A message that `put` newly caches is there after every number of shifts below the number of
  -- slots, and after no other; `put` and the shifts all succeed.
  pub put_lifetime :
      (topic : M → T) (c : MCache I T M) (id : I) (msg : M) (n : ℕ)
      → IsValid dec c
      → lookup dec id c.msgs ≡ none
      → (c' : MCache I T M) × (c'' : MCache I T M) × (put dec topic c id msg ≡ some c')
        × (shifts n c' ≡ some c'')
        × (has_key dec id c''.msgs ≡ ltb n (length c.history))
  put_lifetime topic c id msg n v absent =
      let (c', e, v', slots, _) = put-IsValid dec topic c id msg v in
      let (here, still) = Stands-put topic c id msg v absent e in
      let start : Aged id (length c.history) c.pos 0 c' = record {
        valid = v';
        slots = slots;
        moved = still ∙ no_shift c.pos (length c.history) v.slot;
        young = λ _. here;
        old = λ o. absurd (omega (arith, v.slot));
      } in
      let (c'', e', a) = Aged-shifts n v.slot start in
      (
        c',
        c'',
        e,
        e',
        elim (dec_lt n (length c.history)) [
          | yes y ↦
              rw (lt→ltb n (length c.history) y) (Stands-has_key id c.pos c'' a.valid (a.young y))
          | no k ↦ rw (le→ltb n (length c.history) (omega arith), a.old (omega arith))
        ],
      )
