-- ===== src/Pubsub/MCache/Invariant.antt =====
-- libp2p/protocols/pubsub/mcache.nim: every cached message stands in one slot of the history.
use nim_libp2p.Common.{
  ℕ, zero, suc, ◌+◌, ◌≤◌, ◌<◌, ◌%◌, ◌≡◌, refl, ap, arith, List, [], ◌∷◌, ◌++◌, length, none, some,
  get_elem?, set, ltb, eqb, if◌then◌else◌, lt→ltb, get_elem?_total, length-set, Option-cases, inl,
  inr,
}
use nim_libp2p.Common.Table.{
  lookup, del, has_key, lookup-insert, lookup-insert_self, insert, lookup-del,
}
use nim_libp2p.Pubsub.MCache.{CacheEntry, MCache, empty_slots, init, put, del_entries, shift}

module _ {I T : Type 0} (dec : Discrete I) where
  -- How often an id stands in a slot, and in all slots.
  unfoldable pub in_slot : I → List (CacheEntry I T) → ℕ
  in_slot id [] = 0
  in_slot id (e ∷ es) = if eqb dec id e.msg_id then suc (in_slot id es) else in_slot id es

  unfoldable pub occurrences : I → List (List (CacheEntry I T)) → ℕ
  occurrences id [] = 0
  occurrences id (slot ∷ slots) = in_slot id slot + occurrences id slots

  pub in_slot-add :
      (id : I) (es : List (CacheEntry I T)) (e : CacheEntry I T)
      → in_slot id (es ++ e ∷ []) ≡ in_slot id es + (if eqb dec id e.msg_id then 1 else 0)
  unfolding in_slot
  in_slot-add id [] e = ground arith
  in_slot-add id (x ∷ es) e = ground (arith, in_slot-add id es e)

  pub occurrences-set :
      (id : I) (slots : List (List (CacheEntry I T))) (p : ℕ) (old new : List (CacheEntry I T))
      → get_elem? slots p ≡ some old
      → occurrences id (set slots p new) + in_slot id old ≡ occurrences id slots + in_slot id new
  unfolding occurrences
  occurrences-set id [] p old new e = ground arith
  occurrences-set id (slot ∷ slots) zero old new e = ground arith
  occurrences-set id (slot ∷ slots) (suc p) old new e =
      omega (arith, occurrences-set id slots p old new e)

  pub in_slot-le-occurrences :
      (id : I) (slots : List (List (CacheEntry I T))) (p : ℕ) (slot : List (CacheEntry I T))
      → get_elem? slots p ≡ some slot
      → in_slot id slot ≤ occurrences id slots
  unfolding occurrences
  in_slot-le-occurrences id [] p slot e = ground arith
  in_slot-le-occurrences id (s ∷ slots) zero slot e = ground arith
  in_slot-le-occurrences id (s ∷ slots) (suc p) slot e =
      omega (arith, in_slot-le-occurrences id slots p slot e)

pub occurrences-empty :
    {I : Type 0} (T : Type 0) (dec : Discrete I) (id : I) (n : ℕ)
    → occurrences dec id (empty_slots {I = I} {T = T} n) ≡ 0
unfolding occurrences empty_slots in_slot
occurrences-empty T dec id zero = refl
occurrences-empty T dec id (suc n) = omega (arith, occurrences-empty T dec id n)

pub length-empty_slots : (I T : Type 0) (n : ℕ) → length (empty_slots {I = I} {T = T} n) ≡ n
unfolding empty_slots
length-empty_slots I T zero = refl
length-empty_slots I T (suc n) = ap suc (length-empty_slots I T n)

module _ {I T M : Type 0} (dec : Discrete I) where
  -- The write position is a slot, and an id stands in the slots exactly as often as in the table.
  pub record IsValid (c : MCache I T M) : Type 0 where
    pub slot : c.pos < length c.history
    pub once : (id : I) → occurrences dec id c.history ≡ (if has_key dec id c.msgs then 1 else 0)

  pub lookup-del_entries :
      (id : I) (es : List (CacheEntry I T)) (msgs : List (I × M))
      → lookup dec id (del_entries dec es msgs)
        ≡ (if ltb 0 (in_slot dec id es) then none else lookup dec id msgs)
  unfolding in_slot del_entries
  lookup-del_entries id [] msgs = refl
  lookup-del_entries id (e ∷ es) msgs =
      ground
        (arith, lookup-del_entries id es (del dec e.msg_id msgs), lookup-del dec id e.msg_id msgs)

  -- `init` gives a valid cache, with no message, whenever its assertion holds.
  pub init-IsValid :
      (window history : ℕ)
      → 0 < history
      → (c : MCache I T M) × (init window history ≡ some c)
        × IsValid c
        × (length c.history ≡ history)
  unfolding init lookup
  init-IsValid window history h = (
    record { msgs = []; history = empty_slots history; pos = 0; window_size = window },
    rw (lt→ltb 0 history h),
    record {
      slot = omega (arith, length-empty_slots I T history);
      once = λ id. occurrences-empty T dec id history;
    },
    length-empty_slots I T history,
  )

  -- `put` succeeds on a valid cache, keeps it valid, and caches the message under its id.
  pub put-IsValid :
      (topic : M → T) (c : MCache I T M) (id : I) (msg : M)
      → IsValid c
      → (c' : MCache I T M) × (put dec topic c id msg ≡ some c')
        × IsValid c'
        × (length c'.history ≡ length c.history)
        × (lookup dec id c'.msgs
            ≡ (if has_key dec id c.msgs then lookup dec id c.msgs else some msg))
  unfolding put
  put-IsValid topic c id msg v = elim (Option-cases (lookup dec id c.msgs)) [
    | inr (old, e) ↦ (c, rw e, v, refl, rw e)
    | inl e ↦
        let (slot, at) = get_elem?_total c.history c.pos v.slot in
        let entry : CacheEntry I T = record { msg_id = id; topic = topic msg } in
        (
          record c {
            msgs = insert dec id msg c.msgs;
            history = set c.history c.pos (slot ++ entry ∷ []);
          },
          rw (e, put) (rw (at, put)),
          record {
            slot = omega (arith, v.slot, length-set c.history c.pos (slot ++ entry ∷ []));
            once = λ j. ground (
              arith,
              v.once j,
              occurrences-set dec j c.history c.pos slot (slot ++ entry ∷ []) at,
              in_slot-add dec j slot entry,
              lookup-insert dec j id msg c.msgs,
            );
          },
          length-set c.history c.pos (slot ++ entry ∷ []),
          rw e (lookup-insert_self dec id msg c.msgs),
        )
  ]

  -- What `shift` makes of a cache: the slot at the new position is emptied, and its messages go.
  pub record Shifted (c c' : MCache I T M) : Type 0 where
    pub valid : IsValid c'
    pub moved : c'.pos ≡ (c.pos + 1) % length c.history
    pub slot : List (CacheEntry I T)
    pub at : get_elem? c.history c'.pos ≡ some slot
    pub emptied : c'.history ≡ set c.history c'.pos []
    pub dropped : c'.msgs ≡ del_entries dec slot c.msgs

  pub shift-Shifted :
      (c : MCache I T M) → IsValid c → (c' : MCache I T M) × (shift dec c ≡ some c') × Shifted c c'
  unfolding shift in_slot
  shift-Shifted c v =
      let pos : ℕ = (c.pos + 1) % length c.history in
      let within : pos < length c.history = omega (arith, v.slot) in
      let (slot, at) = get_elem?_total c.history pos within in
      (
        record c { pos = pos; msgs = del_entries dec slot c.msgs; history = set c.history pos [] },
        rw (lt→ltb 0 (length c.history) (omega arith), shift) (rw (at, shift)),
        record {
          valid = record {
            slot = omega (arith, within, length-set c.history pos []);
            once = λ j. ground (
              arith,
              v.once j,
              occurrences-set dec j c.history pos slot [] at,
              in_slot-le-occurrences dec j c.history pos slot at,
              lookup-del_entries j slot c.msgs,
            );
          };
          moved = refl;
          slot = slot;
          at = at;
          emptied = refl;
          dropped = refl;
        },
      )

  -- `shift` succeeds on a valid cache, and keeps it valid and its number of slots.
  pub shift-IsValid :
      (c : MCache I T M)
      → IsValid c
      → (c' : MCache I T M) × (shift dec c ≡ some c')
        × IsValid c'
        × (length c'.history ≡ length c.history)
  shift-IsValid c v =
      let (c', e, s) = shift-Shifted c v in
      (c', e, s.valid, rw s.emptied (length-set c.history c'.pos []))
