-- ===== src/Pubsub/MCache.antt =====
-- libp2p/protocols/pubsub/mcache.nim: the sliding window of recent messages.
pub mod Invariant
pub mod Lifetime
pub mod Window
use nim_libp2p.Common.{
  ℕ, zero, suc, ◌+◌, ◌-◌, ◌%◌, Bool, Option, none, some, List, [], ◌∷◌, ◌++◌, length, get_elem?,
  set, ltb, min, eqb, if◌then◌else◌,
}
use nim_libp2p.Common.Sets.{incl}
use nim_libp2p.Common.Table.{lookup, insert, del, has_key}

pub record CacheEntry (I T : Type 0) : Type 0 where
  pub msg_id : I
  pub topic : T

-- `M` is the type of messages; of a message the cache reads only the topic.
pub record MCache (I T M : Type 0) : Type 0 where
  pub msgs : List (I × M)
  pub history : List (List (CacheEntry I T))
  pub pos : ℕ
  pub window_size : ℕ

-- `newSeq`: empty slots.
pub empty_slots : {I T : Type 0} → ℕ → List (List (CacheEntry I T))
empty_slots zero = []
empty_slots (suc n) = [] ∷ empty_slots n

-- `none` is a failed assertion.
pub init : {I T M : Type 0} → ℕ → ℕ → Option (MCache I T M)
init window history =
    if ltb 0 history
    then some (record { msgs = []; history = empty_slots history; pos = 0; window_size = window })
    else none

module _ {I T : Type 0} (dec : Discrete I) (dec_topic : Discrete T) where
  -- The inner loop: the entries of one slot.
  pub collect : T → List (CacheEntry I T) → List I → List I
  collect topic [] ids = ids
  collect topic (e ∷ es) ids =
      collect topic es (if eqb dec_topic e.topic topic then incl dec e.msg_id ids else ids)

module _ {I T M : Type 0} (dec : Discrete I) where
  pub get : MCache I T M → I → Option M
  get c msg_id = if has_key dec msg_id c.msgs then lookup dec msg_id c.msgs else none

  abbrev pub contains : MCache I T M → I → Bool
  contains c msg_id = has_key dec msg_id c.msgs

  -- `none` is an index out of bounds.
  pub put : (M → T) → MCache I T M → I → M → Option (MCache I T M)
  put topic c msg_id msg =
      if has_key dec msg_id c.msgs then some c else elim (get_elem? c.history c.pos) [
        | none ↦ none
        | some slot ↦ some (record c {
          msgs = insert dec msg_id msg c.msgs;
          history =
              set c.history c.pos (slot ++ record { msg_id = msg_id; topic = topic msg } ∷ []);
        })
      ]

  pub del_entries : List (CacheEntry I T) → List (I × M) → List (I × M)
  del_entries [] msgs = msgs
  del_entries (e ∷ es) msgs = del_entries es (del dec e.msg_id msgs)

  -- `none` is a remainder by zero, or an index out of bounds.
  pub shift : MCache I T M → Option (MCache I T M)
  shift c =
      let pos = (c.pos + 1) % length c.history in
      if ltb 0 (length c.history)
      then elim (get_elem? c.history pos) [
        | none ↦ none
        | some slot ↦
            some (record c {
              pos = pos;
              msgs = del_entries slot c.msgs;
              history = set c.history pos [];
            })
      ]
      else none

  module _ (dec_topic : Discrete T) where
    -- The outer loop, from `i` on with `left` rounds to go.
    pub window_loop : MCache I T M → T → ℕ → ℕ → List I → Option (List I)
    window_loop c topic zero i ids = some ids
    window_loop c topic (suc left) i ids =
        elim (get_elem? c.history ((c.pos + length c.history - i) % length c.history)) [
          | none ↦ none
          | some slot ↦ window_loop c topic left (i + 1) (collect dec dec_topic topic slot ids)
        ]

    pub window : MCache I T M → T → Option (List I)
    window c topic = window_loop c topic (min c.window_size (length c.history)) 0 []
