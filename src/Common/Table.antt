-- ===== src/Common/Table.antt =====
-- Nim's `Table` as an association list in the order in which the source iterates over it. That
-- order is the hash table's; no theorem depends on which one it is.
use nim_libp2p.Common.{
  suc, ◌+◌, ◌≤◌, ◌<◌, ◌≡◌, refl, arith, List, [], ◌∷◌, length, Option, none, some, Bool, is_some,
  if◌then◌else◌,
}
use mathlib.Core.Logic.{ite}

module _ {ℓ} {K V : Type ℓ} (dec : Discrete K) where
  unfoldable pub lookup : K → List (K × V) → Option V
  lookup k [] = none
  lookup k ((j, v) ∷ t) = ite (dec k j) (some v) (lookup k t)

  -- `t[k] = v`: a new key goes to the end.
  unfoldable pub insert : K → V → List (K × V) → List (K × V)
  insert k v [] = (k, v) ∷ []
  insert k v ((j, w) ∷ t) = ite (dec k j) ((k, v) ∷ t) ((j, w) ∷ insert k v t)

  unfoldable pub del : K → List (K × V) → List (K × V)
  del k [] = []
  del k ((j, w) ∷ t) = ite (dec k j) (del k t) ((j, w) ∷ del k t)

  abbrev pub has_key : K → List (K × V) → Bool
  has_key k t = is_some (lookup k t)

  -- No key stands in the table twice.
  abbrev pub Distinct : List (K × V) → Type ℓ
  Distinct [] = Unit
  Distinct ((k, v) ∷ t) = (lookup k t ≡ none) × Distinct t

  pub lookup-insert :
      (j k : K) (v : V) (t : List (K × V))
      → lookup j (insert k v t) ≡ ite (dec j k) (some v) (lookup j t)
  unfolding lookup insert
  lookup-insert j k v [] = refl
  lookup-insert j k v ((i, w) ∷ t) = ground (arith, lookup-insert j k v t)

  pub lookup-insert_self : (k : K) (v : V) (t : List (K × V)) → lookup k (insert k v t) ≡ some v
  lookup-insert_self k v t = ground (arith, lookup-insert k k v t)

  pub lookup-del :
      (j k : K) (t : List (K × V)) → lookup j (del k t) ≡ ite (dec j k) none (lookup j t)
  unfolding lookup del
  lookup-del j k [] = ground arith
  lookup-del j k ((i, w) ∷ t) = ground (arith, lookup-del j k t)

  pub lookup-del_self : (k : K) (t : List (K × V)) → lookup k (del k t) ≡ none
  lookup-del_self k t = ground (arith, lookup-del k k t)

  pub length-insert :
      (k : K) (v : V) (t : List (K × V))
      → length (insert k v t) ≡ (if has_key k t then length t else suc (length t))
  unfolding lookup insert
  length-insert k v [] = refl
  length-insert k v ((i, w) ∷ t) = ground (arith, length-insert k v t)

  pub length-del-le : (k : K) (t : List (K × V)) → length (del k t) ≤ length t
  unfolding del
  length-del-le k [] = omega arith
  length-del-le k ((i, w) ∷ t) = ground (arith, length-del-le k t)

  pub del_absent : (k : K) (t : List (K × V)) → lookup k t ≡ none → del k t ≡ t
  unfolding lookup del
  del_absent k [] e = refl
  del_absent k ((i, w) ∷ t) e = ground (arith, del_absent k t)

  pub length-del-lt :
      (k : K) (t : List (K × V)) (v : V) → lookup k t ≡ some v → length (del k t) < length t
  unfolding lookup del
  length-del-lt k [] v e = ground arith
  length-del-lt k ((i, w) ∷ t) v e = ground (arith, length-del-le k t, length-del-lt k t v)

  pub insert-Distinct : (k : K) (v : V) (t : List (K × V)) → Distinct t → Distinct (insert k v t)
  unfolding insert lookup
  insert-Distinct k v [] d = ground arith
  insert-Distinct k v ((i, w) ∷ t) (new, d) =
      ground (arith, insert-Distinct k v t d, lookup-insert i k v t)

  pub del-Distinct : (k : K) (t : List (K × V)) → Distinct t → Distinct (del k t)
  unfolding del
  del-Distinct k [] d = d
  del-Distinct k ((i, w) ∷ t) (new, d) = ground (arith, del-Distinct k t d, lookup-del i k t)

  -- With distinct keys, a removed key takes one entry with it.
  pub length-del :
      (k : K) (t : List (K × V)) (v : V)
      → Distinct t
      → lookup k t ≡ some v
      → length (del k t) + 1 ≡ length t
  unfolding lookup del
  length-del k [] v d e = ground arith
  length-del k ((i, w) ∷ t) v (new, d) e = ground (arith, del_absent k t, length-del k t v d)
