-- ===== src/Muxers/Yamux/Session/Flushed.antt =====
-- libp2p/muxers/yamux/yamux.nim: the queue of the remembered streams holds each of them, so that the
-- table of them is no longer than the queue.
use nim_libp2p.Common.{
  ℕ, suc, ◌+◌, ◌≤◌, ◌≡◌, refl, arith, true, false, List, [], ◌∷◌, ◌++◌, length, ltb, not, eqb,
  ℕ_discrete, if◌then◌else◌, Bool-cases, inl, inr,
}
use nim_libp2p.Common.Sets.{contains, contains-append}
use nim_libp2p.Common.Table
use nim_libp2p.Muxers.Yamux.Session.{delete_first, drop_oldest}

-- Every remembered stream is in the queue.
pub record AreTracked (order : List ℕ) (flushed : List (ℕ × ℕ)) : Type 0 where
  pub distinct : Table.Distinct ℕ_discrete flushed
  pub covered :
      (id : ℕ) → Table.has_key ℕ_discrete id flushed ≡ true → contains ℕ_discrete id order ≡ true

pub AreTracked-nil : AreTracked [] []
unfolding Table.lookup
AreTracked-nil = record { distinct = tt; covered = λ id h. absurd (ground arith) }

contains-delete_first :
    (id x : ℕ) (xs : List ℕ)
    → eqb ℕ_discrete id x ≡ false
    → contains ℕ_discrete id (delete_first x xs) ≡ contains ℕ_discrete id xs
unfolding delete_first contains
contains-delete_first id x [] h = refl
contains-delete_first id x (y ∷ ys) h = ground (arith, contains-delete_first id x ys h)

length-delete_first :
    (x : ℕ) (xs : List ℕ)
    → contains ℕ_discrete x xs ≡ true
    → length (delete_first x xs) + 1 ≡ length xs
unfolding delete_first contains
length-delete_first x [] h = ground arith
length-delete_first x (y ∷ ys) h = ground (arith, length-delete_first x ys)

-- So the table has no more entries than the queue.
pub AreTracked-length :
    (order : List ℕ) (flushed : List (ℕ × ℕ))
    → AreTracked order flushed
    → length flushed ≤ length order
unfolding Table.lookup
AreTracked-length order [] v = omega arith
AreTracked-length order ((k, n) ∷ t) v =
    let here : contains ℕ_discrete k order ≡ true = v.covered k (ground arith) in
    let rest : AreTracked (delete_first k order) t = record {
      distinct = v.distinct.1;
      covered =
          λ id h. ground (arith, h, v.distinct.0, v.covered id, contains-delete_first id k order);
    } in
    omega (arith, AreTracked-length (delete_first k order) t rest, length-delete_first k order here)

pub AreTracked-forget :
    (id : ℕ) (order : List ℕ) (flushed : List (ℕ × ℕ))
    → AreTracked order flushed
    → AreTracked (delete_first id order) (Table.del ℕ_discrete id flushed)
AreTracked-forget id order flushed v = record {
  distinct = Table.del-Distinct ℕ_discrete id flushed v.distinct;
  covered = λ j h. ground (
    arith,
    h,
    v.covered j,
    Table.lookup-del ℕ_discrete j id flushed,
    contains-delete_first j id order,
  );
}

pub AreTracked-drop_oldest :
    (limit : ℕ) (order : List ℕ) (flushed : List (ℕ × ℕ))
    → AreTracked order flushed
    → AreTracked (drop_oldest limit order flushed).0 (drop_oldest limit order flushed).1
unfolding drop_oldest contains
AreTracked-drop_oldest limit [] flushed v = v
AreTracked-drop_oldest limit (x ∷ order) flushed v =
    elim (Bool-cases (ltb limit (suc (length order)))) [
      | inl more ↦
          rw (more, drop_oldest)
            (AreTracked-drop_oldest limit order (Table.del ℕ_discrete x flushed) (record {
              distinct = Table.del-Distinct ℕ_discrete x flushed v.distinct;
              covered =
                  λ j h. ground (arith, h, v.covered j, Table.lookup-del ℕ_discrete j x flushed);
            }))
      | inr few ↦ rw (few, drop_oldest) v
    ]

pub AreTracked-insert :
    (id n : ℕ) (order : List ℕ) (flushed : List (ℕ × ℕ))
    → AreTracked order flushed
    → AreTracked
        (if not (Table.has_key ℕ_discrete id flushed) then order ++ id ∷ [] else order)
        (Table.insert ℕ_discrete id n flushed)
unfolding contains
AreTracked-insert id n order flushed v = record {
  distinct = Table.insert-Distinct ℕ_discrete id n flushed v.distinct;
  covered = λ j h. ground (
    arith,
    h,
    v.covered j,
    Table.lookup-insert ℕ_discrete j id n flushed,
    contains-append ℕ_discrete j order (id ∷ []),
  );
}

-- A remembered stream gets another window.
pub AreTracked-again :
    (id n : ℕ) (order : List ℕ) (flushed : List (ℕ × ℕ))
    → Table.has_key ℕ_discrete id flushed ≡ true
    → AreTracked order flushed
    → AreTracked order (Table.insert ℕ_discrete id n flushed)
AreTracked-again id n order flushed here v = record {
  distinct = Table.insert-Distinct ℕ_discrete id n flushed v.distinct;
  covered =
      λ j h. ground (arith, h, here, v.covered j, Table.lookup-insert ℕ_discrete j id n flushed);
}
