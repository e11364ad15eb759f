-- ===== src/Cbind/Contexts/Nodes.antt =====
-- Ownership where a program of cbind/examples creates several nodes, and destroys those that it
-- got if it did not get all.
use nim_libp2p.Common.{refl, ℕ, List, [], ◌∷◌, Option, none, some}
use nim_libp2p.Cbind.Binding.{Bytes, Binding, stop}
use nim_libp2p.Cbind.Program.{Program, ◌>>◌, pure, destroy, with_two, with_three}
use nim_libp2p.Cbind.Contexts.{Owns}
use nim_libp2p.Cbind.Contexts.Rules.{
  Owns-bind, Keeps-pure, Owns-destroy, Owns-destroy_next, Keeps-destroy_null,
}
use nim_libp2p.Cbind.Contexts.Waiters.{created, Keeps-await_call, is_owned_first}
use nim_libp2p.Cbind.Waiters.{await_call}

module _ {A : Type 0} (b : Binding) where
  -- A context that may be NULL is destroyed: one that is not, and that was created last.
  Owns-destroy-created :
      {L : List ℕ} (h : Option ℕ) (rest : Program A)
      → Owns b L rest (λ _. [])
      → Owns b (created L h) (destroy h >> rest) (λ _. [])
  Owns-destroy-created {L = L} none rest o = Owns-bind _ _ (λ _. L) _ Keeps-destroy_null (λ _. o)
  Owns-destroy-created {L = L} (some h) rest o = Owns-bind _ _ (λ _. L) _ (Owns-destroy h) (λ _. o)

  Owns-pure_end : (x : A) → Owns b [] (pure x) (λ _. [])
  Owns-pure_end x = Keeps-pure x

  pub Owns-with_two :
      (g h : Option ℕ) (rest : ℕ → ℕ → Program A) (x : A)
      → ((g h : ℕ) → Owns b (h ∷ g ∷ []) (rest g h) (λ _. []))
      → Owns b
          (created (created [] g) h)
          (with_two g h rest (destroy g >> (destroy h >> pure x)))
          (λ _. [])
  unfolding with_two
  Owns-with_two none h rest x r =
      Owns-bind _ _ (λ _. created [] h) _ Keeps-destroy_null
        (λ _. Owns-destroy-created h _ (Owns-pure_end x))
  Owns-with_two (some g) none rest x r =
      Owns-destroy-created (some g) _ (Owns-destroy-created none _ (Owns-pure_end x))
  Owns-with_two (some g) (some h) rest x r = r g h

  -- Two contexts that may be NULL are destroyed in the order of their creation.
  Owns-destroy_two :
      (g h : Option ℕ) (x : A)
      → Owns b (created (created [] g) h) (destroy g >> (destroy h >> pure x)) (λ _. [])
  Owns-destroy_two none h x =
      Owns-bind _ _ (λ _. created [] h) _ Keeps-destroy_null
        (λ _. Owns-destroy-created h _ (Owns-pure_end x))
  Owns-destroy_two (some g) none x =
      Owns-destroy-created (some g) _ (Owns-destroy-created none _ (Owns-pure_end x))
  Owns-destroy_two (some g) (some h) x =
      Owns-bind _ _ (λ _. h ∷ []) _ (Owns-destroy_next h g)
        (λ _. Owns-destroy-created (some h) _ (Owns-pure_end x))

  pub Owns-with_three :
      (f g h : Option ℕ) (rest : ℕ → ℕ → ℕ → Program A) (x : A)
      → ((f g h : ℕ) → Owns b (h ∷ g ∷ f ∷ []) (rest f g h) (λ _. []))
      → Owns b
          (created (created (created [] f) g) h)
          (with_three f g h rest (destroy f >> (destroy g >> (destroy h >> pure x))))
          (λ _. [])
  unfolding with_three
  Owns-with_three none g h rest x r =
      Owns-bind _ _ (λ _. created (created [] g) h) _ Keeps-destroy_null
        (λ _. Owns-destroy_two g h x)
  Owns-with_three (some f) none h rest x r =
      Owns-bind _ _ (λ _. created [] h) _ (first h) (λ _. Owns-destroy_two none h x)
    where
      first : (h : Option ℕ) → Owns b (created (f ∷ []) h) (destroy (some f)) (λ _. created [] h)
      first none = Owns-destroy f
      first (some h) = Owns-destroy_next h f
  Owns-with_three (some f) (some g) none rest x r =
      Owns-bind _ _ (λ _. g ∷ []) _ (Owns-destroy_next g f) (λ _. Owns-destroy_two (some g) none x)
  Owns-with_three (some f) (some g) (some h) rest x r = r f g h

-- The end of a cleanup: a node is stopped and destroyed.
module _ {b : Binding} {L : List ℕ} where
  pub Owns-stop-destroy :
      (h : ℕ) (label : Bytes) (status : ℕ)
      → Owns b (h ∷ L) (await_call (stop h) label >> (destroy (some h) >> pure status)) (λ _. L)
  Owns-stop-destroy h label status =
      Owns-bind _ _ (λ _. h ∷ L) _
        (Keeps-await_call (stop h) label (is_owned_first h L) (λ a. refl))
        (λ _. Owns-bind _ _ (λ _. L) _ (Owns-destroy h) (λ _. Keeps-pure status))
