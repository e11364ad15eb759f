-- ===== src/Cbind/Status/Shown/ServiceDisco.antt =====
-- What the lookups of cbind/examples/service_disco.c were told when they find the provider.
use nim_libp2p.Common.{
  ℕ, zero, suc, ◌≡◌, refl, arith, Bool, true, false, List, [], ◌∷◌, Option, none, some, ◌&&◌, ◌||◌,
  take, map,
}
use nim_libp2p.Cbind.Binding.{
  Bytes, codes, Binding, Call, Reply, Answer, is_ok, service_disco_lookup,
}
use nim_libp2p.Cbind.Program.{Globals, pure, report, pause, ◌>>◌}
use nim_libp2p.Cbind.Waiters.{equal, filled}
use nim_libp2p.Cbind.ServiceDisco.{
  Found, found, round_tripped, service_id, service_data, on_records, attempt, lookup_provider,
}
use nim_libp2p.Cbind.Status.{Passes, Passing, Asks}
use nim_libp2p.Cbind.Status.Rules.{Passes-bind_kept, Passes-pure, Passes-pause}
use nim_libp2p.Cbind.Status.Waiters.{Passes-failed}
use nim_libp2p.Cbind.Status.Shown.{shown, shown-IsSteady, Passes-tested}

-- Some record is of the provider, and advertises the service with its data.
unfoldable pub has_provider : Bytes → List Found → Bool
has_provider id [] = false
has_provider id (r ∷ rs) =
    (r.advertises && (equal r.peer_id id && equal r.data_bytes service_data)) || has_provider id rs

-- A lookup without an error, with such a record among the first 32.
abbrev pub is_found : Bytes → (c : Call) → Answer (Reply c) → Bool
is_found id (service_disco_lookup _ _) a =
    is_ok a.code && has_provider id (elim a.reply [ none ↦ [] | some r ↦ map found (take 32 r) ])
is_found id c a = false

abbrev pub is_sure : Option Bool → Bool
is_sure none = false
is_sure (some t) = t

-- The loop over the records says that there is one.
round_tripped-has_provider :
    (id : Bytes) (rs : List Found)
    → is_sure (round_tripped rs id) ≡ true
    → has_provider id rs ≡ true
unfolding round_tripped has_provider
round_tripped-has_provider id [] h = absurd (ground arith)
round_tripped-has_provider id (r ∷ rs) h = ground (arith, round_tripped-has_provider id rs)

Asks-found :
    (seeker : ℕ) (id : Bytes)
    → Asks (shown (is_found id)) (service_disco_lookup seeker service_id) false (λ a.
      is_ok a.code
      && is_sure (round_tripped (elim a.reply [ none ↦ [] | some r ↦ map found (take 32 r) ]) id))
unfolding shown
Asks-found seeker id a log before f =
    go (is_ok a.code) (elim a.reply [ none ↦ [] | some r ↦ map found (take 32 r) ]) f
  where
    go :
        (c : Bool) (rs : List Found)
        → (c && is_sure (round_tripped rs id)) ≡ true
        → ((c && has_provider id rs) || shown (is_found id) log) ≡ true
    go true rs h = rw (round_tripped-has_provider id rs h)
    go false rs h = absurd (ground arith)

module _ {b : Binding} (seeker : ℕ) (id : Bytes) where
  attempt-shown : (n : ℕ) → Passes (shown (is_found id)) b false (attempt n seeker id) (λ ok. ok)
  unfolding attempt on_records filled
  attempt-shown zero = Passes-failed (shown-IsSteady (is_found id)) false _ _ false (λ ok. ok) refl
  attempt-shown (suc n) =
      Passes-tested (is_found id) (service_disco_lookup seeker service_id) on_records [] _
        (λ v. is_sure (round_tripped v id)) false _ (λ ok. ok) refl (Asks-found seeker id)
        (λ v. next (round_tripped v id) (attempt-shown n))
    where
      next :
          (r : Option Bool)
          → Passes (shown (is_found id)) b false (attempt n seeker id) (λ ok. ok)
          → Passes
              (shown (is_found id))
              b
              (is_sure r)
              (elim r [
                | none ↦ pause >> attempt n seeker id
                | some true ↦ pure true
                | some false ↦
                    (report (codes "Error") (codes "service data did not round-trip") >> pure false)
              ])
              (λ ok. ok)
      next none h = Passes-bind_kept _ _ _ (Passes-pause (shown-IsSteady (is_found id))) (λ _. h)
      next (some true) h = Passes-pure true _
      next (some false) h =
          Passes-failed (shown-IsSteady (is_found id)) false _ _ false (λ ok. ok) refl

-- Whatever the binding answers, a lookup that returns true got, within its attempts, an answer without
-- an error in which a record among the first 32 is of the provider, and advertises the service with
-- its data.
pub lookup_provider-shown :
    (b : Binding) (g : Globals) (seeker : ℕ) (id : Bytes)
    → Passing
        (shown (is_found id))
        (λ ok. ok)
        (lookup_provider seeker id b (record { log = []; globals = g }))
unfolding lookup_provider
lookup_provider-shown b g seeker id =
    (attempt-shown seeker id 30).at (record { log = []; globals = g }) (λ e. absurd (ground arith))
