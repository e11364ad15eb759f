-- ===== src/Cbind/Status/ServiceDisco.antt =====
-- Passed requests of cbind/examples/service_disco.c.
use nim_libp2p.Common.{
  ℕ, zero, suc, refl, Bool, true, false, Option, none, some, not, if◌then◌else◌,
}
use nim_libp2p.Cbind.Binding.{Bytes, codes, Binding, is_ok, service_disco_start}
use nim_libp2p.Cbind.Program.{◌>>◌, pure, pause, report}
use nim_libp2p.Cbind.Waiters.{PeerInfoWaiter, filled, bool_waiter, on_bool, is_within}
use nim_libp2p.Cbind.ServiceDisco
use nim_libp2p.Cbind.Status.{passed, all_passed, all_passed-IsSteady, Asks-passed, Passes}
use nim_libp2p.Cbind.Status.Rules.{
  Passes-bind, Passes-bind_kept, Passes-pure, Passes-pure_failed, Passes-on_some, Passes-report,
  Passes-pause,
}
use nim_libp2p.Cbind.Status.Waiters.{passed_rules, Passes-call}
use nim_libp2p.Cbind.Status.Nodes.{is_zero, Passes-pure_status}

module _ {b : Binding} where
  disco_attempt :
      (n c : ℕ) (id : Bytes) → Passes all_passed b true (ServiceDisco.attempt n c id) (λ ok. ok)
  unfolding ServiceDisco.attempt ServiceDisco.on_records filled
  disco_attempt zero c id = search passed_rules depth 10
  disco_attempt (suc n) c id =
      Passes-on_some _ _ _ _ (search passed_rules) refl
        (λ rw. go (ServiceDisco.round_tripped rw id) (disco_attempt n c id))
    where
      go :
          (r : Option Bool)
          → Passes all_passed b true (ServiceDisco.attempt n c id) (λ ok. ok)
          → Passes all_passed b true
              (elim r [
                | none ↦ pause >> ServiceDisco.attempt n c id
                | some true ↦ pure true
                | some false ↦
                    (report (codes "Error") (codes "service data did not round-trip") >> pure false)
              ])
              (λ ok. ok)
      go none h = Passes-bind_kept _ _ _ (Passes-pause all_passed-IsSteady) (λ _. h)
      go (some true) h = Passes-pure true _
      go (some false) h =
          Passes-bind_kept _ _ _ (Passes-report all_passed-IsSteady _ _) (λ _. Passes-pure false _)

  disco_rejects :
      (p : ℕ) → Passes all_passed b true (ServiceDisco.rejects_disco_before_start p) (λ ok. ok)
  unfolding ServiceDisco.rejects_disco_before_start on_bool
  disco_rejects p =
      Passes-bind _ _ (passed (service_disco_start p)) _
        (Passes-call (service_disco_start p) true _ (Asks-passed (service_disco_start p)))
        (λ a.
          go (is_ok a.code) (is_within (codes "switch not started") (on_bool a bool_waiter).err)
            (on_bool a bool_waiter).err)
    where
      go :
          (o i : Bool) (err : Bytes)
          → Passes all_passed b
              (not o)
              (if o
                then (report
                      (codes "Error")
                      (codes "service_disco_start succeeded before ctx_start")
                    >> pure false)
                else (if not i
                    then (report (codes "Error: expected the not-started guard, got") err
                        >> pure false)
                    else pure true))
              (λ ok. ok)
      go true i err =
          Passes-bind_kept _ _ _ (Passes-report all_passed-IsSteady _ _)
            (λ _. Passes-pure_failed false _ false refl)
      go false i err = search passed_rules depth 20

  disco_lookup :
      (c : ℕ) (id : Bytes) → Passes all_passed b true (ServiceDisco.lookup_provider c id) (λ ok. ok)
  unfolding ServiceDisco.lookup_provider
  disco_lookup c id = disco_attempt 30 c id

  disco_exchange :
      (p s : ℕ) (info : PeerInfoWaiter)
      → Passes all_passed b true (ServiceDisco.exchange p s info) is_zero
  unfolding ServiceDisco.exchange
  disco_exchange p s info = search (passed_rules, disco_lookup) depth 40

  disco_run_seeker :
      (p s : ℕ) (info : PeerInfoWaiter)
      → Passes all_passed b true (ServiceDisco.run_seeker p s info) is_zero
  unfolding ServiceDisco.run_seeker
  disco_run_seeker p s info =
      Passes-bind _ _ is_zero _ (disco_exchange p s info)
        (λ t. search (passed_rules, Passes-pure_status) depth 30)

  disco_run_provider : (p : ℕ) → Passes all_passed b true (ServiceDisco.run_provider p) is_zero
  unfolding ServiceDisco.run_provider ServiceDisco.advertise ServiceDisco.disco_node
  disco_run_provider p =
      Passes-bind _ _ is_zero _ (search (passed_rules, disco_rejects, disco_run_seeker) depth 30)
        (λ t. search (passed_rules, Passes-pure_status) depth 30)

  pub disco_main-Passes : Passes all_passed b true ServiceDisco.main is_zero
  unfolding ServiceDisco.main ServiceDisco.disco_node
  disco_main-Passes = search (passed_rules, disco_run_provider) depth 30
