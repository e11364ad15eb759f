-- ===== src/Cbind/ServiceDisco.antt =====
-- cbind/examples/service_disco.c: a provider advertises a service, and a seeker looks it up
-- until it finds it.
use nim_libp2p.Common.{
  ℕ, zero, suc, Bool, true, false, List, [], ◌∷◌, map, take, Option, none, some, if◌then◌else◌,
  ◌&&◌, not,
}
use nim_libp2p.Cbind.Binding.{
  Bytes, codes, is_ok, mplex, ExtendedPeerRecord, ServiceInfo, start, stop, service_disco_start,
  service_disco_start_advertising, service_disco_lookup, Answer,
}
use nim_libp2p.Cbind.Program.{
  Program, ◌>>=◌, ◌>>◌, pure, pause, call, report, destroy, on_true, on_some, both,
}
use nim_libp2p.Cbind.Waiters.{
  Waiter, PeerInfoWaiter, bool_waiter, on_bool, filled, copied, snprintf, await, await_call,
  await_create, await_peerinfo, await_connect, equal, is_within, c_string,
}
use nim_libp2p.Cbind.Kad.{bootstrap}

unfoldable pub service_id : Bytes
service_id = codes "/cbind/disco/demo-service"

unfoldable pub service_data : Bytes
service_data = codes "demo-payload"

-- One record of the waiter: an element of `peerIds`, `advertises` and `serviceData`.
pub record Found : Type 0 where
  pub peer_id : Bytes
  pub advertises : Bool
  pub data_bytes : Bytes

unfoldable pub is_service : Option Bytes → Bool
is_service none = false
is_service (some id) = equal id service_id

-- `copyServiceData` into a zeroed buffer: whether the service was found, and its data.
unfoldable pub copy_service_data : List ServiceInfo → Bool × Bytes
copy_service_data [] = (false, [])
copy_service_data (s ∷ services) =
    let rest = copy_service_data services in
    if is_service s.id
    then (true, elim s.data_bytes [ none ↦ [] | some payload ↦ snprintf 128 (c_string payload) ])
    else rest

unfoldable pub found : ExtendedPeerRecord → Found
found r =
    let (advertises, data_bytes) = copy_service_data r.services in
    record { peer_id = copied 128 r.peer_id []; advertises = advertises; data_bytes = data_bytes }

unfoldable pub on_records :
    Answer (List ExtendedPeerRecord) → Waiter (List Found) → Waiter (List Found)
on_records = filled (λ r _. map found (take 32 r))

unfoldable pub disco_node : Bytes → Bytes → Option PeerInfoWaiter → Program (Option ℕ)
disco_node listen_addr label boot =
    await_create
      (record {
        addrs = listen_addr ∷ [];
        muxer = mplex;
        mount_kad = false;
        mount_service_discovery = true;
        gossipsub = none;
        circuit_relay = false;
        circuit_relay_client = false;
        bootstrap_nodes = bootstrap boot;
        max_connections = 0;
        max_in = 0;
        max_out = 0;
        max_conns_per_peer = 0;
      })
      label

-- The loop over the records: whether the first one of the provider that advertises the service has
-- the data; `none` when there is no such record.
unfoldable pub round_tripped : List Found → Bytes → Option Bool
round_tripped [] provider_id = none
round_tripped (r ∷ rs) provider_id =
    let rest = round_tripped rs provider_id in
    if r.advertises && equal r.peer_id provider_id
    then some (equal r.data_bytes service_data)
    else rest

-- The loop of `lookupProvider`, with the attempts that are left.
unfoldable pub attempt : ℕ → ℕ → Bytes → Program Bool
attempt zero seeker provider_id = do
  report (codes "Error") (codes "provider never showed up in a lookup")
  pure false
attempt (suc n) seeker provider_id =
    on_some (await (service_disco_lookup seeker service_id) on_records [] (codes "lookup")) false
      (λ rw. elim (round_tripped rw provider_id) [
        | none ↦ pause >> attempt n seeker provider_id
        | some true ↦ pure true
        | some false ↦ (do
          report (codes "Error") (codes "service data did not round-trip")
          pure false)
      ])

unfoldable pub lookup_provider : ℕ → Bytes → Program Bool
lookup_provider = attempt 30

-- The call must fail, and say that the switch is not started.
unfoldable pub rejects_disco_before_start : ℕ → Program Bool
rejects_disco_before_start ctx = do
  a ← call (service_disco_start ctx)
  let bw = on_bool a bool_waiter
  if is_ok bw.err_code
      then (do
        report (codes "Error") (codes "service_disco_start succeeded before ctx_start")
        pure false)
      else (if not (is_within (codes "switch not started") bw.err)
          then (do report (codes "Error: expected the not-started guard, got") bw.err; pure false)
          else pure true)

unfoldable pub exchange : ℕ → ℕ → PeerInfoWaiter → Program ℕ
exchange provider seeker provider_info =
    on_true
      (both (await_call (start seeker) (codes "start seeker")) (await_connect seeker provider_info))
      1
      (on_true
        (await_call (service_disco_start_advertising provider service_id service_data)
          (codes "start_advertising"))
        1 (on_true (lookup_provider seeker provider_info.peer_id) 1 (pure 0)))

unfoldable pub run_seeker : ℕ → ℕ → PeerInfoWaiter → Program ℕ
run_seeker provider seeker provider_info = do
  status ← exchange provider seeker provider_info
  await_call (stop seeker) (codes "stop seeker")
  destroy (some seeker)
  pure status

-- Up to the label `cleanup_provider`.
unfoldable pub advertise : ℕ → Program ℕ
advertise provider = on_true (rejects_disco_before_start provider) 1 (
    on_true (await_call (start provider) (codes "start provider")) 1 (
      on_some (await_peerinfo provider (codes "provider peerinfo")) 1 (λ provider_info.
        on_some (disco_node (codes "/ip4/127.0.0.1/tcp/5042") (codes "seeker") (some provider_info))
          1 (λ seeker. run_seeker provider seeker provider_info))))

unfoldable pub run_provider : ℕ → Program ℕ
run_provider provider = do
  status ← advertise provider
  await_call (stop provider) (codes "stop provider")
  destroy (some provider)
  pure status

unfoldable pub main : Program ℕ
main = on_some (disco_node (codes "/ip4/127.0.0.1/tcp/5041") (codes "provider") none) 1 run_provider
