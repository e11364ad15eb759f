-- ===== src/Cbind/Relay.antt =====
-- cbind/examples/relay.c: a source reaches a destination over a relay on which the destination
-- has a reservation. The waiters and callbacks of streams are those of echo.c.
use nim_libp2p.Common.{
  ℕ, Bool, true, false, List, [], ◌∷◌, ◌++◌, Option, none, some, if◌then◌else◌, ◌==◌, not, length,
}
use nim_libp2p.Cbind.Binding.{
  Bytes, codes, mplex, start, stop, mount_protocol, connect, circuit_relay_reserve,
  dial_circuit_relay, stream_read_lp, stream_write_lp, stream_release, listened,
}
use nim_libp2p.Cbind.Program.{
  Program, ◌>>=◌, ◌>>◌, pure, gets, note, wait_flag, report, destroy, on_true, on_some, both,
  with_three,
}
use nim_libp2p.Cbind.Waiters.{
  PeerInfoWaiter, snprintf, await, await_call, await_create, await_peerinfo, equal,
}
use nim_libp2p.Cbind.Echo.{on_read, on_dial}

unfoldable pub relay_proto : Bytes
relay_proto = codes "/cbind/relay/1.0.0"

unfoldable pub create_node : Bytes → Bytes → Bool → Program (Option ℕ)
create_node addr label client =
    await_create
      (record {
        addrs = addr ∷ [];
        muxer = mplex;
        mount_kad = false;
        mount_service_discovery = false;
        gossipsub = none;
        circuit_relay = not client;
        circuit_relay_client = client;
        bootstrap_nodes = [];
        max_connections = 0;
        max_in = 0;
        max_out = 0;
        max_conns_per_peer = 0;
      })
      label

-- `snprintf(circuit, sizeof(circuit), "%s/p2p/%s/p2p-circuit", ...)`.
unfoldable pub circuit_address : List Bytes → Bytes → Bytes
circuit_address [] peer_id = snprintf 512 (codes "/p2p/" ++ peer_id ++ codes "/p2p-circuit")
circuit_address (addr ∷ addrs) peer_id =
    snprintf 512 (addr ++ codes "/p2p/" ++ peer_id ++ codes "/p2p-circuit")

unfoldable pub message : Bytes
message = codes "hello over the relay"

-- The destination serves its stream: from the wait for it to the label `cleanup`.
unfoldable pub receive : ℕ → Program ℕ
receive dst = do
  wait_flag (λ g. g.have_stream)
  stream_id ← gets (λ g. g.stream_id)
  on_some (await (stream_read_lp dst stream_id 4096) on_read [] (codes "dst read")) 1 (λ rw. do
    let matched = equal rw message
    if matched then pure tt else report (codes "Error") (codes "relayed message did not match")
    release_id ← gets (λ g. g.stream_id)
    await_call (stream_release dst release_id) (codes "dst release")
    pure (if matched then 0 else 1))

-- From the dial over the relay on.
unfoldable pub send : ℕ → ℕ → PeerInfoWaiter → PeerInfoWaiter → Program ℕ
send dst src relay_info dst_info =
    on_some
      (await
        (dial_circuit_relay src dst_info.peer_id
          (circuit_address relay_info.addrs relay_info.peer_id) relay_proto)
        on_dial 0 (codes "dial_circuit_relay"))
      1
      (λ stream_id.
        on_true (await_call (stream_write_lp src stream_id message) (codes "write")) 1
          (receive dst))

-- The destination's reservation, and what follows it.
unfoldable pub reserve : ℕ → ℕ → PeerInfoWaiter → PeerInfoWaiter → Program ℕ
reserve dst src relay_info dst_info =
    if length (relay_info.addrs) == 0
    then pure 1
    else (on_true
        (await_call (connect dst relay_info.peer_id relay_info.addrs) (codes "dst -> relay")) 1
        (on_true
          (await_call (circuit_relay_reserve dst relay_info.peer_id relay_info.addrs)
            (codes "reserve"))
          1 (send dst src relay_info dst_info)))

unfoldable pub started : ℕ → ℕ → ℕ → Program Bool
started relay dst src = both (await_call (mount_protocol dst relay_proto) (codes "mount")) (
    both (await_call (start relay) (codes "start relay")) (
      both (await_call (start dst) (codes "start dst"))
        (await_call (start src) (codes "start src"))))

unfoldable pub exchange : ℕ → ℕ → ℕ → Program ℕ
exchange relay dst src =
    note (listened dst)
    >> on_true (started relay dst src) 1 (
        on_some (await_peerinfo relay (codes "relay peerinfo")) 1 (λ relay_info.
          on_some (await_peerinfo dst (codes "dst peerinfo")) 1
            (λ dst_info. reserve dst src relay_info dst_info)))

unfoldable pub run : ℕ → ℕ → ℕ → Program ℕ
run relay dst src = do
  status ← exchange relay dst src
  await_call (stop src) (codes "stop src")
  await_call (stop dst) (codes "stop dst")
  await_call (stop relay) (codes "stop relay")
  destroy (some src)
  destroy (some dst)
  destroy (some relay)
  pure status

unfoldable pub main : Program ℕ
main = do
  relay ← create_node (codes "/ip4/127.0.0.1/tcp/5061") (codes "relay") false
  dst ← create_node (codes "/ip4/127.0.0.1/tcp/5062") (codes "dst") true
  src ← create_node (codes "/ip4/127.0.0.1/tcp/5063") (codes "src") true
  with_three relay dst src run (do destroy relay; destroy dst; destroy src; pure 1)
