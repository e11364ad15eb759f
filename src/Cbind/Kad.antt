-- ===== src/Cbind/Kad.antt =====
-- cbind/examples/kad.c: a server stores a value and provides a CID, and a client that knows it
-- as its bootstrap node fetches the value and finds the provider.
use nim_libp2p.Common.{
  ℕ, Bool, true, false, List, [], ◌∷◌, Option, none, some, if◌then◌else◌, ◌||◌, not,
}
use nim_libp2p.Cbind.Binding.{
  Bytes, codes, mplex, BootstrapNode, start, stop, kad_put_value, kad_get_value, create_cid,
  kad_start_providing, kad_get_providers, Answer,
}
use nim_libp2p.Cbind.Program.{Program, ◌>>=◌, ◌>>◌, pure, report, destroy, on_true, on_some, both}
use nim_libp2p.Cbind.Waiters.{
  Waiter, PeerInfoWaiter, filled, snprintf, copied_all, copied_bytes, await, await_call,
  await_create, await_peerinfo, await_connect, equal,
}

unfoldable pub value_key : Bytes
value_key = codes "/cbind/kad/demo-key"

unfoldable pub value_data : Bytes
value_data = codes "hello kademlia"

unfoldable pub cid_data : Bytes
cid_data = codes "cbind-kad"

unfoldable pub on_cid : Answer (Option Bytes) → Waiter Bytes → Waiter Bytes
on_cid = filled (λ r cid. elim r [ none ↦ cid | some text ↦ snprintf 256 text ])

unfoldable pub on_value : Answer (Option Bytes) → Waiter Bytes → Waiter Bytes
on_value = filled (copied_bytes 512)

unfoldable pub on_providers :
    Answer (List (Option Bytes)) → Waiter (List Bytes) → Waiter (List Bytes)
on_providers = filled (λ r _. copied_all 8 128 r)

unfoldable pub bootstrap : Option PeerInfoWaiter → List BootstrapNode
bootstrap none = []
bootstrap (some info) = record { peer_id = info.peer_id; multiaddrs = info.addrs } ∷ []

unfoldable pub kad_node : Bytes → Bytes → Option PeerInfoWaiter → Program (Option ℕ)
kad_node listen_addr label boot =
    await_create
      (record {
        addrs = listen_addr ∷ [];
        muxer = mplex;
        mount_kad = true;
        mount_service_discovery = false;
        gossipsub = none;
        circuit_relay = false;
        circuit_relay_client = false;
        bootstrap_nodes = bootstrap boot;
        max_connections = 0;
        max_in = 0;
        max_out = 0;
        max_conns_per_peer = 0;
      })
      label

-- The loop over the providers.
unfoldable pub is_provider : List Bytes → Bytes → Bool
is_provider [] server = false
is_provider (p ∷ ps) server = equal p server || is_provider ps server

-- The provider round trip, up to the label `cleanup_client`.
unfoldable pub find_provider : ℕ → ℕ → PeerInfoWaiter → Program ℕ
find_provider server client server_info =
    on_some
      (await (create_cid (codes "raw") (codes "sha2-256") cid_data) on_cid [] (codes "create_cid"))
      1
      (λ cid. on_true (await_call (kad_start_providing server cid) (codes "start_providing")) 1 (
        on_some (await (kad_get_providers client cid) on_providers [] (codes "get_providers")) 1
          (λ pw.
            if is_provider pw server_info.peer_id
            then pure 0
            else (do report (codes "Error") (codes "server not found among providers"); pure 1))))

-- The value round trip, and what follows it.
unfoldable pub exchange : ℕ → ℕ → PeerInfoWaiter → Program ℕ
exchange server client server_info =
    on_true
      (both (await_call (start client) (codes "start client")) (await_connect client server_info)) 1
      (on_true (await_call (kad_put_value server value_key value_data) (codes "put_value")) 1 (
        on_some (await (kad_get_value client value_key 1) on_value [] (codes "get_value")) 1 (λ vw.
          if not (equal vw value_data)
          then (do report (codes "Error") (codes "fetched value does not match"); pure 1)
          else find_provider server client server_info)))

unfoldable pub run_client : ℕ → ℕ → PeerInfoWaiter → Program ℕ
run_client server client server_info = do
  status ← exchange server client server_info
  await_call (stop client) (codes "stop client")
  destroy (some client)
  pure status

-- From the start of the server to the label `cleanup_server`.
unfoldable pub serve : ℕ → Program ℕ
serve server = on_true (await_call (start server) (codes "start server")) 1 (
    on_some (await_peerinfo server (codes "server peerinfo")) 1 (λ server_info.
      on_some (kad_node (codes "/ip4/127.0.0.1/tcp/5032") (codes "client") (some server_info)) 1
        (λ client. run_client server client server_info)))

unfoldable pub run_server : ℕ → Program ℕ
run_server server = do
  status ← serve server
  await_call (stop server) (codes "stop server")
  destroy (some server)
  pure status

unfoldable pub main : Program ℕ
main = on_some (kad_node (codes "/ip4/127.0.0.1/tcp/5031") (codes "server") none) 1 run_server
