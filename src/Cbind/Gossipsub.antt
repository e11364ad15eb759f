-- ===== src/Cbind/Gossipsub.antt =====
-- cbind/examples/gossipsub.c: two nodes subscribe to a topic, and one gets what the other
-- publishes.
use nim_libp2p.Common.{ℕ, ◌*◌, Bool, true, false, List, [], ◌∷◌, Option, some, if◌then◌else◌}
use nim_libp2p.Cbind.Binding.{
  Bytes, codes, mplex, start, stop, connect, gossipsub_subscribe, gossipsub_publish, Answer,
  listened,
}
use nim_libp2p.Cbind.Program.{
  Program, ◌>>=◌, ◌>>◌, pure, gets, note, pause, wait_flag, destroy, on_true, on_some, both,
  with_two,
}
use nim_libp2p.Cbind.Waiters.{
  Waiter, filled, await, await_call, await_create, await_peerinfo, equal, c_string,
}

unfoldable pub topic : Bytes
topic = codes "/cbind/demo"

unfoldable pub on_publish : Answer ℕ → Waiter ℕ → Waiter ℕ
on_publish = filled (λ r _. r)

unfoldable pub gossipsub_node : Bytes → Bytes → Program (Option ℕ)
gossipsub_node listen_addr label =
    await_create
      (record {
        addrs = listen_addr ∷ [];
        muxer = mplex;
        mount_kad = false;
        mount_service_discovery = false;
        gossipsub = some (record {
          trigger_self = true;
          max_message_size = 1024 * 1024;
          overhead_bytes = 64 * 1024;
          overhead_interval_ms = 1000;
        });
        circuit_relay = false;
        circuit_relay_client = false;
        bootstrap_nodes = [];
        max_connections = 0;
        max_in = 0;
        max_out = 0;
        max_conns_per_peer = 0;
      })
      label

unfoldable pub message : Bytes
message = codes "hello gossipsub"

-- The loop over the nodes.
unfoldable pub start_all : List ℕ → Program Bool
start_all [] = pure true
start_all (node ∷ nodes) =
    on_true
      (both (await_call (gossipsub_subscribe node topic) (codes "subscribe"))
        (await_call (start node) (codes "start")))
      false (start_all nodes)

-- From the wait for the mesh on.
unfoldable pub publish : ℕ → Program ℕ
publish publisher =
    pause
    >> on_some (await (gossipsub_publish publisher topic message) on_publish 0 (codes "publish")) 1
        (λ peer_count. do
          wait_flag (λ g. g.got)
          received ← gets (λ g. g.received)
          pure (if equal (c_string received) message then 0 else 1))

unfoldable pub exchange : ℕ → ℕ → Program ℕ
exchange subscriber publisher =
    note (listened subscriber)
    >> on_true (start_all (subscriber ∷ publisher ∷ [])) 1 (
        on_some (await_peerinfo subscriber (codes "peerinfo")) 1 (λ pw.
          on_true (await_call (connect publisher pw.peer_id pw.addrs) (codes "connect")) 1
            (publish publisher)))

unfoldable pub run : ℕ → ℕ → Program ℕ
run subscriber publisher = do
  status ← exchange subscriber publisher
  await_call (stop publisher) (codes "stop publisher")
  await_call (stop subscriber) (codes "stop subscriber")
  destroy (some publisher)
  destroy (some subscriber)
  pure status

unfoldable pub main : Program ℕ
main = do
  subscriber ← gossipsub_node (codes "/ip4/127.0.0.1/tcp/5021") (codes "subscriber")
  publisher ← gossipsub_node (codes "/ip4/127.0.0.1/tcp/5022") (codes "publisher")
  with_two subscriber publisher run (do destroy subscriber; destroy publisher; pure 1)
