-- ===== src/Cbind/Peerstore.antt =====
-- cbind/examples/peerstore.c: a node stores the addresses of another, lists and reads them, and
-- deletes them.
use nim_libp2p.Common.{
  ℕ, Bool, false, List, [], ◌∷◌, Option, some, length, if◌then◌else◌, ◌==◌, ◌||◌, not,
}
use nim_libp2p.Cbind.Binding.{
  Bytes, codes, start, stop, peerstore_add_peer, peerstore_get_peers, peerstore_get_peer_info,
  peerstore_delete_peer, Answer, PeerStoreEntry,
}
use nim_libp2p.Cbind.Program.{
  Program, ◌>>=◌, ◌>>◌, pure, report, destroy, on_true, on_some, with_two,
}
use nim_libp2p.Cbind.Waiters.{
  Waiter, filled, copied_all, await, await_call, await_create, await_peerinfo, tcp_config, equal,
}

unfoldable pub proto : Bytes
proto = codes "/cbind/peerstore/1.0.0"

-- The counts of an entry, and its waiter's callback.
pub record Counts : Type 0 where
  pub naddrs : ℕ
  pub nprotocols : ℕ

-- The list stands for `peerIds` and its length for `n`; at most 16 peers are kept.
unfoldable pub on_peers : Answer (List (Option Bytes)) → Waiter (List Bytes) → Waiter (List Bytes)
on_peers = filled (λ r _. copied_all 16 128 r)

unfoldable pub get_peers : ℕ → Program (Option (List Bytes))
get_peers ctx = await (peerstore_get_peers ctx) on_peers [] (codes "get_peers")

unfoldable pub holds : List Bytes → Bytes → Bool
holds [] peer_id = false
holds (p ∷ ps) peer_id = equal p peer_id || holds ps peer_id

unfoldable pub on_entry : Answer PeerStoreEntry → Waiter Counts → Waiter Counts
on_entry = filled (λ r _. record { naddrs = length (r.addrs); nprotocols = length (r.protocols) })

unfoldable pub create_node : Bytes → Bytes → Program (Option ℕ)
create_node addr label = await_create (tcp_config addr) label

-- The checks between `on_some` and the label `cleanup`: the status.
unfoldable pub add_and_delete : ℕ → ℕ → Program ℕ
add_and_delete local other = on_true (await_call (start other) (codes "start other")) 1 (
    on_some (await_peerinfo other (codes "other peerinfo")) 1 (λ oi.
      on_true
        (await_call (peerstore_add_peer local oi.peer_id oi.addrs (proto ∷ [])) (codes "add_peer"))
        1
        (on_some (get_peers local) 1 (λ peers.
          on_some
            (await (peerstore_get_peer_info local oi.peer_id) on_entry
              (record { naddrs = 0; nprotocols = 0 }) (codes "get_peer_info"))
            1
            (λ entry.
              if not (holds peers oi.peer_id) || (entry.naddrs == 0) || (entry.nprotocols == 0)
              then (do report (codes "Error") (codes "peer was not stored correctly"); pure 1)
              else (on_true
                  (await_call (peerstore_delete_peer local oi.peer_id) (codes "delete_peer")) 1
                  (on_some (get_peers local) 1 (λ left.
                    if holds left oi.peer_id
                    then (do
                      report (codes "Error") (codes "peer still present after delete_peer")
                      pure 1)
                    else pure 0))))))))

unfoldable pub run : ℕ → ℕ → Program ℕ
run local other = do
  status ← add_and_delete local other
  await_call (stop other) (codes "stop other")
  destroy (some other)
  destroy (some local)
  pure status

unfoldable pub main : Program ℕ
main = do
  local ← create_node (codes "/ip4/127.0.0.1/tcp/5051") (codes "local")
  other ← create_node (codes "/ip4/127.0.0.1/tcp/5052") (codes "other")
  with_two local other run (do destroy local; destroy other; pure 1)
