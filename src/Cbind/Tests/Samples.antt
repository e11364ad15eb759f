-- ===== src/Cbind/Tests/Samples.antt =====
-- A binding that answers at once as a working network does, and a host, to run cbind/examples with.
use nim_libp2p.Common.{
  Bool, true, List, if◌then◌else◌, false, ℕ, zero, suc, [], ◌∷◌, Option, none, some,
}
use nim_libp2p.Cbind.Binding
use nim_libp2p.Cbind.Binding.{
  Entry, Call, create, Bytes, asked, Reply, Event, incoming_stream, pubsub_message, Binding, codes,
  pos, ℤ,
}
use nim_libp2p.Cbind.MobileCheck.{Host}

-- A reply to each request: the context 7, the stream 3, and what the examples send.
abbrev pub sample : (c : Call) → Reply c
sample (create _) = 7
sample (Binding.peer_info _) = record {
  peer_id = some (codes "peer");
  addrs = some (codes "/ip4/127.0.0.1/tcp/1") ∷ [];
}
sample (Binding.dial _ _ _ _) = 3
sample (Binding.dial_circuit_relay _ _ _ _) = 3
sample (Binding.stream_read_lp _ _ _) = some (codes "hello again")
sample (Binding.kad_get_value _ _ _) = some (codes "hello kademlia")
sample (Binding.peerstore_get_peers _) = some (codes "peer") ∷ []
sample (Binding.kad_get_providers _ _) = some (codes "peer") ∷ []
sample (Binding.peerstore_get_peer_info _ _) = record { addrs = []; protocols = [] }
sample (Binding.create_cid _ _ _) = some (codes "cid")
sample Binding.collect_metrics = some (codes "[{\"name\": 1}]")
sample (Binding.service_disco_lookup _ _) =
    record {
      peer_id = some (codes "peer");
      services =
          record {
            id = some (codes "/cbind/disco/demo-service");
            data_bytes = some (codes "demo-payload");
          }
          ∷ [];
    }
    ∷ []
sample (Binding.gossipsub_publish _ _ _) = 1
sample (Binding.start _) = true
sample (Binding.stop _) = true
sample (Binding.mount_protocol _ _) = true
sample (Binding.connect _ _ _) = true
sample (Binding.stream_write_lp _ _ _) = true
sample (Binding.stream_close_with_eof _ _) = true
sample (Binding.stream_release _ _) = true
sample (Binding.peerstore_add_peer _ _ _ _) = true
sample (Binding.peerstore_delete_peer _ _) = true
sample (Binding.kad_put_value _ _ _) = true
sample (Binding.kad_start_providing _ _) = true
sample (Binding.circuit_relay_reserve _ _ _) = true
sample (Binding.service_disco_start _) = true
sample (Binding.service_disco_start_advertising _ _ _) = true
sample (Binding.gossipsub_subscribe _ _) = true

-- What a log says: the bytes that were written last, whether a peer was deleted, and whether a node was
-- started.
abbrev written : List Entry → Bytes
written [] = []
written (asked (Binding.stream_write_lp _ _ sent) a ∷ log) = sent
written (e ∷ log) = written log

abbrev is_deleted : List Entry → Bool
is_deleted [] = false
is_deleted (asked (Binding.peerstore_delete_peer _ _) a ∷ log) = true
is_deleted (e ∷ log) = is_deleted log

abbrev is_started : List Entry → Bool
is_started [] = false
is_started (asked (Binding.start _) a ∷ log) = true
is_started (e ∷ log) = is_started log

-- The replies of a network that works: a read gives what was written, a store forgets a peer that was
-- deleted, and discovery does not start before the node.
abbrev working : List Entry → (c : Call) → Reply c
working log (Binding.stream_read_lp _ _ _) = some (written log)
working log (Binding.peerstore_get_peers _) =
    if is_deleted log then [] else some (codes "peer") ∷ []
working log (Binding.peerstore_get_peer_info _ _) = record {
  addrs = codes "/ip4/127.0.0.1/tcp/1" ∷ [];
  protocols = codes "/cbind/peerstore/1.0.0" ∷ [];
}
working log c = sample c

abbrev refusal : List Entry → Call → ℤ
refusal log (Binding.service_disco_start _) = if is_started log then pos 0 else pos 1
refusal log c = pos 0

-- A stream comes in with the first sleep of a wait, and a message with the second.
abbrev sample_event : ℕ → Option Event
sample_event zero = some (incoming_stream 3)
sample_event (suc zero) = some (pubsub_message (some (codes "hello gossipsub")))
sample_event (suc (suc i)) = none

abbrev pub network : Binding
network = record {
  answer = λ log c. record {
    time = some 1;
    code = refusal log c;
    reply = some (working log c);
    message = some (codes "switch not started");
  };
  event = λ log i. sample_event i;
  submit = λ log c. pos 0;
  teardown = λ log h. pos 0;
}

abbrev pub sane_host : Host
sane_host = record {
  mutex_init = λ log. pos 0;
  cond_init = λ log. pos 0;
  clock_gettime = λ log. pos 0;
  cond_timedwait = λ log i. pos 0;
  wakeups = 5;
  etimedout = 110;
}
