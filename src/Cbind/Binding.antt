-- ===== src/Cbind/Binding.antt =====
-- What the examples call of the generated header `libp2p.h`, which is not part of the sources: the
-- requests, the replies, and, as a parameter, a binding that answers them. A string is the list of
-- its bytes before the NUL, and a pointer that may be NULL is an `Option`.
use Prim.Native.Char.{code}
use Prim.Native.String.{String}
use nim_libp2p.Common.{ℕ, Bool, List, [], ◌∷◌, Option, ◌==◌, false}

abbrev pub Bytes : Type 0
Bytes = List ℕ

-- The bytes of a literal, which is ASCII in every example.
abbrev pub codes : String → Bytes
codes String.[] = []
codes (String.◌∷◌ c s) = code c ∷ codes s

-- A C `int`, as far as the examples read one: they compare it with 0.
pub data ℤ : Type 0 where
  pos negsuc : ℕ → ℤ

abbrev pub is_ok : ℤ → Bool
is_ok (pos n) = n == 0
is_ok (negsuc n) = false

pub data MuxerType : Type 0 where
  mplex yamux : MuxerType

pub record BootstrapNode : Type 0 where
  pub peer_id : Bytes
  pub multiaddrs : List Bytes

pub record GossipsubConfig : Type 0 where
  pub trigger_self : Bool
  pub max_message_size : ℕ
  pub overhead_bytes : ℕ
  pub overhead_interval_ms : ℕ

-- The fields of `Libp2pConfig` that an example sets; the others stay zero, also those of
-- `gossipsub` where it is not mounted, and the empty `dnsResolver` of libp2p_mobile_check.c is
-- left out. Every example uses TCP.
pub record Config : Type 0 where
  pub addrs : List Bytes
  pub muxer : MuxerType
  pub mount_kad : Bool
  pub mount_service_discovery : Bool
  pub gossipsub : Option GossipsubConfig
  pub circuit_relay : Bool
  pub circuit_relay_client : Bool
  pub bootstrap_nodes : List BootstrapNode
  pub max_connections : ℕ
  pub max_in : ℕ
  pub max_out : ℕ
  pub max_conns_per_peer : ℕ

-- A request, with its context first where it has one. An argument for which all the examples write the
-- same constant, such as a timeout of 0 or the version of a CID, is left out.
pub data Call : Type 0 where
  create : Config → Call
  start stop peer_info : ℕ → Call
  mount_protocol : ℕ → Bytes → Call
  connect : ℕ → Bytes → List Bytes → Call
  dial : ℕ → Bytes → Bytes → List Bytes → Call
  stream_read_lp : ℕ → ℕ → ℕ → Call
  stream_write_lp : ℕ → ℕ → Bytes → Call
  stream_close_with_eof stream_release : ℕ → ℕ → Call
  peerstore_add_peer : ℕ → Bytes → List Bytes → List Bytes → Call
  peerstore_get_peers : ℕ → Call
  peerstore_get_peer_info peerstore_delete_peer : ℕ → Bytes → Call
  kad_put_value : ℕ → Bytes → Bytes → Call
  kad_get_value : ℕ → Bytes → ℕ → Call
  create_cid : Bytes → Bytes → Bytes → Call
  kad_start_providing kad_get_providers : ℕ → Bytes → Call
  circuit_relay_reserve : ℕ → Bytes → List Bytes → Call
  dial_circuit_relay : ℕ → Bytes → Bytes → Bytes → Call
  service_disco_start : ℕ → Call
  service_disco_start_advertising : ℕ → Bytes → Bytes → Call
  service_disco_lookup : ℕ → Bytes → Call
  gossipsub_subscribe : ℕ → Bytes → Call
  gossipsub_publish : ℕ → Bytes → Bytes → Call
  collect_metrics : Call

-- The replies that a callback gets a pointer to.
pub record PeerInfo : Type 0 where
  pub peer_id : Option Bytes
  pub addrs : List (Option Bytes)

pub record PeerStoreEntry : Type 0 where
  pub addrs : List Bytes
  pub protocols : List Bytes

pub record ServiceInfo : Type 0 where
  pub id : Option Bytes
  pub data_bytes : Option Bytes

pub record ExtendedPeerRecord : Type 0 where
  pub peer_id : Option Bytes
  pub services : List ServiceInfo

-- The type of the reply to a request.
abbrev pub Reply : Call → Type 0
Reply (create _) = ℕ
Reply (peer_info _) = PeerInfo
Reply (dial _ _ _ _) = ℕ
Reply (dial_circuit_relay _ _ _ _) = ℕ
Reply (stream_read_lp _ _ _) = Option Bytes
Reply (kad_get_value _ _ _) = Option Bytes
Reply (peerstore_get_peers _) = List (Option Bytes)
Reply (kad_get_providers _ _) = List (Option Bytes)
Reply (peerstore_get_peer_info _ _) = PeerStoreEntry
Reply (create_cid _ _ _) = Option Bytes
Reply collect_metrics = Option Bytes
Reply (service_disco_lookup _ _) = List ExtendedPeerRecord
Reply (gossipsub_publish _ _ _) = ℕ
Reply (start _) = Bool
Reply (stop _) = Bool
Reply (mount_protocol _ _) = Bool
Reply (connect _ _ _) = Bool
Reply (stream_write_lp _ _ _) = Bool
Reply (stream_close_with_eof _ _) = Bool
Reply (stream_release _ _) = Bool
Reply (peerstore_add_peer _ _ _ _) = Bool
Reply (peerstore_delete_peer _ _) = Bool
Reply (kad_put_value _ _ _) = Bool
Reply (kad_start_providing _ _) = Bool
Reply (circuit_relay_reserve _ _ _) = Bool
Reply (service_disco_start _) = Bool
Reply (service_disco_start_advertising _ _ _) = Bool
Reply (gossipsub_subscribe _ _) = Bool

-- What a callback is given, and when: after how many sleeps of the caller, or never.
pub record Answer (R : Type 0) : Type 0 where
  pub time : Option ℕ
  pub code : ℤ
  pub reply : Option R
  pub message : Option Bytes

-- The calls of listeners, which the binding makes on its own. One that comes without a listener changes
-- a variable that the program does not read.
pub data Event : Type 0 where
  incoming_stream : ℕ → Event
  pubsub_message : Option Bytes → Event

-- What a program did, the last first.
pub data Entry : Type 0 where
  asked : (c : Call) → Answer (Reply c) → Entry
  destroyed : Option ℕ → Entry
  listened : ℕ → Entry
  waited : Entry
  refused : Call → Entry
  wait_initialised wait_destroyed : Entry
  reported : Bytes → Bytes → Entry

-- A binding: its answers and events, what it returns when a request is submitted and when a context
-- is destroyed, each as a function of what the program did before.
pub record Binding : Type 0 where
  pub answer : List Entry → (c : Call) → Answer (Reply c)
  pub event : List Entry → ℕ → Option Event
  pub submit : List Entry → Call → ℤ
  pub teardown : List Entry → Option ℕ → ℤ
