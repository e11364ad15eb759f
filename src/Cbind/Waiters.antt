-- ===== src/Cbind/Waiters.antt =====
-- The waiters and callbacks of cbind/examples/common.h, and the calls made blocking with them.
use nim_libp2p.Common.{
  ℕ, suc, ◌-◌, Bool, true, false, List, [], ◌∷◌, map, Option, none, some, take, if◌then◌else◌, not,
  ◌&&◌, ◌||◌, is_some, ◌==◌, zero,
}
use nim_libp2p.Cbind.Binding.{
  Bytes, ℤ, pos, is_ok, Config, Call, create, peer_info, connect, Reply, Answer, PeerInfo, codes,
  mplex,
}
use nim_libp2p.Cbind.Program.{Program, ◌>>=◌, ◌>>◌, pure, call, report}

-- `snprintf(dst, cap, "%s", s)` as the string that it leaves: at most `cap - 1` bytes.
unfoldable pub snprintf : ℕ → Bytes → Bytes
snprintf cap s = take (cap - 1) s

-- `if (s) snprintf(dst, cap, "%s", s);`
unfoldable pub copied : ℕ → Option Bytes → Bytes → Bytes
unfolding snprintf
copied cap s dst = elim s [ none ↦ dst | some t ↦ snprintf cap t ]

pub record BoolWaiter : Type 0 where
  pub done : Bool
  pub err_code : ℤ
  pub err : Bytes

-- `memset(&w, 0, sizeof(w))`.
abbrev pub bool_waiter : BoolWaiter
bool_waiter = record { done = false; err_code = pos 0; err = [] }

-- `on_bool`, and `on_reserve` of relay.c, which also ignores its reply.
unfoldable pub on_bool : {R : Type 0} → Answer R → BoolWaiter → BoolWaiter
unfolding copied
on_bool a w = record { done = true; err_code = a.code; err = copied 256 a.message w.err }

unfoldable pub await_bool : BoolWaiter → Bytes → Program Bool
await_bool w label =
    if not (is_ok w.err_code) then (do report label w.err; pure false) else pure true

-- `AWAIT_BOOL`: the waiter is reset, the request made, and its callback waited for.
unfoldable pub await_call : Call → Bytes → Program Bool
unfolding on_bool
await_call c label = do a ← call c; await_bool (on_bool a bool_waiter) label

pub record CreateWaiter : Type 0 where
  pub done : Bool
  pub err_code : ℤ
  pub err : Bytes
  pub ctx : Option ℕ

abbrev pub create_waiter : CreateWaiter
create_waiter = record { done = false; err_code = pos 0; err = []; ctx = none }

unfoldable pub on_created : Answer ℕ → CreateWaiter → CreateWaiter
unfolding copied
on_created a w = record {
  done = true;
  err_code = a.code;
  err = copied 256 a.message w.err;
  ctx = a.reply;
}

-- What `await_create` does with the filled waiter: NULL is `none`.
unfoldable pub created_context : CreateWaiter → Bytes → Program (Option ℕ)
created_context w label =
    if is_ok w.err_code && is_some w.ctx then pure w.ctx else (do report label w.err; pure none)

unfoldable pub await_create : Config → Bytes → Program (Option ℕ)
unfolding on_created
await_create cfg label = do
  a ← call (create cfg)
  created_context (on_created a create_waiter) label

abbrev pub max_addrs : ℕ
max_addrs = 16

pub record PeerInfoWaiter : Type 0 where
  pub done : Bool
  pub err_code : ℤ
  pub err : Bytes
  pub peer_id : Bytes
  pub addrs : List Bytes

abbrev pub peer_info_waiter : PeerInfoWaiter
peer_info_waiter = record { done = false; err_code = pos 0; err = []; peer_id = []; addrs = [] }

-- A reply with a list of strings, into `count` buffers of `cap` bytes that are empty before. The
-- list stands for the filled part of the array, so its length is the waiter's count.
unfoldable pub copied_all : ℕ → ℕ → List (Option Bytes) → List Bytes
unfolding copied
copied_all count cap xs = map (λ x. copied cap x []) (take count xs)

unfoldable pub on_peerinfo : Answer PeerInfo → PeerInfoWaiter → PeerInfoWaiter
unfolding copied copied_all
on_peerinfo a w = record {
  done = true;
  err_code = a.code;
  err = copied 256 a.message w.err;
  peer_id = elim a.reply [ none ↦ w.peer_id | some r ↦ copied 128 r.peer_id w.peer_id ];
  addrs = elim a.reply [ none ↦ w.addrs | some r ↦ copied_all max_addrs 256 r.addrs ];
}

-- What the callers do with a waiter after the wait: they report an error, and read no more of the
-- waiter then, so that the waiter is `none`.
unfoldable pub checked : {W : Type 0} → ℤ → Bytes → Bytes → W → Program (Option W)
checked code err label w =
    if not (is_ok code) then (do report label err; pure none) else pure (some w)

-- The waiters of the examples have these fields and those of `A`.
pub record Waiter (A : Type 0) : Type 0 where
  pub done : Bool
  pub err_code : ℤ
  pub err : Bytes
  pub value : A

abbrev pub waiter : {A : Type 0} → A → Waiter A
waiter a = record { done = false; err_code = pos 0; err = []; value = a }

-- A callback: it keeps the code, copies what it needs of a reply that is not NULL, and the message.
unfoldable pub filled : {R A : Type 0} → (R → A → A) → Answer R → Waiter A → Waiter A
unfolding copied
filled copy a w = record {
  done = true;
  err_code = a.code;
  err = copied 256 a.message w.err;
  value = elim a.reply [ none ↦ w.value | some r ↦ copy r w.value ];
}

-- `if (data) { len = ...; memcpy(...); }` into a buffer of `cap` bytes.
unfoldable pub copied_bytes : ℕ → Option Bytes → Bytes → Bytes
copied_bytes cap payload dst = elim payload [ none ↦ dst | some data_bytes ↦ take cap data_bytes ]

-- A request whose callback `on` fills a zeroed waiter, the wait for it and the test of its code.
unfoldable pub await :
    {A : Type 0} (c : Call)
    → (Answer (Reply c) → Waiter A → Waiter A)
    → A
    → Bytes
    → Program (Option A)
await c on zero_value label = do
  a ← call c
  let w = on a (waiter zero_value)
  checked w.err_code w.err label w.value

unfoldable pub await_peerinfo : ℕ → Bytes → Program (Option PeerInfoWaiter)
unfolding on_peerinfo
await_peerinfo ctx label = do
  a ← call (peer_info ctx)
  let w = on_peerinfo a peer_info_waiter
  checked w.err_code w.err label w

unfoldable pub await_connect : ℕ → PeerInfoWaiter → Program Bool
await_connect from to = await_call (connect from to.peer_id to.addrs) (codes "connect")

-- `strcmp(s, t) == 0` on strings, and `len == ... && memcmp(...) == 0` on bytes.
unfoldable pub equal : Bytes → Bytes → Bool
equal [] [] = true
equal [] (y ∷ ys) = false
equal (x ∷ xs) [] = false
equal (x ∷ xs) (y ∷ ys) = x == y && equal xs ys

-- The zeroed configuration with one address, MPLEX and TCP, which every `createNode` starts from.
abbrev pub tcp_config : Bytes → Config
tcp_config addr = record {
  addrs = addr ∷ [];
  muxer = mplex;
  mount_kad = false;
  mount_service_discovery = false;
  gossipsub = none;
  circuit_relay = false;
  circuit_relay_client = false;
  bootstrap_nodes = [];
  max_connections = 0;
  max_in = 0;
  max_out = 0;
  max_conns_per_peer = 0;
}

-- The string in a buffer: its bytes before the first NUL.
unfoldable pub c_string : Bytes → Bytes
c_string [] = []
c_string (zero ∷ xs) = []
c_string (suc x ∷ xs) = suc x ∷ c_string xs

unfoldable pub is_prefix : Bytes → Bytes → Bool
is_prefix [] ys = true
is_prefix (x ∷ xs) [] = false
is_prefix (x ∷ xs) (y ∷ ys) = x == y && is_prefix xs ys

-- `strstr(ys, xs) != NULL`.
unfoldable pub is_within : Bytes → Bytes → Bool
is_within xs [] = is_prefix xs []
is_within xs (y ∷ ys) = is_prefix xs (y ∷ ys) || is_within xs ys
