-- ===== src/Cbind/MobileCheck.antt =====
-- cbind/examples/libp2p_mobile_check.c: a node is created, started, stopped and destroyed, with
-- waits on a condition variable. The calls of the host's library are a parameter.
use nim_libp2p.Common.{
  ℕ, zero, suc, ◌+◌, ◌/◌, ◌%◌, Bool, true, false, List, [], ◌∷◌, ◌++◌, Option, none, some,
  if◌then◌else◌, ◌==◌, ◌&&◌, not,
}
use nim_libp2p.Cbind.Binding.{
  Bytes, codes, ℤ, pos, negsuc, is_ok, Config, yamux, Call, create, start, stop, Reply, Answer,
  Entry, asked, refused, destroyed, wait_initialised, wait_destroyed,
}
use nim_libp2p.Cbind.Program.{
  Program, returned, exited, ◌>>=◌, ◌>>◌, pure, note, fired, report, on_some, both,
}
use nim_libp2p.Cbind.Waiters.{copied}

-- What the calls of pthread and of the clock return. `wakeups` is how often a wait can wake before
-- its deadline, after which `pthread_cond_timedwait` returns ETIMEDOUT.
pub record Host : Type 0 where
  pub mutex_init : List Entry → ℤ
  pub cond_init : List Entry → ℤ
  pub clock_gettime : List Entry → ℤ
  pub cond_timedwait : List Entry → ℕ → ℤ
  pub wakeups : ℕ
  pub etimedout : ℕ

pub record CallbackWait : Type 0 where
  pub done : Bool
  pub err_code : ℤ
  pub err_msg : Bytes
  pub ctx : Option ℕ
  pub bool_reply : Bool

abbrev pub callback_wait : CallbackWait
callback_wait = record {
  done = false;
  err_code = pos 0;
  err_msg = [];
  ctx = none;
  bool_reply = false;
}

-- The decimal digits of a number below 10 ^ fuel.
unfoldable pub digits : ℕ → ℕ → Bytes
digits zero n = []
digits (suc fuel) n =
    let rest = digits fuel (n / 10) in (if n / 10 == 0 then [] else rest) ++ (48 + n % 10) ∷ []

-- `%d` on an `int`, of at most 10 digits.
unfoldable pub decimal : ℤ → Bytes
decimal (pos n) = digits 10 n
decimal (negsuc n) = 45 ∷ digits 10 (suc n)

unfoldable pub is_empty : Option Bytes → Bool
is_empty none = true
is_empty (some []) = true
is_empty (some (x ∷ xs)) = false

unfoldable pub error_text : ℤ → Option Bytes → Bytes → Bytes
unfolding copied
error_text err_code err_msg old =
    if not (is_empty err_msg)
    then copied 512 err_msg old
    else (if not (is_ok err_code)
        then copied 512 (some (codes "FFI returned error code " ++ decimal err_code)) old
        else old)

unfoldable pub record_error : ℤ → Option Bytes → CallbackWait → CallbackWait
record_error err_code err_msg w = record {
  done = w.done;
  err_code = err_code;
  err_msg = error_text err_code err_msg w.err_msg;
  ctx = w.ctx;
  bool_reply = w.bool_reply;
}

unfoldable pub signal_done : CallbackWait → CallbackWait
signal_done w = record {
  done = true;
  err_code = w.err_code;
  err_msg = w.err_msg;
  ctx = w.ctx;
  bool_reply = w.bool_reply;
}

unfoldable pub set_ctx : Option ℕ → CallbackWait → CallbackWait
set_ctx ctx w = record {
  done = w.done;
  err_code = w.err_code;
  err_msg = w.err_msg;
  ctx = ctx;
  bool_reply = w.bool_reply;
}

unfoldable pub set_reply : Option Bool → CallbackWait → CallbackWait
set_reply none w = w
set_reply (some reply) w = record {
  done = w.done;
  err_code = w.err_code;
  err_msg = w.err_msg;
  ctx = w.ctx;
  bool_reply = reply;
}

unfoldable pub is_null : {A : Type 0} → Option A → Bool
is_null none = true
is_null (some a) = false

unfoldable pub on_created : Answer ℕ → CallbackWait → CallbackWait
on_created a wait =
    let w = record_error a.code a.message wait in
    signal_done (
      if is_ok a.code && is_null a.reply
      then record_error (negsuc 0) (some (codes "create callback returned a null context")) w
      else set_ctx a.reply w)

unfoldable pub on_bool_reply : Answer Bool → CallbackWait → CallbackWait
on_bool_reply a wait =
    let w = record_error a.code a.message wait in
    signal_done (
      if is_ok a.code && is_null a.reply
      then record_error (negsuc 0) (some (codes "bool callback returned a null reply")) w
      else set_reply a.reply w)

-- The loop of `wait_for_callback`: the last code of `pthread_cond_timedwait`, 0 when the callback
-- ended the wait.
unfoldable pub timed_wait : ℕ → ℕ → (ℕ → Bool) → (ℕ → ℤ) → ℤ → ℤ
timed_wait zero i done rc timeout = if done i then pos 0 else timeout
timed_wait (suc n) i done rc timeout =
    let rest = timed_wait n (i + 1) done rc timeout in
    if done i then pos 0 else (if is_ok (rc i) then rest else rc i)

unfoldable pub wait_destroy : Program Unit
wait_destroy = note wait_destroyed

-- What `wait_for_callback` returns: an error that the callback recorded is reported.
unfoldable pub wait_result : CallbackWait → Bytes → Program Bool
wait_result w op =
    if not (is_ok w.err_code) then (do report op w.err_msg; pure false) else pure true

-- Whether the binding takes a request. If it does not, no callback follows.
unfoldable pub submit : Call → Bytes → Program Bool
submit c op b w =
    if is_ok ((b.submit) w.log c)
    then returned true w
    else (do note (refused c); report op (codes "submit failed"); pure false) b w

-- After a create request that failed, a context that came with it is destroyed.
unfoldable pub drop_context : Option ℕ → Program Unit
drop_context none = pure tt
drop_context (some h) = note (destroyed (some h))

unfoldable pub finish_create : CallbackWait → Program (Option ℕ)
finish_create w = do
  ok ← wait_result w (codes "create")
  if not ok then (do drop_context w.ctx; wait_destroy; pure none) else (do wait_destroy; pure w.ctx)

unfoldable pub mobile_config : Config
mobile_config = record {
  addrs = codes "/ip4/127.0.0.1/tcp/0" ∷ [];
  muxer = yamux;
  mount_kad = false;
  mount_service_discovery = false;
  gossipsub = none;
  circuit_relay = false;
  circuit_relay_client = false;
  bootstrap_nodes = [];
  max_connections = 8;
  max_in = 4;
  max_out = 4;
  max_conns_per_peer = 2;
}

unfoldable pub finish_call : CallbackWait → Bytes → Program Bool
finish_call w op = do
  ok ← wait_result w op
  if not ok
      then (do wait_destroy; pure false)
      else (if not w.bool_reply
          then (do report op (codes "expected true reply"); wait_destroy; pure false)
          else (do wait_destroy; pure true))

-- `libp2p_ctx_destroy(ctx) != NIMFFI_RET_OK`, which is the status of the teardown.
unfoldable pub destroy_checked : ℕ → Program Bool
destroy_checked ctx b w =
    (do note (destroyed (some ctx)); pure (is_ok ((b.teardown) w.log (some ctx)))) b w

module _ (host : Host) where
  unfoldable pub wait_init : Program Unit
  wait_init b w =
      if is_ok ((host.mutex_init) w.log) && is_ok ((host.cond_init) w.log)
      then note wait_initialised b w
      else exited 2 w

  -- The process ends in `wait_for_callback` when the clock fails, at the deadline and on an error
  -- of the wait. Otherwise the callback has had its answer.
  unfoldable pub wait_for_callback : (c : Call) → Program (Answer (Reply c))
  wait_for_callback c b w =
      let a = (b.answer) w.log c in
      let rc =
        timed_wait host.wakeups 0 (λ i. fired a i w.globals) ((host.cond_timedwait) w.log)
          (pos (suc host.etimedout)) in
      if is_ok ((host.clock_gettime) w.log) && is_ok rc
      then (do note (asked c a); pure a) b w
      else exited 1 w

  -- `create_node`, whose context is NULL exactly when it returns 1.
  unfoldable pub create_node : Program (Option ℕ)
  create_node = do
    wait_init
    taken ← submit (create mobile_config) (codes "create")
    if not taken then (do wait_destroy; pure none) else (do
      a ← wait_for_callback (create mobile_config)
      finish_create (on_created a callback_wait))

  -- `call_bool_method`: whether it returns 0. `fn(ctx, ...)` is a request with a `bool` reply.
  unfoldable pub call_bool_method :
      (c : Call) → (Answer (Reply c) → Answer Bool) → Bytes → Program Bool
  call_bool_method c to_bool op = do
    wait_init
    taken ← submit c op
    if not taken
        then (do wait_destroy; pure false)
        else (do a ← wait_for_callback c; finish_call (on_bool_reply (to_bool a) callback_wait) op)

  unfoldable pub run : ℕ → Program ℕ
  run ctx = do
    ok ←
        both (call_bool_method (start ctx) (λ a. a) (codes "start"))
          (call_bool_method (stop ctx) (λ a. a) (codes "stop"))
    down ← destroy_checked ctx
    if down then pure tt else report (codes "destroy") (codes "context teardown failed")
    pure (if ok && down then 0 else 1)

  unfoldable pub main : Program ℕ
  main = on_some create_node 1 run
