-- ===== src/Cbind/Echo.antt =====
-- cbind/examples/echo.c: a server echoes what it reads from a stream; a client dials, sends and
-- compares, twice. relay.c repeats the waiters and callbacks of streams.
use nim_libp2p.Common.{ℕ, Bool, false, List, [], Option, none, some, if◌then◌else◌, not}
use nim_libp2p.Cbind.Binding.{
  Bytes, codes, start, stop, mount_protocol, dial, stream_read_lp, stream_write_lp,
  stream_close_with_eof, stream_release, Answer, listened,
}
use nim_libp2p.Cbind.Program.{
  Globals, Program, ◌>>=◌, ◌>>◌, pure, gets, modify, note, wait_flag, report, destroy, on_true,
  on_some, both,
}
use nim_libp2p.Cbind.Waiters.{
  Waiter, PeerInfoWaiter, filled, copied_bytes, await, await_call, await_create, await_peerinfo,
  tcp_config, equal,
}

unfoldable pub echo_proto : Bytes
echo_proto = codes "/cbind/echo/1.0.0"

abbrev pub echo_max_size : ℕ
echo_max_size = 4096

unfoldable pub on_read : Answer (Option Bytes) → Waiter Bytes → Waiter Bytes
on_read = filled (copied_bytes 4096)

unfoldable pub on_dial : Answer ℕ → Waiter ℕ → Waiter ℕ
on_dial = filled (λ r _. r)

-- `atomic_store(&g_have_stream, 0)`.
unfoldable pub clear_have_stream : Globals → Globals
clear_have_stream g = record {
  have_stream = false;
  stream_id = g.stream_id;
  got = g.got;
  received = g.received;
}

unfoldable pub serve_echo : ℕ → Program Bool
serve_echo server = do
  wait_flag (λ g. g.have_stream)
  stream_id ← gets (λ g. g.stream_id)
  modify clear_have_stream
  on_some (await (stream_read_lp server stream_id echo_max_size) on_read [] (codes "server read"))
      false
      (λ rw. do
        ok ← await_call (stream_write_lp server stream_id rw) (codes "server write")
        await_call (stream_release server stream_id) (codes "server release")
        pure ok)

-- From the read of the reply on.
unfoldable pub verify_echo : ℕ → ℕ → Bytes → Program Bool
verify_echo client stream_id sent =
    on_some
      (await (stream_read_lp client stream_id echo_max_size) on_read [] (codes "stream_read_lp"))
      false
      (λ rw. do
        let matched = equal rw sent
        if matched then pure tt else report (codes "Error") (codes "echoed payload did not match")
        await_call (stream_close_with_eof client stream_id) (codes "stream_close_with_eof")
        await_call (stream_release client stream_id) (codes "stream_release")
        pure matched)

-- A dial to `peer_id`, by the given addresses or over a connection that is there.
unfoldable pub echo_round_trip : ℕ → ℕ → Bytes → List Bytes → Bytes → Program Bool
echo_round_trip client server peer_id addrs sent =
    on_some (await (dial client peer_id echo_proto addrs) on_dial 0 (codes "dial")) false
      (λ stream_id.
        on_true (await_call (stream_write_lp client stream_id sent) (codes "stream_write_lp")) false
          (on_true (serve_echo server) false (verify_echo client stream_id sent)))

unfoldable pub create_node : Bytes → Bytes → Program (Option ℕ)
create_node listen_addr label = await_create (tcp_config listen_addr) label

-- From the start of the client to the label `cleanup`.
unfoldable pub exchange : ℕ → ℕ → PeerInfoWaiter → Program ℕ
exchange server client pw = on_true (await_call (start client) (codes "start client")) 1 (
    on_true (echo_round_trip client server pw.peer_id pw.addrs (codes "hello from cbind echo")) 1
      (on_true (echo_round_trip client server pw.peer_id [] (codes "hello again")) 1 (pure 0)))

unfoldable pub run : ℕ → ℕ → PeerInfoWaiter → Program ℕ
run server client pw = do
  status ← exchange server client pw
  await_call (stop client) (codes "stop client")
  await_call (stop server) (codes "stop server")
  destroy (some client)
  destroy (some server)
  pure status

-- `libp2p_ctx_destroy(server); return 1;`, on the branches before `cleanup`.
unfoldable pub give_up : ℕ → Program ℕ
give_up server = do destroy (some server); pure 1

unfoldable pub with_server : ℕ → Program ℕ
with_server server = do
  note (listened server)
  started ←
      both (await_call (mount_protocol server echo_proto) (codes "mount_protocol"))
        (await_call (start server) (codes "start server"))
  if not started then give_up server else (do
    info ← await_peerinfo server (codes "peerinfo")
    elim info [
      | none ↦ give_up server
      | some pw ↦ do
        client ← create_node (codes "/ip4/127.0.0.1/tcp/0") (codes "client")
        elim client [ none ↦ give_up server | some c ↦ run server c pw ]
    ])

unfoldable pub main : Program ℕ
main = on_some (create_node (codes "/ip4/127.0.0.1/tcp/5013") (codes "server")) 1 with_server
