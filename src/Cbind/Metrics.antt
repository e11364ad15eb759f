-- ===== src/Cbind/Metrics.antt =====
-- cbind/examples/metrics.c: a started node's metrics, as the text of a JSON array.
use nim_libp2p.Common.{ℕ, Bool, false, [], ◌∷◌, Option, some, if◌then◌else◌, ◌==◌, ◌&&◌}
use nim_libp2p.Cbind.Binding.{Bytes, codes, start, stop, collect_metrics, Answer}
use nim_libp2p.Cbind.Program.{Program, ◌>>=◌, ◌>>◌, pure, report, destroy, on_true, on_some}
use nim_libp2p.Cbind.Waiters.{
  Waiter, filled, copied_bytes, await, await_call, await_create, tcp_config, c_string, is_within,
}

unfoldable pub on_metrics : Answer (Option Bytes) → Waiter Bytes → Waiter Bytes
on_metrics = filled (copied_bytes 65535)

unfoldable pub starts_with_bracket : Bytes → Bool
starts_with_bracket [] = false
starts_with_bracket (c ∷ cs) = c == 91

-- `json[0] == '[' && strstr(json, "\"name\"")`.
unfoldable pub is_metrics : Bytes → Bool
is_metrics json = starts_with_bracket json && is_within (codes "\"name\"") (c_string json)

unfoldable pub exchange : ℕ → Program ℕ
exchange node = on_true (await_call (start node) (codes "start")) 1 (
    on_some (await collect_metrics on_metrics [] (codes "collect_metrics")) 1 (λ json.
      if is_metrics json
      then pure 0
      else (do report (codes "Error") (codes "metrics payload was empty or malformed"); pure 1)))

unfoldable pub run : ℕ → Program ℕ
run node = do
  status ← exchange node
  await_call (stop node) (codes "stop")
  destroy (some node)
  pure status

unfoldable pub main : Program ℕ
main = on_some (await_create (tcp_config (codes "/ip4/127.0.0.1/tcp/5041")) (codes "node")) 1 run
