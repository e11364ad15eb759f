-- ===== src/Muxers/Yamux/Session/Ends.antt =====
-- libp2p/muxers/yamux/yamux.nim: `handle` ends on whatever the peer sends.
use nim_libp2p.Common.{
  ℕ, zero, suc, ◌+◌, ◌*◌, ◌<◌, ◌≡◌, refl, ap, arith, Bool, true, none, some, List, [], ◌∷◌, length,
}
use nim_libp2p.Muxers.Yamux.Header.{
  YamuxHeader, go_away_header, Result, ok, err, read_header, incomplete, wrong_header, parse_header,
  from_bytes_be32,
}
use nim_libp2p.Muxers.Yamux.Header.RoundTrip.{accepted}
use nim_libp2p.Muxers.Yamux.Session.{Yamux, put_written, close, status_code, protocol_error}
use nim_libp2p.Muxers.Yamux.Session.Handle.{
  Handled, going, stopped, stream_error, yamux_error, defect, handle_header, handle_round,
  handle_loop, handle,
}
use nim_libp2p.Muxers.Yamux.Session.Valid.{IsValid}
use nim_libp2p.Muxers.Yamux.Session.Frames.{handle_header-Good}
use nim_libp2p.Muxers.Yamux.Session.Skipped.{Good}

-- Twelve bytes go with the header.
read_header-shorter :
    (bytes rest : List ℕ) (h : YamuxHeader)
    → read_header bytes ≡ ok (h, rest)
    → length rest < length bytes
unfolding read_header
read_header-shorter (v ∷ t ∷ f1 ∷ f0 ∷ s3 ∷ s2 ∷ s1 ∷ s0 ∷ l3 ∷ l2 ∷ l1 ∷ l0 ∷ r) rest h e =
    let (parsed, same) =
      accepted
        (parse_header v t (f1 * 256 + f0) (from_bytes_be32 s3 s2 s1 s0)
          (from_bytes_be32 l3 l2 l1 l0))
        r h rest e in
    omega (arith, ap length same)
read_header-shorter _ rest h e = absurd (ground arith)

-- What a round leaves of `n` bytes: fewer of them, if it goes on.
abbrev Shorter : ℕ → Handled → Type 0
Shorter n (going m rest) = IsValid m × (length rest < n)
Shorter n (stopped m) = IsValid m
Shorter n (stream_error m) = IsValid m
Shorter n (yamux_error m) = IsValid m
Shorter n defect = ⊥

Good-Shorter : (k n : ℕ) (o : Handled) → k < n → Good k o → Shorter n o
Good-Shorter k n (going m rest) h (v, l) = (v, omega arith)
Good-Shorter k n (stopped m) h v = v
Good-Shorter k n (stream_error m) h v = v
Good-Shorter k n (yamux_error m) h v = v
Good-Shorter k n defect h v = elim v [ ]

handle_round-Shorter :
    (writes : ℕ → Bool) (bytes : List ℕ) (m : Yamux)
    → IsValid m
    → Shorter (length bytes) (handle_round writes bytes m)
unfolding handle_round
handle_round-Shorter writes bytes m v =
    go (read_header bytes) (λ h rest e. read_header-shorter bytes rest h e)
  where
    go :
        (r : Result (YamuxHeader × List ℕ))
        → ((h : YamuxHeader) (rest : List ℕ) → r ≡ ok (h, rest) → length rest < length bytes)
        → Shorter (length bytes) (elim r [
          | err incomplete ↦ stream_error m
          | err wrong_header ↦ yamux_error m
          | ok (h, rest) ↦ handle_header writes h rest m
        ])
    go (err incomplete) l = v
    go (err wrong_header) l = v
    go (ok (h, rest)) l =
        Good-Shorter (length rest) (length bytes) (handle_header writes h rest m) (l h rest refl)
          (handle_header-Good writes h rest m v)

-- The loop left, by a `break`, the end of the stream or an exception.
abbrev Left : Handled → Type 0
Left (going m rest) = ⊥
Left (stopped m) = IsValid m
Left (stream_error m) = IsValid m
Left (yamux_error m) = IsValid m
Left defect = ⊥

handle_loop-Left :
    (fuel : ℕ) (writes : ℕ → Bool) (bytes : List ℕ) (m : Yamux)
    → length bytes < fuel
    → IsValid m
    → Left (handle_loop fuel writes bytes m)
unfolding handle_loop
handle_loop-Left zero writes bytes m h v = absurd (omega arith)
handle_loop-Left (suc fuel) writes [] m h v = v
handle_loop-Left (suc fuel) writes (b ∷ bytes) m h v =
    go (handle_round writes (b ∷ bytes) m) (handle_round-Shorter writes (b ∷ bytes) m v)
      (λ m' rest l w. handle_loop-Left fuel writes rest m' (omega arith) w)
  where
    go :
        (o : Handled)
        → Shorter (length (b ∷ bytes)) o
        → ((m' : Yamux) (rest : List ℕ)
            → length rest < length (b ∷ bytes)
            → IsValid m'
            → Left (handle_loop fuel writes rest m'))
        → Left (elim o [
          | going m' rest ↦ handle_loop fuel writes rest m'
          | stopped m' ↦ stopped m'
          | stream_error m' ↦ stream_error m'
          | yamux_error m' ↦ yamux_error m'
          | defect ↦ defect
        ])
    go (going m' rest) (w, l) next = next m' rest l w
    go (stopped m') w next = w
    go (stream_error m') w next = w
    go (yamux_error m') w next = w
    go defect w next = elim w [ ]

close-is_closed : (m : Yamux) → (close m).is_closed ≡ true
unfolding close
close-is_closed m = ground arith

-- Whatever bytes the peer sends, and whichever of the channels' writes fail, `handle` of a session
-- within its bounds ends without a fault, and the session is closed then.
pub handle-ends :
    (writes : ℕ → Bool) (bytes : List ℕ) (m : Yamux)
    → IsValid m
    → (m' : Yamux) × (handle writes bytes m ≡ some m') × (m'.is_closed ≡ true)
unfolding handle
handle-ends writes bytes m v =
    go (handle_loop (suc (length bytes)) writes bytes m)
      (handle_loop-Left (suc (length bytes)) writes bytes m (omega arith) v)
  where
    go :
        (o : Handled)
        → Left o
        → (m' : Yamux) × (elim o [
          | going m' rest ↦ none
          | stopped m' ↦ some (close m')
          | stream_error m' ↦ some (close m')
          | yamux_error m' ↦
              some (close (put_written (go_away_header (status_code protocol_error)) m'))
          | defect ↦ none
        ]
            ≡ some m')
          × (m'.is_closed ≡ true)
    go (stopped m') w = (close m', refl, close-is_closed m')
    go (stream_error m') w = (close m', refl, close-is_closed m')
    go (yamux_error m') w =
        let told : Yamux = put_written (go_away_header (status_code protocol_error)) m' in
        (close told, refl, close-is_closed told)
    go (going m' rest) w = elim w [ ]
    go defect w = elim w [ ]
