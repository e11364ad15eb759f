-- ===== src/Muxers/Yamux/Session/Skipped.antt =====
-- libp2p/muxers/yamux/yamux.nim: the frames of streams that are refused or not open.
use nim_libp2p.Common.{
  ℕ, zero, suc, ◌+◌, ◌-◌, min, ◌≤◌, ◌≡◌, inl, inr, refl, ap, ◌∙◌, arith, Bool, true, false, Option,
  none, some, is_some, List, length, drop, ltb, leb, ◌==◌, not, ℕ_discrete, if◌then◌else◌,
  Bool-cases, leb→le, length-drop, drop-drop,
}
use nim_libp2p.Common.Table
use nim_libp2p.Muxers.Yamux.Header.{YamuxHeader, data_header}
use nim_libp2p.Muxers.Yamux.Channel.{yamux_default_window_size, rst_flag}
use nim_libp2p.Muxers.Yamux.Session.{Yamux, put_written, forget_flushed, remember_flushed}
use nim_libp2p.Muxers.Yamux.Session.Handle.{
  Handled, going, stopped, stream_error, yamux_error, defect, read_exactly, discard_loop,
  discard_data, is_data, skip_data, refuse_stream, unknown_stream,
}
use nim_libp2p.Muxers.Yamux.Session.Flushed.{AreTracked-again}
use nim_libp2p.Muxers.Yamux.Session.Valid.{
  IsValid, forget_flushed-IsValid, remember_flushed-IsValid,
}

discard_loop-drop :
    (fuel n : ℕ) (bytes : List ℕ)
    → n ≤ fuel
    → discard_loop fuel n bytes ≡ (if leb n (length bytes) then some (drop n bytes) else none)
unfolding discard_loop read_exactly
discard_loop-drop zero zero bytes h = ground arith
discard_loop-drop zero (suc n) bytes h = absurd (omega arith)
discard_loop-drop (suc fuel) zero bytes h = ground arith
discard_loop-drop (suc fuel) (suc n) bytes h = elim (Bool-cases (leb k (length bytes))) [
  | inl fits ↦
      let long : k ≤ length bytes = leb→le k (length bytes) fits in
      let e : drop (suc n - k) (drop k bytes) ≡ drop (suc n) bytes =
        drop-drop (suc n - k) k bytes ∙ ap (λ x. drop x bytes) whole in
      let len : length (drop k bytes) ≡ length bytes - k = length-drop k bytes in
      let same : leb (suc n - k) (length (drop k bytes)) ≡ leb (suc n) (length bytes) =
        ground (arith, len, long) in
      rw (more, discard_loop)
        (rw (fits, discard_loop)
          (discard_loop-drop fuel (suc n - k) (drop k bytes) (omega arith) ∙ rw (same, e) refl))
  | inr short ↦
      let few : leb (suc n) (length bytes) ≡ false = ground (arith, short) in
      rw (more, discard_loop) (rw (short, discard_loop) (rw few refl))
]
  where
    k : ℕ
    k = min (suc n) 8192

    whole : k + (suc n - k) ≡ suc n
    whole = omega arith

    more : (suc n == 0) ≡ false
    more = ground arith

-- What a round leaves: a valid session, with no more bytes than there were.
abbrev pub Good : ℕ → Handled → Type 0
Good n (going m rest) = IsValid m × (length rest ≤ n)
Good n (stopped m) = IsValid m
Good n (stream_error m) = IsValid m
Good n (yamux_error m) = IsValid m
Good n defect = ⊥

pub put_written-IsValid : (h : YamuxHeader) (m : Yamux) → IsValid m → IsValid (put_written h m)
put_written-IsValid h m v = record {
  within = v.within;
  remembered = v.remembered;
  flushed_within = v.flushed_within;
  tracked = v.tracked;
  queues = v.queues;
}

-- `discardData` succeeds exactly if the stream has as many bytes, and takes just those.
pub discard_data-drop :
    (n : ℕ) (bytes : List ℕ)
    → discard_data n bytes ≡ (if leb n (length bytes) then some (drop n bytes) else none)
unfolding discard_data
discard_data-drop n bytes = discard_loop-drop n n bytes (omega arith)

skip_data-Good :
    (h : YamuxHeader) (bytes : List ℕ) (m : Yamux)
    → IsValid m
    → Good (length bytes) (skip_data h bytes m)
unfolding skip_data
skip_data-Good h bytes m v =
    rw (discard_data-drop h.length bytes, skip_data)
      (go (is_data h.msg_type) (leb h.length (length bytes)))
  where
    go :
        (d b : Bool)
        → Good (length bytes) (
            if d
            then elim (if b then some (drop h.length bytes) else none) [
              | none ↦ stream_error m
              | some rest ↦ going m rest
            ]
            else going m bytes)
    go false b = (v, omega arith)
    go true false = v
    go true true = (v, omega (arith, length-drop h.length bytes))

-- The outcome under a test.
pub if-Good :
    (n : ℕ) (b : Bool) (x y : Handled)
    → (b ≡ true → Good n x)
    → (b ≡ false → Good n y)
    → Good n (if b then x else y)
if-Good n true x y g h = g refl
if-Good n false x y g h = h refl

pub refuse_stream-Good :
    (h : YamuxHeader) (bytes : List ℕ) (m : Yamux)
    → IsValid m
    → Good (length bytes) (refuse_stream h bytes m)
unfolding refuse_stream
refuse_stream-Good h bytes m v =
    let used : ℕ = if is_data h.msg_type then h.length else 0 in
    let refused : Yamux =
      put_written (data_header h.stream_id 0 rst_flag)
        (remember_flushed h.stream_id (yamux_default_window_size - used) m) in
    if-Good (length bytes) (ltb yamux_default_window_size used) (yamux_error m)
      (skip_data h bytes refused) (λ _. v)
      (λ _.
        skip_data-Good h bytes refused (put_written-IsValid _ _ (remember_flushed-IsValid _ _ m v)))

pub unknown_stream-Good :
    (h : YamuxHeader) (bytes : List ℕ) (m : Yamux)
    → IsValid m
    → Good (length bytes) (unknown_stream h bytes m)
unfolding unknown_stream
unknown_stream-Good h bytes m v = go (Table.lookup ℕ_discrete h.stream_id m.flushed) refl
  where
    less : ℕ → Yamux
    less left = record m {
      flushed = Table.insert ℕ_discrete h.stream_id (left - h.length) m.flushed;
    }

    less-IsValid :
        (left : ℕ) → Table.lookup ℕ_discrete h.stream_id m.flushed ≡ some left → IsValid (less left)
    less-IsValid left here =
        let key : Table.has_key ℕ_discrete h.stream_id m.flushed ≡ true = ap is_some here in
        record {
          within = v.within;
          remembered = v.remembered;
          flushed_within = ground (
            arith,
            key,
            v.flushed_within,
            Table.length-insert ℕ_discrete h.stream_id (left - h.length) m.flushed,
          );
          tracked =
              AreTracked-again h.stream_id (left - h.length) m.flushed_order m.flushed key
                v.tracked;
          queues = v.queues;
        }

    spent : Bool → ℕ → Yamux
    spent b left = if b then forget_flushed h.stream_id (less left) else less left

    spent-IsValid :
        (b : Bool) (left : ℕ)
        → Table.lookup ℕ_discrete h.stream_id m.flushed ≡ some left
        → IsValid (spent b left)
    spent-IsValid true left here =
        forget_flushed-IsValid h.stream_id (less left) (less-IsValid left here)
    spent-IsValid false left here = less-IsValid left here

    go :
        (o : Option ℕ)
        → Table.lookup ℕ_discrete h.stream_id m.flushed ≡ o
        → Good (length bytes) (elim o [
          | none ↦ skip_data h bytes m
          | some left ↦
              if not (is_data h.msg_type)
              then going m bytes
              else if ltb left h.length
              then yamux_error m
              else skip_data h bytes (spent (left - h.length == 0) left)
        ])
    go none e = skip_data-Good h bytes m v
    go (some left) e =
        if-Good (length bytes) (not (is_data h.msg_type)) (going m bytes) _ (λ _. (v, omega arith))
          (λ _.
            if-Good (length bytes) (ltb left h.length) (yamux_error m) _ (λ _. v)
              (λ _. skip_data-Good h bytes _ (spent-IsValid (left - h.length == 0) left e)))
