-- ===== src/Muxers/Yamux/Session/Valid.antt =====
-- libp2p/muxers/yamux/yamux.nim: the bounds of a session, and the queues of its channels.
use nim_libp2p.Common.{
  ℕ, ◌≤◌, ◌<◌, ◌≡◌, ◌⊎◌, inl, inr, refl, subst, arith, Bool, true, false, some, List, [], ◌∷◌,
  length, All, ltb, ◌&&◌, ℕ_discrete, if◌then◌else◌, Bool-cases,
}
use nim_libp2p.Common.Table
use nim_libp2p.Muxers.Yamux.Channel.{
  ToSend, YamuxChannel, got_data_from_remote, remote_closed, reset, update_recv_window,
}
use nim_libp2p.Muxers.Yamux.Channel.SendLoop.{send_loop}
use nim_libp2p.Muxers.Yamux.Channel.Sends.{IsQueued, IsLive}
use nim_libp2p.Muxers.Yamux.Channel.Rounds.{send_loop-ends}
use nim_libp2p.Muxers.Yamux.Channel.Window.{remote_closed-same}
use nim_libp2p.Muxers.Yamux.Channel.Reset.{reset-send_queue}
use nim_libp2p.Muxers.Yamux.Session.Flushed.{
  AreTracked, AreTracked-length, AreTracked-forget, AreTracked-drop_oldest, AreTracked-insert,
}
use nim_libp2p.Muxers.Yamux.Session.{
  Yamux, delete_first, forget_flushed, drop_oldest, remember_flushed, cleanup_channel, put_channel,
}

-- Every message in the queue of the channel has bytes left.
abbrev pub IsChannel : YamuxChannel → Type 0
IsChannel c = All IsQueued c.send_queue

-- There are no more open channels than the session allows, nor more streams that are flushed, in
-- their table and in its queue, and the queue holds every stream of the table.
pub record IsValid (m : Yamux) : Type 0 where
  pub within : length m.channels ≤ m.max_chann_count
  pub remembered : length m.flushed_order ≤ m.max_chann_count
  pub flushed_within : length m.flushed ≤ m.max_chann_count
  pub tracked : AreTracked m.flushed_order m.flushed
  pub queues : All (λ e. IsChannel e.1) m.channels

All-insert :
    (id : ℕ) (c : YamuxChannel) (t : List (ℕ × YamuxChannel))
    → IsChannel c
    → All (λ e. IsChannel e.1) t
    → All (λ e. IsChannel e.1) (Table.insert ℕ_discrete id c t)
unfolding Table.insert
All-insert id c [] q a = (q, tt)
All-insert id c ((j, d) ∷ t) q (qd, a) = ground (arith, All-insert id c t q a)

All-del :
    (id : ℕ) (t : List (ℕ × YamuxChannel))
    → All (λ e. IsChannel e.1) t
    → All (λ e. IsChannel e.1) (Table.del ℕ_discrete id t)
unfolding Table.del
All-del id [] a = tt
All-del id ((j, d) ∷ t) (qd, a) = ground (arith, All-del id t a)

pub All-lookup :
    (id : ℕ) (c : YamuxChannel) (t : List (ℕ × YamuxChannel))
    → All (λ e. IsChannel e.1) t
    → Table.lookup ℕ_discrete id t ≡ some c
    → IsChannel c
unfolding Table.lookup
All-lookup id c [] a e = absurd (ground arith)
All-lookup id c ((j, d) ∷ t) (qd, a) e = elim (ℕ_discrete id j) [
  | yes p ↦ subst IsChannel {x = d} {y = c} (ground arith) qd
  | no n ↦ All-lookup id c t a (ground arith)
]

delete_first-length : (id : ℕ) (xs : List ℕ) → length (delete_first id xs) ≤ length xs
unfolding delete_first
delete_first-length id [] = omega arith
delete_first-length id (x ∷ xs) = ground (arith, delete_first-length id xs)

drop_oldest-length :
    (limit : ℕ) (order : List ℕ) (flushed : List (ℕ × ℕ))
    → length (drop_oldest limit order flushed).0 ≤ limit
unfolding drop_oldest
drop_oldest-length limit [] flushed = omega arith
drop_oldest-length limit (x ∷ order) flushed =
    ground (arith, drop_oldest-length limit order (Table.del ℕ_discrete x flushed))

pub forget_flushed-IsValid : (id : ℕ) (m : Yamux) → IsValid m → IsValid (forget_flushed id m)
unfolding forget_flushed
forget_flushed-IsValid id m v = record {
  within = v.within;
  remembered = omega (arith, v.remembered, delete_first-length id m.flushed_order);
  flushed_within = omega (arith, v.flushed_within, Table.length-del-le ℕ_discrete id m.flushed);
  tracked = AreTracked-forget id m.flushed_order m.flushed v.tracked;
  queues = v.queues;
}

pub remember_flushed-IsValid :
    (id n : ℕ) (m : Yamux) → IsValid m → IsValid (remember_flushed id n m)
unfolding remember_flushed
remember_flushed-IsValid id n m v =
    let kept : AreTracked (remember_flushed id n m).flushed_order
        (remember_flushed id n m).flushed =
      AreTracked-drop_oldest m.max_chann_count _ _
        (AreTracked-insert id n m.flushed_order m.flushed v.tracked) in
    let short : length (remember_flushed id n m).flushed_order ≤ m.max_chann_count =
      drop_oldest-length m.max_chann_count _ _ in
    record {
      within = v.within;
      remembered = short;
      flushed_within = omega (arith, short, AreTracked-length _ _ kept);
      tracked = kept;
      queues = v.queues;
    }

pub cleanup_channel-IsValid :
    (c : YamuxChannel) (m : Yamux) → IsValid m → IsValid (cleanup_channel c m)
unfolding cleanup_channel
cleanup_channel-IsValid c m v = go (c.is_reset && ltb 0 c.recv_window)
  where
    deleted : Yamux
    deleted = record m { channels = Table.del ℕ_discrete c.id m.channels }

    valid : IsValid deleted
    valid = record {
      within = omega (arith, v.within, Table.length-del-le ℕ_discrete c.id m.channels);
      remembered = v.remembered;
      flushed_within = v.flushed_within;
      tracked = v.tracked;
      queues = All-del c.id m.channels v.queues;
    }

    go : (b : Bool) → IsValid (if b then remember_flushed c.id c.recv_window deleted else deleted)
    go true = remember_flushed-IsValid c.id c.recv_window deleted valid
    go false = valid

-- An open channel is put back, or a new one below the limit.
pub put_channel-IsValid :
    (id : ℕ) (c : YamuxChannel) (m : Yamux)
    → (Table.has_key ℕ_discrete id m.channels ≡ true) ⊎ (length m.channels < m.max_chann_count)
    → IsChannel c
    → IsValid m
    → IsValid (put_channel id c m)
put_channel-IsValid id c m h q v =
    let n = Table.length-insert ℕ_discrete id c m.channels in
    record {
      within = ground (arith, n, v.within);
      remembered = v.remembered;
      flushed_within = v.flushed_within;
      tracked = v.tracked;
      queues = All-insert id c m.channels q v.queues;
    }

pub got_data-IsChannel :
    (b : List ℕ) (c : YamuxChannel) → IsChannel c → IsChannel (got_data_from_remote b c)
unfolding got_data_from_remote update_recv_window
got_data-IsChannel b c q =
    let e : (got_data_from_remote b c).send_queue ≡ c.send_queue = ground arith in rw e q

pub remote_closed-IsChannel : (c : YamuxChannel) → IsChannel c → IsChannel (remote_closed c)
remote_closed-IsChannel c q = let s = remote_closed-same c in rw s.sending q

pub reset-IsChannel : (l : Bool) (c : YamuxChannel) → IsChannel c → IsChannel (reset l c)
reset-IsChannel l c q = elim (reset-send_queue l c) [ inl e ↦ rw e q | inr e ↦ rw e tt ]

IsQueued-of_live : (ts : List ToSend) → All IsLive ts → All IsQueued ts
IsQueued-of_live [] a = tt
IsQueued-of_live (t ∷ ts) ((q, l), a) = (q, IsQueued-of_live ts a)

pub send_loop-IsChannel :
    (ok : ℕ → Bool) (c : YamuxChannel)
    → IsChannel c
    → (d : YamuxChannel) × (send_loop ok c ≡ some d) × IsChannel d
unfolding send_loop
send_loop-IsChannel ok c q = elim (Bool-cases c.is_sending) [
  | inl busy ↦ (c, simp (busy, send_loop) refl, q)
  | inr idle ↦
      let (d, e, out) = send_loop-ends ok c idle q in
      let live : All IsLive d.send_queue = elim out [ inl r ↦ r.live | inr (frames, s) ↦ s.live ] in
      (d, e, IsQueued-of_live d.send_queue live)
]
