-- ===== src/Cbind/Bounds.antt =====
-- The sizes of what the callbacks of cbind/examples copy.
pub mod Copies
use nim_libp2p.Common.{
  ℕ, zero, suc, ◌-◌, ◌≤◌, ◌≡◌, refl, arith, Bool, true, false, List, [], ◌∷◌, Option, none, some,
  All, map, take, length, length-take, if◌then◌else◌, not, ◌&&◌, ◌++◌,
}
use nim_libp2p.Cbind.Binding.{
  Bytes, ℤ, negsuc, is_ok, codes, Answer, PeerInfo, PeerStoreEntry, ExtendedPeerRecord, ServiceInfo,
}
use nim_libp2p.Cbind.Waiters.{
  waiter, bool_waiter, on_bool, create_waiter, on_created, peer_info_waiter, on_peerinfo, snprintf,
  copied, copied_all, copied_bytes, filled, max_addrs, c_string,
}
use nim_libp2p.Cbind.Echo.{on_read, on_dial}
use nim_libp2p.Cbind.Kad.{on_cid, on_value, on_providers}
use nim_libp2p.Cbind.Metrics.{on_metrics}
use nim_libp2p.Cbind.Peerstore.{on_peers, on_entry}
use nim_libp2p.Cbind.Gossipsub.{on_publish}
use nim_libp2p.Cbind.Program.{Globals, on_pubsub_message}
use nim_libp2p.Cbind.ServiceDisco
use nim_libp2p.Cbind.ServiceDisco.{Found, found, copy_service_data, on_records}
use nim_libp2p.Cbind.MobileCheck
use nim_libp2p.Cbind.MobileCheck.{
  CallbackWait, callback_wait, record_error, error_text, is_empty, decimal, signal_done, set_ctx,
  is_null, set_reply, on_bool_reply,
}
use nim_libp2p.Cbind.Bounds.Copies.{
  IsWithin, copied-IsWithin, copied_all-IsWithin, copied_bytes-le, Fits, map-found-Fits,
  error_text-IsWithin, on_reply,
}

-- Either callback of libp2p_mobile_check.c: a missing reply adds a message of its own.
recorded-IsWithin :
    (code : ℤ) (message : Option Bytes) (null : Bytes) (c : Bool) (w : CallbackWait)
    → w.err_msg ≡ error_text code message []
    → IsWithin 512
        (signal_done (
          if c
          then record_error (negsuc 0) (some null) (record_error code message callback_wait)
          else w)).err_msg
unfolding signal_done record_error
recorded-IsWithin code message null c w e = go c
  where
    first : IsWithin 512 (error_text code message [])
    first = error_text-IsWithin code message [] (omega arith)

    go :
        (c : Bool)
        → IsWithin 512
            (signal_done (
              if c
              then record_error (negsuc 0) (some null) (record_error code message callback_wait)
              else w)).err_msg
    go true = error_text-IsWithin (negsuc 0) (some null) _ first
    go false = rw e first

set_reply-err_msg : (r : Option Bool) (w : CallbackWait) → (set_reply r w).err_msg ≡ w.err_msg
unfolding set_reply
set_reply-err_msg none w = refl
set_reply-err_msg (some r) w = refl

-- What the binding gives to the callbacks, an answer for each type of reply, and the state that a
-- message finds.
pub record Given : Type 0 where
  pub flag : Answer Bool
  pub number : Answer ℕ
  pub info : Answer PeerInfo
  pub entry : Answer PeerStoreEntry
  pub ids : Answer (List (Option Bytes))
  pub text : Answer (Option Bytes)
  pub records : Answer (List ExtendedPeerRecord)
  pub payload : Option Bytes
  pub globals : Globals

-- The message of an answer, in a zeroed waiter of each callback.
abbrev pub AreErrorsWithin : Given → Type 0
AreErrorsWithin g =
    IsWithin 256 (on_bool g.flag bool_waiter).err
    × IsWithin 256 (on_created g.number create_waiter).err
    × IsWithin 256 (on_peerinfo g.info peer_info_waiter).err
    × IsWithin 256 (on_peers g.ids (waiter [])).err
    × IsWithin 256 (on_entry g.entry (waiter (record { naddrs = 0; nprotocols = 0 }))).err
    × IsWithin 256 (on_providers g.ids (waiter [])).err
    × IsWithin 256 (on_cid g.text (waiter [])).err
    × IsWithin 256 (on_value g.text (waiter [])).err
    × IsWithin 256 (on_read g.text (waiter [])).err
    × IsWithin 256 (on_dial g.number (waiter 0)).err
    × IsWithin 256 (on_publish g.number (waiter 0)).err
    × IsWithin 256 (on_metrics g.text (waiter [])).err
    × IsWithin 256 (on_records g.records (waiter [])).err
    × IsWithin 512 (MobileCheck.on_created g.number callback_wait).err_msg
    × IsWithin 512 (on_bool_reply g.flag callback_wait).err_msg

-- What a callback copies of a reply: strings with their NUL into their buffers, lists and bytes into
-- their arrays. The last one is the listener of gossipsub.c.
abbrev pub AreRepliesWithin : Given → Type 0
AreRepliesWithin g =
    (let w = on_peerinfo g.info peer_info_waiter in
      IsWithin 128 w.peer_id × (length (w.addrs) ≤ max_addrs) × All (IsWithin 256) w.addrs)
    × (let ps = (on_peers g.ids (waiter [])).value in (length ps ≤ 16) × All (IsWithin 128) ps)
    × (let ps = (on_providers g.ids (waiter [])).value in (length ps ≤ 8) × All (IsWithin 128) ps)
    × IsWithin 256 (on_cid g.text (waiter [])).value
    × (length ((on_value g.text (waiter [])).value) ≤ 512)
    × (length ((on_read g.text (waiter [])).value) ≤ 4096)
    × IsWithin 65536 (on_metrics g.text (waiter [])).value
    × (let rs = (on_records g.records (waiter [])).value in (length rs ≤ 32) × All Fits rs)
    × IsWithin 512 (on_pubsub_message g.payload g.globals).received

-- The message of an answer fits into every waiter.
errors-IsWithin : (g : Given) → AreErrorsWithin g
unfolding on_bool on_created on_peerinfo on_peers on_entry on_providers on_cid on_value on_read
    on_dial on_publish on_metrics on_records filled MobileCheck.on_created on_bool_reply
    record_error set_ctx
errors-IsWithin g = (
  within g.flag.message,
  within g.number.message,
  within g.info.message,
  within g.ids.message,
  within g.entry.message,
  within g.ids.message,
  within g.text.message,
  within g.text.message,
  within g.text.message,
  within g.number.message,
  within g.number.message,
  within g.text.message,
  within g.records.message,
  recorded-IsWithin g.number.code g.number.message (codes "create callback returned a null context")
      (is_ok g.number.code && is_null g.number.reply)
      (set_ctx g.number.reply (record_error g.number.code g.number.message callback_wait)) refl,
  recorded-IsWithin g.flag.code g.flag.message (codes "bool callback returned a null reply")
      (is_ok g.flag.code && is_null g.flag.reply)
      (set_reply g.flag.reply (record_error g.flag.code g.flag.message callback_wait))
      (set_reply-err_msg g.flag.reply (record_error g.flag.code g.flag.message callback_wait)),
)
  where
    within : (s : Option Bytes) → IsWithin 256 (copied 256 s [])
    within s = copied-IsWithin 256 s [] (omega arith) (omega arith)

-- So does what is copied of a reply.
replies-IsWithin : (g : Given) → AreRepliesWithin g
unfolding on_peerinfo on_peers on_providers on_cid on_value on_read on_metrics on_records filled
    on_pubsub_message
replies-IsWithin g = (
  (
    on_reply (IsWithin 128) g.info.reply [] _ (omega arith) (λ r. within 127 r.peer_id),
    on_reply (λ xs. length xs ≤ max_addrs) g.info.reply [] _ (omega arith)
        (λ r. (copied_all-IsWithin max_addrs 256 r.addrs (omega arith)).0),
    on_reply (All (IsWithin 256)) g.info.reply [] _ tt
        (λ r. (copied_all-IsWithin max_addrs 256 r.addrs (omega arith)).1),
  ),
  strings 16,
  strings 8,
  on_reply (IsWithin 256) g.text.reply [] (λ r. copied 256 r []) (omega arith) (within 255),
  bytes 512,
  bytes 4096,
  omega (arith, bytes 65535),
  (
    on_reply (λ xs. length xs ≤ 32) g.records.reply [] (λ r. map found (take 32 r)) (omega arith)
        (λ r. (map-found-Fits 32 r).0),
    on_reply (All Fits) g.records.reply [] (λ r. map found (take 32 r)) tt
        (λ r. (map-found-Fits 32 r).1),
  ),
  on_reply (IsWithin 512) g.payload [] (λ r. take 511 r) (omega arith)
      (λ r. omega (arith, length-take 511 r)),
)
  where
    within : (size : ℕ) (s : Option Bytes) → IsWithin (suc size) (copied (suc size) s [])
    within size s = copied-IsWithin (suc size) s [] (omega arith) (omega arith)

    strings :
        (count : ℕ)
        → (length (elim g.ids.reply [ none ↦ [] | some r ↦ copied_all count 128 r ]) ≤ count)
          × All (IsWithin 128) (elim g.ids.reply [ none ↦ [] | some r ↦ copied_all count 128 r ])
    strings count = (
      on_reply (λ xs. length xs ≤ count) g.ids.reply [] (λ r. copied_all count 128 r) (omega arith)
          (λ r. (copied_all-IsWithin count 128 r (omega arith)).0),
      on_reply (All (IsWithin 128)) g.ids.reply [] (λ r. copied_all count 128 r) tt
          (λ r. (copied_all-IsWithin count 128 r (omega arith)).1),
    )

    bytes :
        (size : ℕ)
        → length (elim g.text.reply [ none ↦ [] | some r ↦ copied_bytes size r [] ]) ≤ size
    bytes size =
        on_reply (λ xs. length xs ≤ size) g.text.reply [] (λ r. copied_bytes size r [])
          (omega arith) (λ r. copied_bytes-le size r [] (omega arith))

-- Whatever a callback is given, what it copies fits, into a zeroed waiter or for a message into the
-- text received so far: the message of an answer, also that of an error, and what it keeps of a reply.
-- Strings fit with their NUL into their buffers, lists and bytes into their arrays.
pub callbacks-IsWithin : (g : Given) → AreErrorsWithin g × AreRepliesWithin g
callbacks-IsWithin g = (errors-IsWithin g, replies-IsWithin g)
