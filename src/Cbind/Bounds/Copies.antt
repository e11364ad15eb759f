-- ===== src/Cbind/Bounds/Copies.antt =====
-- The sizes of what cbind/examples copies, for each way to copy.
use nim_libp2p.Common.{
  ℕ, zero, suc, ◌-◌, ◌≤◌, arith, Bool, true, false, List, [], ◌∷◌, Option, none, some, All, map,
  take, length, length-take, if◌then◌else◌, not, ◌++◌,
}
use nim_libp2p.Cbind.Binding.{Bytes, ℤ, is_ok, codes, ExtendedPeerRecord, ServiceInfo}
use nim_libp2p.Cbind.Waiters.{snprintf, copied, copied_all, copied_bytes, c_string}
use nim_libp2p.Cbind.ServiceDisco
use nim_libp2p.Cbind.ServiceDisco.{Found, found, copy_service_data, on_records}
use nim_libp2p.Cbind.MobileCheck.{error_text, is_empty, decimal}

-- A string with its NUL fits into a buffer of `cap` bytes.
abbrev pub IsWithin : ℕ → Bytes → Type 0
IsWithin cap s = suc (length s) ≤ cap

snprintf-IsWithin : (cap : ℕ) (s : Bytes) → 1 ≤ cap → IsWithin cap (snprintf cap s)
unfolding snprintf
snprintf-IsWithin cap s h = omega (arith, length-take (cap - 1) s, h)

pub copied-IsWithin :
    (cap : ℕ) (s : Option Bytes) (dst : Bytes)
    → 1 ≤ cap
    → IsWithin cap dst
    → IsWithin cap (copied cap s dst)
unfolding copied
copied-IsWithin cap none dst h d = d
copied-IsWithin cap (some s) dst h d = snprintf-IsWithin cap s h

pub copied_all-IsWithin :
    (count cap : ℕ) (xs : List (Option Bytes))
    → 1 ≤ cap
    → (length (copied_all count cap xs) ≤ count) × All (IsWithin cap) (copied_all count cap xs)
unfolding copied_all
copied_all-IsWithin zero cap xs h = (omega arith, tt)
copied_all-IsWithin (suc n) cap [] h = (omega arith, tt)
copied_all-IsWithin (suc n) cap (x ∷ xs) h =
    let (l, a) = copied_all-IsWithin n cap xs h in
    (omega (arith, l), (copied-IsWithin cap x [] h (omega (arith, h)), a))

pub copied_bytes-le :
    (cap : ℕ) (s : Option Bytes) (dst : Bytes)
    → length dst ≤ cap
    → length (copied_bytes cap s dst) ≤ cap
unfolding copied_bytes
copied_bytes-le cap none dst h = h
copied_bytes-le cap (some s) dst h = omega (arith, length-take cap s)

copy_service_data-IsWithin : (xs : List ServiceInfo) → IsWithin 128 (copy_service_data xs).1
unfolding copy_service_data
copy_service_data-IsWithin [] = omega arith
copy_service_data-IsWithin (x ∷ xs) =
    go (ServiceDisco.is_service x.id) x.data_bytes (copy_service_data-IsWithin xs)
  where
    go :
        (c : Bool) (s : Option Bytes)
        → IsWithin 128 (copy_service_data xs).1
        → IsWithin 128
            (if c
              then (true, elim s [ none ↦ [] | some payload ↦ snprintf 128 (c_string payload) ])
              else copy_service_data xs).1
    go true none h = omega arith
    go true (some payload) h = snprintf-IsWithin 128 (c_string payload) (omega arith)
    go false s h = h

-- A record of a lookup: its peer id and its data fit.
abbrev pub Fits : Found → Type 0
Fits r = IsWithin 128 r.peer_id × IsWithin 128 r.data_bytes

pub map-found-Fits :
    (n : ℕ) (rs : List ExtendedPeerRecord)
    → (length (map found (take n rs)) ≤ n) × All Fits (map found (take n rs))
unfolding found
map-found-Fits zero rs = (omega arith, tt)
map-found-Fits (suc n) [] = (omega arith, tt)
map-found-Fits (suc n) (r ∷ rs) =
    let (l, a) = map-found-Fits n rs in
    (
      omega (arith, l),
      (
        (
          copied-IsWithin 128 r.peer_id [] (omega arith) (omega arith),
          copy_service_data-IsWithin r.services,
        ),
        a,
      ),
    )

pub error_text-IsWithin :
    (code : ℤ) (msg : Option Bytes) (old : Bytes)
    → IsWithin 512 old
    → IsWithin 512 (error_text code msg old)
unfolding error_text
error_text-IsWithin code msg old h = go (is_empty msg) (is_ok code)
  where
    go :
        (e o : Bool)
        → IsWithin 512 (
            if not e
            then copied 512 msg old
            else (if not o
                then copied 512 (some (codes "FFI returned error code " ++ decimal code)) old
                else old))
    go false o = copied-IsWithin 512 msg old (omega arith) h
    go true false =
        copied-IsWithin 512 (some (codes "FFI returned error code " ++ decimal code)) old
          (omega arith) h
    go true true = h

-- What holds of the old value and of what a reply leaves holds after a callback.
pub on_reply :
    {R V : Type 0} (P : V → Type 0) (o : Option R) (z : V) (f : R → V)
    → P z
    → ((r : R) → P (f r))
    → P (elim o [ none ↦ z | some r ↦ f r ])
on_reply P none z f pz pf = pz
on_reply P (some r) z f pz pf = pf r
