-- ===== src/Muxers/Yamux/Header/RoundTrip.antt =====
-- libp2p/muxers/yamux/yamux.nim: `readHeader` and `encode` are inverse to one another.
use nim_libp2p.Common.{
  ℕ, ◌+◌, ◌*◌, ◌/◌, ◌%◌, ◌^◌, ◌<◌, ◌≡◌, refl, arith, Bool, some, List, ◌∷◌, ◌++◌, All,
}
use nim_libp2p.Muxers.Yamux.Header.{
  MsgType, data_msg, window_update, ping, go_away, Flags, YamuxHeader, yamux_version, ord,
  checked_msg_type, flags_to_byte, flags_of, encode, Result, ok, err, parse_header, read_header,
  from_bytes_be32,
}

flags_of-flags_to_byte : (f : Flags) → (flags_of (flags_to_byte f) ≡ f) × (flags_to_byte f < 16)
unfolding flags_of flags_to_byte
flags_of-flags_to_byte f = all f.syn f.ack f.fin f.rst
  where
    all :
        (a b c d : Bool)
        → (flags_of (flags_to_byte (record { syn = a; ack = b; fin = c; rst = d }))
            ≡ record { syn = a; ack = b; fin = c; rst = d })
          × (flags_to_byte (record { syn = a; ack = b; fin = c; rst = d }) < 16)
    all a b c d = (ground arith, ground arith)

checked_msg_type-ord : (t : MsgType) → checked_msg_type (ord t) ≡ some t
unfolding checked_msg_type
checked_msg_type-ord data_msg = refl
checked_msg_type-ord window_update = refl
checked_msg_type-ord ping = refl
checked_msg_type-ord go_away = refl

ord-checked_msg_type : (n : ℕ) (t : MsgType) → checked_msg_type n ≡ some t → n ≡ ord t
unfolding checked_msg_type
ord-checked_msg_type n data_msg e = ground arith
ord-checked_msg_type n window_update e = ground arith
ord-checked_msg_type n ping e = ground arith
ord-checked_msg_type n go_away e = ground arith

be32_value :
    (x : ℕ)
    → x < 2 ^ 32
    → from_bytes_be32 (x / 0x1000000 % 256) (x / 0x10000 % 256) (x / 0x100 % 256) (x % 256) ≡ x
be32_value x h = omega arith

parse_header-encoded :
    (h : YamuxHeader) (flags stream_id len : ℕ)
    → h.version ≡ yamux_version
    → flags ≡ flags_to_byte h.flags
    → stream_id ≡ h.stream_id
    → len ≡ h.length
    → parse_header h.version (ord h.msg_type) flags stream_id len ≡ ok h
unfolding parse_header
parse_header-encoded h flags stream_id len ev ef es el =
    let (back, small) = flags_of-flags_to_byte h.flags in
    ground (arith, checked_msg_type-ord h.msg_type, back, small)

-- Every header of this version, with fields that fit 32 bits, is read back from what `encode`
-- writes, and whatever follows it on the stream is left.
pub read_header-encode :
    (h : YamuxHeader) (rest : List ℕ)
    → h.version ≡ yamux_version
    → h.stream_id < 2 ^ 32
    → h.length < 2 ^ 32
    → read_header (encode h ++ rest) ≡ ok (h, rest)
unfolding read_header encode
read_header-encode h rest hv hs hl =
    let f : ℕ = flags_to_byte h.flags in
    let e : parse_header h.version (ord h.msg_type) (f / 256 * 256 + f % 256)
          (from_bytes_be32 (h.stream_id / 0x1000000 % 256) (h.stream_id / 0x10000 % 256)
            (h.stream_id / 0x100 % 256) (h.stream_id % 256))
          (from_bytes_be32 (h.length / 0x1000000 % 256) (h.length / 0x10000 % 256)
            (h.length / 0x100 % 256) (h.length % 256))
        ≡ ok h =
      parse_header-encoded h _ _ _ hv (omega arith) (be32_value h.stream_id hs)
        (be32_value h.length hl) in
    rw (e, read_header)

flags_to_byte-flags_of : (n : ℕ) → n < 16 → flags_to_byte (flags_of n) ≡ n
unfolding flags_to_byte flags_of
flags_to_byte-flags_of n h = ground arith

-- What was parsed has this version, and is encoded to the numbers that were read.
parse_header_ok :
    (version msg flags stream_id len : ℕ) {h : YamuxHeader}
    → parse_header version msg flags stream_id len ≡ ok h
    → (version ≡ yamux_version)
      × (version ≡ h.version)
      × (msg ≡ ord h.msg_type)
      × (flags ≡ flags_to_byte h.flags)
      × (flags < 16)
      × (stream_id ≡ h.stream_id)
      × (len ≡ h.length)
unfolding parse_header
parse_header_ok version msg flags stream_id len {h} e =
    ground (arith, ord-checked_msg_type msg h.msg_type, flags_to_byte-flags_of flags)

be32_bytes :
    (a b c d x : ℕ)
    → a < 256
    → b < 256
    → c < 256
    → d < 256
    → from_bytes_be32 a b c d ≡ x
    → (a ≡ x / 0x1000000 % 256) × (b ≡ x / 0x10000 % 256) × (c ≡ x / 0x100 % 256) × (d ≡ x % 256)
be32_bytes a b c d x ha hb hc hd e = (omega arith, omega arith, omega arith, omega arith)

cons4 :
    {a b c d a' b' c' d' : ℕ} {r r' : List ℕ}
    → (a ≡ a') × (b ≡ b') × (c ≡ c') × (d ≡ d')
    → r ≡ r'
    → a ∷ b ∷ c ∷ d ∷ r ≡ a' ∷ b' ∷ c' ∷ d' ∷ r'
cons4 (ha, hb, hc, hd) e = cc

-- Only an accepted header is returned, with the bytes behind it.
pub accepted :
    (p : Result YamuxHeader) (r : List ℕ) (h : YamuxHeader) (rest : List ℕ)
    → ◌≡◌ {A = Result (YamuxHeader × List ℕ)}
        (elim p [ err e ↦ err e | ok h' ↦ ok (h', r) ])
        (ok (h, rest))
    → (p ≡ ok h) × (r ≡ rest)
accepted (err e) r h rest q = ground arith
accepted (ok h') r h rest q = (cc, cc)

-- Whatever bytes `readHeader` accepts are what `encode` writes for the header that it returns,
-- followed by the bytes that it leaves.
pub encode-read_header :
    (bytes : List ℕ) (h : YamuxHeader) (rest : List ℕ)
    → All (λ b. b < 256) bytes
    → read_header bytes ≡ ok (h, rest)
    → bytes ≡ encode h ++ rest
unfolding read_header encode
encode-read_header (v ∷ t ∷ f1 ∷ f0 ∷ s3 ∷ s2 ∷ s1 ∷ s0 ∷ l3 ∷ l2 ∷ l1 ∷ l0 ∷ r) h rest b e =
    let (parsed, same) =
      accepted
        (parse_header v t (f1 * 256 + f0) (from_bytes_be32 s3 s2 s1 s0)
          (from_bytes_be32 l3 l2 l1 l0))
        r h rest e in
    let (ev, ev', et, ef, small, es, el) =
      parse_header_ok v t (f1 * 256 + f0) (from_bytes_be32 s3 s2 s1 s0)
        (from_bytes_be32 l3 l2 l1 l0) {h = h} parsed in
    let (bv, (bt, (bf1, (bf0, (bs3, (bs2, (bs1, (bs0, (bl3, (bl2, (bl1, (bl0, br)))))))))))) = b in
    cons4 (ev', et, omega arith, omega arith)
      (cons4 (be32_bytes s3 s2 s1 s0 h.stream_id bs3 bs2 bs1 bs0 es)
        (cons4 (be32_bytes l3 l2 l1 l0 h.length bl3 bl2 bl1 bl0 el) same))
encode-read_header _ h rest b e = cc
