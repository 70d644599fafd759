-- ===== src/Handshake/ClientSide.antt =====
-- `client_handshake` of chamlon_client/src/vpn_handshake.c: MSG1, the wait for MSG2 with the buffer of data
-- packets that arrive meanwhile, and the keys that the client derives from MSG2.
use chamlon.Base.{
  ℕ, zero, suc, ◌+◌, ◌≤◌, ◌≡◌, sym, ap, ◌∙◌, Bool, true, not, ◌&&◌, List, [], ◌∷◌, ◌++◌, Option,
  none, some, arith, length, take, drop, get_or, ltb, leb, ◌==◌, if◌then◌else◌, if_elim,
  length-append, get_or-append_lt,
}
use chamlon.Wire.{encode_proto, bytes_of_u32, pkt_type_handshake, pkt_type_data}
use chamlon.Crypto.{Sodium}
use chamlon.Handshake.{Hello, handshake_header, pubkey_len, to_sign, key_material}

-- MSG1, as the client sends it.
unfoldable pub encode_msg1 : Hello → List ℕ
encode_msg1 h =
    encode_proto handshake_header
    ++ (h.c_pub
        ++ (h.c_nonce
            ++ (bytes_of_u32 h.wanted.mbps
                ++ (bytes_of_u32 h.wanted.frag ++ (h.wanted.cbr ∷ h.wanted.pad ∷ [])))))

abbrev pub msg2_length : ℕ
msg2_length = 114

abbrev pub max_discard_attempts : ℕ
max_discard_attempts = 100

abbrev pub rehandshake_buffer_size : ℕ
rehandshake_buffer_size = 128

-- What `select` and `recvfrom` give in one round, after the clock has been read: an error, no packet in
-- time, a packet that is gone again, a packet of no bytes, or a datagram, with whether `malloc` has room
-- for a copy of it.
pub data Arrival : Type 0 where
  failure timeout again closed : Arrival
  datagram : List ℕ → Bool → Arrival

-- The buffer of data packets, oldest first, with room for `slots` of them: 0 where the caller gives no
-- buffer.
unfoldable pub keep_packet : ℕ → ℕ → Bool → List ℕ → List (List ℕ) → List (List ℕ)
keep_packet slots type allocated packet buffer =
    if type == pkt_type_data && (ltb (length buffer) slots && allocated)
    then buffer ++ packet ∷ []
    else buffer

-- The array `msg2` after `recvfrom` wrote the packet to its start.
abbrev pub overwritten : List ℕ → List ℕ → List ℕ
overwritten packet msg2 = packet ++ drop (length packet) msg2

-- The loop, over what happens in each round, with `msg2` as the array was before. A datagram is cut to
-- the length of MSG2 when it is read. The result is MSG2, or `none` where the function gives up, and
-- the buffer.
unfoldable pub await_msg2 :
    ℕ → ℕ → ℕ → List (ℕ × Arrival) → List ℕ → List (List ℕ) → Option (List ℕ) × List (List ℕ)
await_msg2 slots zero deadline rounds msg2 buffer = (none, buffer)
await_msg2 slots (suc attempts) deadline [] msg2 buffer = (none, buffer)
await_msg2 slots (suc attempts) deadline ((now, arrival) ∷ rounds) msg2 buffer =
    if leb deadline now then (none, buffer) else elim arrival [
      | failure ↦ (none, buffer)
      | timeout ↦ (none, buffer)
      | again ↦ await_msg2 slots attempts deadline rounds msg2 buffer
      | closed ↦ (none, buffer)
      | datagram bytes allocated ↦
          let packet = take msg2_length bytes in
          let filled = overwritten packet msg2 in
          let type = get_or filled 5 0 in
          let rest =
            await_msg2 slots attempts deadline rounds filled
              (keep_packet slots type allocated packet buffer) in
          if not (type == pkt_type_handshake)
          then rest
          else (if length packet == msg2_length then (some packet, buffer) else (none, buffer))
    ]

-- What a handshake that succeeds gives to the client.
pub record ClientKeys : Type 0 where
  pub session_id : List ℕ
  pub k_send : List ℕ
  pub k_recv : List ℕ
  pub assigned_ip : List ℕ

-- From the fields of MSG2 on. `server_pk` is the public key of the server's signatures, and
-- `server_kx_pk` what it is converted to; the client checks the signature before it uses its private key.
unfoldable pub agree_msg2 :
    Sodium
    → List ℕ
    → List ℕ
    → List ℕ
    → List ℕ
    → List ℕ
    → List ℕ
    → List ℕ
    → List ℕ
    → Option ClientKeys
agree_msg2 c server_pk server_kx_pk c_priv c_nonce s_pub s_nonce assigned_ip sig =
    let c_pub = c.public_of c_priv in
    if not (c.verify_detached sig (to_sign s_pub s_nonce c_pub c_nonce) server_pk)
    then none
    else elim (c.scalarmult c_priv s_pub) [
      | none ↦ none
      | some dh1 ↦ elim (c.scalarmult c_priv server_kx_pk) [
        | none ↦ none
        | some dh2 ↦
            let m = key_material c dh1 dh2 c_nonce s_nonce c_pub s_pub in
            some (record {
              session_id = m.sid;
              k_send = m.k1;
              k_recv = m.k2;
              assigned_ip = assigned_ip;
            })
      ]
    ]

unfoldable pub finish_msg2 : Sodium → List ℕ → List ℕ → List ℕ → List ℕ → List ℕ → Option ClientKeys
finish_msg2 c server_pk server_kx_pk c_priv c_nonce msg2 =
    agree_msg2 c server_pk server_kx_pk c_priv c_nonce (take pubkey_len (drop 6 msg2))
      (take 8 (drop 38 msg2)) (take 4 (drop 46 msg2)) (take 64 (drop 50 msg2))

-- The whole exchange on the client: MSG1 is sent unless the conversion of the server's key fails, and the
-- wait ends 15 seconds after `now`.
unfoldable pub client_handshake :
    Sodium
    → ℕ
    → List ℕ
    → List ℕ
    → List ℕ
    → Bool
    → ℕ
    → List (ℕ × Arrival)
    → List ℕ
    → List (List ℕ)
    → Option ClientKeys × List (List ℕ)
client_handshake c slots server_pk c_priv c_nonce sent now rounds stale buffer =
    elim (c.pk_to_curve25519 server_pk) [
      | none ↦ (none, buffer)
      | some server_kx_pk ↦
          if not sent
          then (none, buffer)
          else (let (received, kept) =
                await_msg2 slots max_discard_attempts (now + 15) rounds stale buffer in
              elim received [
                | none ↦ (none, kept)
                | some msg2 ↦ (finish_msg2 c server_pk server_kx_pk c_priv c_nonce msg2, kept)
              ])
    ]

keep_packet-bounded :
    (slots type : ℕ) (allocated : Bool) (packet : List ℕ) (buffer : List (List ℕ))
    → length buffer ≤ slots
    → length (keep_packet slots type allocated packet buffer) ≤ slots
unfolding keep_packet
keep_packet-bounded slots type allocated packet buffer h =
    ground (arith, length-append buffer (packet ∷ []))

-- What the wait may give: a buffer with no more packets than it has room for, and a message that has the
-- length of MSG2 and the type of a handshake.
unfoldable pub IsWaited : ℕ → Option (List ℕ) × List (List ℕ) → Type 0
IsWaited slots (received, kept) =
    (length kept ≤ slots)
    × ((msg2 : List ℕ)
        → received ≡ some msg2
        → (length msg2 ≡ msg2_length) × (get_or msg2 5 0 ≡ pkt_type_handshake))

none-IsWaited :
    (slots : ℕ) (buffer : List (List ℕ)) → length buffer ≤ slots → IsWaited slots (none, buffer)
unfolding IsWaited
none-IsWaited slots buffer h = (h, λ m e. absurd cc)

some-IsWaited :
    (slots : ℕ) (packet stale : List ℕ) (buffer : List (List ℕ))
    → length buffer ≤ slots
    → get_or (overwritten packet stale) 5 0 ≡ pkt_type_handshake
    → (length packet == msg2_length) ≡ true
    → IsWaited slots (some packet, buffer)
unfolding IsWaited
some-IsWaited slots packet stale buffer h t l = (
  h,
  λ msg2 e.
      let same : packet ≡ msg2 = cc in
      let long : length packet ≡ 114 = grind arith in
      let type =
        sym (get_or-append_lt 5 packet (drop (length packet) stale) 0 (omega (arith, long))) ∙ t in
      (ap length (sym same) ∙ long, ap (λ p. get_or p 5 0) (sym same) ∙ type),
)

-- From a buffer that is not overfull the wait never keeps more packets than the buffer has room for, and
-- a message that it returns has exactly the length of MSG2 and the type of a handshake.
pub await_msg2-IsWaited :
    (slots attempts deadline : ℕ) (rounds : List (ℕ × Arrival)) (stale : List ℕ)
    (buffer : List (List ℕ))
    → length buffer ≤ slots
    → IsWaited slots (await_msg2 slots attempts deadline rounds stale buffer)
unfolding await_msg2
await_msg2-IsWaited slots zero deadline rounds stale buffer h = none-IsWaited slots buffer h
await_msg2-IsWaited slots (suc attempts) deadline [] stale buffer h = none-IsWaited slots buffer h
await_msg2-IsWaited slots (suc attempts) deadline ((now, failure) ∷ rounds) stale buffer h =
    let stop = none-IsWaited slots buffer h in
    if_elim (IsWaited slots) (leb deadline now) _ _ (λ _. stop) (λ _. stop)
await_msg2-IsWaited slots (suc attempts) deadline ((now, timeout) ∷ rounds) stale buffer h =
    let stop = none-IsWaited slots buffer h in
    if_elim (IsWaited slots) (leb deadline now) _ _ (λ _. stop) (λ _. stop)
await_msg2-IsWaited slots (suc attempts) deadline ((now, closed) ∷ rounds) stale buffer h =
    let stop = none-IsWaited slots buffer h in
    if_elim (IsWaited slots) (leb deadline now) _ _ (λ _. stop) (λ _. stop)
await_msg2-IsWaited slots (suc attempts) deadline ((now, again) ∷ rounds) stale buffer h =
    if_elim (IsWaited slots) (leb deadline now) _ _ (λ _. none-IsWaited slots buffer h)
      (λ _. await_msg2-IsWaited slots attempts deadline rounds stale buffer h)
await_msg2-IsWaited slots (suc attempts) deadline ((now, datagram bytes room) ∷ rounds) stale buffer
      h =
    let stop = none-IsWaited slots buffer h in
    let packet = take msg2_length bytes in
    let filled = overwritten packet stale in
    let type = get_or filled 5 0 in
    if_elim (IsWaited slots) (leb deadline now) _ _ (λ _. stop)
      (λ _.
        if_elim (IsWaited slots) (not (type == pkt_type_handshake)) _ _
          (λ _.
            await_msg2-IsWaited slots attempts deadline rounds filled
              (keep_packet slots type room packet buffer)
              (keep_packet-bounded slots type room packet buffer h))
          (λ t.
            if_elim (IsWaited slots) (length packet == msg2_length) _ _
              (some-IsWaited slots packet stale buffer h (grind arith)) (λ _. stop)))
