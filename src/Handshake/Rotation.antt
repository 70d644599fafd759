-- ===== src/Handshake/Rotation.antt =====
-- A client that rotates its keys agrees with the server as at its first handshake.
use chamlon.Base.{
  ℕ, ◌≡◌, inl, inr, refl, sym, ap, ◌∙◌, Bool, true, not, ◌&&◌, List, ◌∷◌, Option, some, arith,
  length, get_elem?, ◌==◌, if_elim, Option-cases,
}
use chamlon.Crypto.{Sodium}
use chamlon.Crypto.Contract.{IsSodium}
use chamlon.Sessions.{Client, Session, same_client, update_slot}
use chamlon.Sessions.Slots.{first_slot-some, get_elem?-update_self}
use chamlon.Sessions.Addresses.{IsAddressed}
use chamlon.Handshake.{
  Hello, Entropy, Calls, Server, Material, negotiate, handle_msg1, handle_rehandshake_msg1,
  parse_msg1, encode_msg2, msg1_len, rotated, session_by_client, vpn_ip_at,
}
use chamlon.Handshake.ClientSide.{encode_msg1, ClientKeys, finish_msg2}
use chamlon.Handshake.Fields.{IsHello, parse_msg1-encode_msg1}
use chamlon.Handshake.Agreement.{
  IsPair, Shared, client_keys, vpn_ip_len, finish_msg2_lem, handle_msg1-Shared,
}

-- What the reply of a handler gives to the client.
abbrev Agrees : Sodium → Server → List ℕ → List ℕ → List ℕ → Option (List ℕ) × Server → Type 0
Agrees c srv c_priv kx c_nonce r =
    (msg2 : List ℕ)
    → r.0 ≡ some msg2
    → (keys : ClientKeys) × (finish_msg2 c (c.sign_public_of srv.sign_sk) kx c_priv c_nonce msg2
        ≡ some keys)
      × Shared keys r.1.sessions

-- The slot of the client's session, whose address has four bytes.
found_client :
    (src : Client) (t : List Session) (i : ℕ)
    → IsAddressed t
    → session_by_client src t ≡ some i
    → (s : Session) × (get_elem? t i ≡ some s)
      × (s.active ≡ true)
      × (vpn_ip_at t i ≡ s.vpn_ip)
      × (length s.vpn_ip ≡ 4)
found_client src t i inv p =
    let f = first_slot-some (λ s. s.active && same_client s.client_addr src) t i p in
    let live : f.session.active ≡ true = ground (arith, f.passes) in
    (
      f.session,
      f.there,
      live,
      rw (vpn_ip_at, f.there) refl,
      ap length (inv i f.session f.there live) ∙ vpn_ip_len i,
    )

-- Where the client's MSG1 comes from the address of its session, from its slot on.
rotated-Agrees :
    (c : Sodium) (e : Entropy) (srv : Server) (c_priv kx : List ℕ) (h : Hello) (sig : List ℕ)
    (m : Material) (allocated : Bool) (now i : ℕ) (src : Client)
    → IsSodium c
    → IsPair c e srv c_priv kx h
    → IsAddressed srv.sessions
    → negotiate c e srv h ≡ some (sig, m)
    → session_by_client src srv.sessions ≡ some i
    → Agrees c srv c_priv kx h.c_nonce (
      some (encode_msg2 (c.public_of e.s_priv) e.s_nonce (vpn_ip_at srv.sessions i) sig),
      record srv {
        sessions = update_slot i (rotated allocated now m) srv.sessions;
        scheduled = m.sid ∷ srv.scheduled;
      },
    )
rotated-Agrees c e srv c_priv kx h sig m allocated now i src good pair inv n p msg2 sent =
    let (s, there, live, at, four) = found_client src srv.sessions i inv p in
    let s_pub = c.public_of e.s_priv in
    let same : encode_msg2 s_pub e.s_nonce (vpn_ip_at srv.sessions i) sig ≡ msg2 = cc in
    (
      client_keys m s.vpn_ip,
      ap (finish_msg2 c (c.sign_public_of srv.sign_sk) kx c_priv h.c_nonce)
            (sym same ∙ ap (λ ip. encode_msg2 s_pub e.s_nonce ip sig) at)
          ∙ finish_msg2_lem c e srv c_priv kx s.vpn_ip h sig m good pair n four,
      record {
        slot = i;
        session = rotated allocated now m s;
        there = get_elem?-update_self i (rotated allocated now m) srv.sessions s there;
        live = live;
        same_id = refl;
        to_server = refl;
        to_client = refl;
        same_ip = refl;
      },
    )

-- When libsodium keeps its promises, the client knows the server's public key and every active slot has
-- the address of its index, the MSG2 with which the server answers a client that asks for new keys gives
-- the client the identifier, the two keys and the address of an active session, whether the server
-- rotates the keys of the client's session or opens a new one.
pub handle_rehandshake_msg1-Shared :
    (c : Sodium) (e again : Entropy) (calls : Calls) (now : ℕ) (src : Client) (h : Hello)
    (srv : Server) (c_priv kx msg2 : List ℕ)
    → IsSodium c
    → IsHello h
    → IsPair c e srv c_priv kx h
    → IsPair c again srv c_priv kx h
    → IsAddressed srv.sessions
    → (handle_rehandshake_msg1 c e again calls now src (encode_msg1 h) srv).0 ≡ some msg2
    → (keys : ClientKeys) × (finish_msg2 c (c.sign_public_of srv.sign_sk) kx c_priv h.c_nonce msg2
        ≡ some keys)
      × Shared keys (handle_rehandshake_msg1 c e again calls now src (encode_msg1 h) srv).1.sessions
unfolding handle_rehandshake_msg1
handle_rehandshake_msg1-Shared c e again calls now src h srv c_priv kx msg2 good hello pair pair'
      inv sent =
    let msg1 = encode_msg1 h in
    let Result : Option (List ℕ) × Server → Type 0 = Agrees c srv c_priv kx h.c_nonce in
    let fallback : Result (handle_msg1 c again calls now src msg1 srv) =
      λ m q. handle_msg1-Shared c again calls now src h srv c_priv kx m good hello pair' q in
    let outcome : Result (handle_rehandshake_msg1 c e again calls now src msg1 srv) =
      if_elim Result (not (length msg1 == msg1_len)) _ _ (λ _ m q. absurd cc)
        (λ _. elim (Option-cases (session_by_client src srv.sessions)) [
          | inl n ↦ rw n fallback
          | inr (i, p) ↦ elim (Option-cases (negotiate c e srv (parse_msg1 msg1))) [
            | inl n ↦ rw (p, n) fallback
            | inr ((sig, m), q) ↦
                let q' = ap (negotiate c e srv) (sym (parse_msg1-encode_msg1 h hello)) ∙ q in
                rw (p, q)
                  (rotated-Agrees c e srv c_priv kx h sig m calls.allocated now i src good pair inv
                    q' p)
          ]
        ]) in
    outcome msg2 sent
