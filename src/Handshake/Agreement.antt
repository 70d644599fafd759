-- ===== src/Handshake/Agreement.antt =====
-- The client and the server agree: what the client derives from the MSG2 of a server that answers.
use chamlon.Base.{
  ℕ, ◌≡◌, inl, inr, refl, sym, ap, subst, ◌∙◌, true, List, ◌++◌, Option, none, some, arith, length,
  take, drop, get_elem?, Option-cases, take-append_exact, drop-append_exact, take_all, drop-add,
}
use chamlon.Crypto.{Sodium}
use chamlon.Crypto.Contract.{IsSodium}
use chamlon.Wire.{encode_proto}
use chamlon.Sessions.{Session, Client, vpn_ip_of, keyed, connected}
use chamlon.Sessions.Clients.{taken, open_session_lem}
use chamlon.Handshake.{
  Hello, Entropy, Calls, Server, Material, to_sign, key_material, agreed_of, encode_msg2, negotiate,
  handle_msg1,
}
use chamlon.Handshake.ClientSide.{encode_msg1, ClientKeys, agree_msg2, finish_msg2}
use chamlon.Handshake.Fields.{IsHello, parse_msg1-encode_msg1}
use chamlon.Handshake.Outcome.{Outcome, Answered, handle_msg1-Outcome}

-- What the server reads out of its keys when it answers.
record Negotiated (c : Sodium) (e : Entropy) (srv : Server) (h : Hello) (sig : List ℕ)
    (m : Material) : Type 0 where
  dh1 : List ℕ
  dh2 : List ℕ
  signed :
      c.sign_detached srv.sign_sk (to_sign (c.public_of e.s_priv) e.s_nonce h.c_pub h.c_nonce)
      ≡ some sig
  ephemeral : c.scalarmult e.s_priv h.c_pub ≡ some dh1
  static : c.scalarmult srv.server_sk h.c_pub ≡ some dh2
  derived : m ≡ key_material c dh1 dh2 h.c_nonce e.s_nonce h.c_pub (c.public_of e.s_priv)

negotiate_lem :
    (c : Sodium) (e : Entropy) (srv : Server) (h : Hello) (sig : List ℕ) (m : Material)
    → negotiate c e srv h ≡ some (sig, m)
    → Negotiated c e srv h sig m
unfolding negotiate
negotiate_lem c e srv h sig m n =
    let s_pub = c.public_of e.s_priv in
    elim (Option-cases (c.sign_detached srv.sign_sk (to_sign s_pub e.s_nonce h.c_pub h.c_nonce))) [
      | inl f ↦
          let no : ◌≡◌ {A = Option (List ℕ × Material)} none (some (sig, m)) =
            sym (rw (negotiate, f) refl) ∙ n in
          absurd cc
      | inr (sig', s) ↦ elim (Option-cases (c.scalarmult e.s_priv h.c_pub)) [
        | inl f ↦
            let no : ◌≡◌ {A = Option (List ℕ × Material)} none (some (sig, m)) =
              sym (rw (negotiate, s, f) refl) ∙ n in
            absurd cc
        | inr (d1, p) ↦ elim (Option-cases (c.scalarmult srv.server_sk h.c_pub)) [
          | inl f ↦
              let no : ◌≡◌ {A = Option (List ℕ × Material)} none (some (sig, m)) =
                sym (rw (negotiate, s, p, f) refl) ∙ n in
              absurd cc
          | inr (d2, q) ↦
              let k = key_material c d1 d2 h.c_nonce e.s_nonce h.c_pub s_pub in
              let given : some (sig', k) ≡ some (sig, m) = sym (rw (negotiate, s, p, q) refl) ∙ n in
              let pair : (sig', k) ≡ (sig, m) = cc in
              record {
                dh1 = d1;
                dh2 = d2;
                signed = s ∙ ap some (ap (λ (z : List ℕ × Material). z.0) pair);
                ephemeral = p;
                static = q;
                derived = sym (ap (λ (z : List ℕ × Material). z.1) pair);
              }
        ]
      ]
    ]

-- The client reads from MSG2 what the server wrote.
finish_msg2-encode_msg2 :
    (c : Sodium) (pk kx priv nonce s_pub s_nonce ip sig : List ℕ)
    → length s_pub ≡ 32
    → length s_nonce ≡ 8
    → length ip ≡ 4
    → length sig ≡ 64
    → finish_msg2 c pk kx priv nonce (encode_msg2 s_pub s_nonce ip sig)
      ≡ agree_msg2 c pk kx priv nonce s_pub s_nonce ip sig
unfolding finish_msg2 encode_proto
finish_msg2-encode_msg2 c pk kx priv nonce s_pub s_nonce ip sig lp ln li ls =
    let body = s_pub ++ (s_nonce ++ (ip ++ sig)) in
    let second : drop 32 body ≡ s_nonce ++ (ip ++ sig) = drop-append_exact 32 s_pub _ lp in
    let third : drop 40 body ≡ ip ++ sig =
      drop-add 32 8 body ∙ ap (drop 8) second ∙ drop-append_exact 8 s_nonce (ip ++ sig) ln in
    let fourth : drop 44 body ≡ sig =
      drop-add 40 4 body ∙ ap (drop 4) third ∙ drop-append_exact 4 ip sig li in
    let f1 : take 32 body ≡ s_pub = take-append_exact 32 s_pub _ lp in
    let f2 : take 8 (drop 32 body) ≡ s_nonce =
      ap (take 8) second ∙ take-append_exact 8 s_nonce (ip ++ sig) ln in
    let f3 : take 4 (drop 40 body) ≡ ip = ap (take 4) third ∙ take-append_exact 4 ip sig li in
    let f4 : take 64 (drop 44 body) ≡ sig = ap (take 64) fourth ∙ take_all 64 sig (omega arith) in
    λ i. agree_msg2 c pk kx priv nonce (f1 i) (f2 i) (f3 i) (f4 i)

-- The secrets of a client and of a server whose clients know the public key of its signatures.
pub record IsPair (c : Sodium) (e : Entropy) (srv : Server) (c_priv kx : List ℕ) (h : Hello)
    : Type 0 where
  pub own : h.c_pub ≡ c.public_of c_priv
  pub server_key : c.sk_to_curve25519 srv.sign_sk ≡ some srv.server_sk
  pub converted : c.pk_to_curve25519 (c.sign_public_of srv.sign_sk) ≡ some kx
  pub nonce_len : length e.s_nonce ≡ 8

-- The keys, the identifier and the address that the client ends with.
abbrev pub client_keys : Material → List ℕ → ClientKeys
client_keys m ip = record { session_id = m.sid; k_send = m.k1; k_recv = m.k2; assigned_ip = ip }

agree_msg2_lem :
    (c : Sodium) (e : Entropy) (srv : Server) (c_priv kx ip : List ℕ) (h : Hello) (sig : List ℕ)
    (m : Material)
    → IsSodium c
    → IsPair c e srv c_priv kx h
    → negotiate c e srv h ≡ some (sig, m)
    → agree_msg2 c
        (c.sign_public_of srv.sign_sk)
        kx
        c_priv
        h.c_nonce
        (c.public_of e.s_priv)
        e.s_nonce
        ip
        sig
      ≡ some (client_keys m ip)
unfolding agree_msg2
agree_msg2_lem c e srv c_priv kx ip h sig m good pair n =
    let r = negotiate_lem c e srv h sig m n in
    let s_pub = c.public_of e.s_priv in
    let to_verify : List ℕ → List ℕ = λ k. to_sign s_pub e.s_nonce k h.c_nonce in
    let signed =
      ap (λ k. c.verify_detached sig (to_verify k) (c.sign_public_of srv.sign_sk)) (sym pair.own)
      ∙ good.verifies srv.sign_sk _ sig r.signed in
    let derived =
      r.derived ∙ ap (λ k. key_material c r.dh1 r.dh2 h.c_nonce e.s_nonce k s_pub) pair.own in
    let first : c.scalarmult c_priv (c.public_of e.s_priv) ≡ some r.dh1 =
      good.same_point c_priv e.s_priv ∙ ap (c.scalarmult e.s_priv) (sym pair.own) ∙ r.ephemeral in
    let both : some (c.public_of srv.server_sk) ≡ some kx =
      sym (good.converts srv.sign_sk srv.server_sk pair.server_key) ∙ pair.converted in
    let same : c.public_of srv.server_sk ≡ kx = cc in
    let second : c.scalarmult c_priv kx ≡ some r.dh2 =
      ap (c.scalarmult c_priv) (sym same)
      ∙ good.same_point c_priv srv.server_sk
      ∙ ap (c.scalarmult srv.server_sk) (sym pair.own)
      ∙ r.static in
    rw (signed, first, second) (ap (λ x. some (client_keys x ip)) (sym derived))

-- What a client and the server that answered it share.
pub record Shared (keys : ClientKeys) (t : List Session) : Type 0 where
  pub slot : ℕ
  pub session : Session
  pub there : get_elem? t slot ≡ some session
  pub live : session.active ≡ true
  pub same_id : keys.session_id ≡ session.session_id
  pub to_server : keys.k_send ≡ session.k_recv
  pub to_client : keys.k_recv ≡ session.k_send
  pub same_ip : keys.assigned_ip ≡ session.vpn_ip

pub vpn_ip_len : (i : ℕ) → length (vpn_ip_of i) ≡ 4
unfolding vpn_ip_of
vpn_ip_len i = refl

-- The client reads the keys out of the MSG2 that goes with them.
pub finish_msg2_lem :
    (c : Sodium) (e : Entropy) (srv : Server) (c_priv kx ip : List ℕ) (h : Hello) (sig : List ℕ)
    (m : Material)
    → IsSodium c
    → IsPair c e srv c_priv kx h
    → negotiate c e srv h ≡ some (sig, m)
    → length ip ≡ 4
    → finish_msg2 c
        (c.sign_public_of srv.sign_sk)
        kx
        c_priv
        h.c_nonce
        (encode_msg2 (c.public_of e.s_priv) e.s_nonce ip sig)
      ≡ some (client_keys m ip)
finish_msg2_lem c e srv c_priv kx ip h sig m good pair n four =
    let signed = (negotiate_lem c e srv h sig m n).signed in
    finish_msg2-encode_msg2 c (c.sign_public_of srv.sign_sk) kx c_priv h.c_nonce
      (c.public_of e.s_priv) e.s_nonce ip sig (good.public_len e.s_priv) pair.nonce_len four
      (good.signature_len srv.sign_sk _ sig signed)
    ∙ agree_msg2_lem c e srv c_priv kx ip h sig m good pair n

Answered-Shared :
    (c : Sodium) (e : Entropy) (now : ℕ) (src : Client) (h : Hello) (srv : Server)
    (c_priv kx msg2 : List ℕ) (r : Option (List ℕ) × Server)
    → IsSodium c
    → IsPair c e srv c_priv kx h
    → Answered c e now src h srv r
    → r.0 ≡ some msg2
    → (keys : ClientKeys) × (finish_msg2 c (c.sign_public_of srv.sign_sk) kx c_priv h.c_nonce msg2
        ≡ some keys)
      × Shared keys r.1.sessions
Answered-Shared c e now src h srv c_priv kx msg2 r good pair a sent =
    let ip = vpn_ip_of a.slot in
    let b = agreed_of h a.material src now in
    let both : some (encode_msg2 (c.public_of e.s_priv) e.s_nonce ip a.sig) ≡ some msg2 =
      sym a.reply ∙ sent in
    let same : encode_msg2 (c.public_of e.s_priv) e.s_nonce ip a.sig ≡ msg2 = cc in
    let o = open_session_lem b srv.sessions r.1.sessions a.slot a.opened in
    (
      client_keys a.material ip,
      ap (finish_msg2 c (c.sign_public_of srv.sign_sk) kx c_priv h.c_nonce) (sym same)
          ∙ finish_msg2_lem c e srv c_priv kx ip h a.sig a.material good pair a.agreed
              (vpn_ip_len a.slot),
      record {
        slot = a.slot;
        session = connected b (keyed b (taken h.wanted a.slot o.session));
        there = o.own;
        live = refl;
        same_id = refl;
        to_server = refl;
        to_client = refl;
        same_ip = refl;
      },
    )

-- When libsodium keeps its promises and the client knows the server's public key, the MSG2 with which
-- the server answers the client's MSG1 gives the client the identifier, the two keys (the one's sending
-- key is the other's receiving key) and the address of an active session of the server's table.
pub handle_msg1-Shared :
    (c : Sodium) (e : Entropy) (calls : Calls) (now : ℕ) (src : Client) (h : Hello) (srv : Server)
    (c_priv kx msg2 : List ℕ)
    → IsSodium c
    → IsHello h
    → IsPair c e srv c_priv kx h
    → (handle_msg1 c e calls now src (encode_msg1 h) srv).0 ≡ some msg2
    → (keys : ClientKeys) × (finish_msg2 c (c.sign_public_of srv.sign_sk) kx c_priv h.c_nonce msg2
        ≡ some keys)
      × Shared keys (handle_msg1 c e calls now src (encode_msg1 h) srv).1.sessions
handle_msg1-Shared c e calls now src h srv c_priv kx msg2 good hello pair sent =
    let r = handle_msg1 c e calls now src (encode_msg1 h) srv in
    let parsed = parse_msg1-encode_msg1 h hello in
    let outcome : Outcome c e now src h srv r =
      subst (λ x. Outcome c e now src x srv r) parsed
        (handle_msg1-Outcome c e calls now src (encode_msg1 h) srv) in
    elim outcome [
      | inl (silent, refused) ↦ absurd cc
      | inr a ↦ Answered-Shared c e now src h srv c_priv kx msg2 r good pair a sent
    ]
