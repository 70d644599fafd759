-- ===== src/Handshake/Outcome.antt =====
-- The two outcomes of MSG1, with what each comes with.
use chamlon.Base.{
  ℕ, ◌≡◌, ◌⊎◌, inl, inr, refl, not, List, Option, none, some, arith, length, ◌==◌, if_elim,
  Bool-cases, Option-cases,
}
use chamlon.Crypto.{Sodium}
use chamlon.RateLimiter.{Verdict, ok, exceeded, blacklisted, handshakes, check_rate_limit}
use chamlon.Sessions.{
  Session, Client, Wanted, claim_slot, open_session, allocate_session, vpn_ip_of,
}
use chamlon.Sessions.Slots.{allocate_session_lem, Allocated}
use chamlon.Metrics.{metrics_record_handshake_initiated}
use chamlon.Handshake.{
  Hello, Entropy, Calls, Server, Material, agreed_of, encode_msg2, negotiate, finish_msg1,
  admit_msg1, handle_msg1, answer_msg1, parse_msg1, msg1_len, located, queued,
}
use chamlon.Handshake.Opening.{
  Refused, Refused-refl, claimed_table, unclaimed-Refused, undone-Refused,
}

-- What an answer comes with.
pub record Answered (c : Sodium) (e : Entropy) (now : ℕ) (src : Client) (h : Hello) (srv : Server)
    (r : Option (List ℕ) × Server) : Type 0 where
  pub sig : List ℕ
  pub material : Material
  pub slot : ℕ
  pub agreed : negotiate c e srv h ≡ some (sig, material)
  pub reply : r.0 ≡ some (encode_msg2 (c.public_of e.s_priv) e.s_nonce (vpn_ip_of slot) sig)
  pub opened : open_session (agreed_of h material src now) srv.sessions ≡ some (slot, r.1.sessions)

-- A refusal, or an answer.
abbrev pub Outcome :
    Sodium → Entropy → ℕ → Client → Hello → Server → Option (List ℕ) × Server → Type 0
Outcome c e now src h srv r =
    ((r.0 ≡ none) × Refused src srv.sessions r.1.sessions) ⊎ Answered c e now src h srv r

full : (w : Wanted) (t : List Session) → allocate_session t ≡ (none, t) → claim_slot w t ≡ (none, t)
unfolding claim_slot
full w t n = ground arith

room :
    (w : Wanted) (t : List Session) (r : Allocated t)
    → claim_slot w t ≡ (some r.slot, claimed_table w r.slot r.table)
unfolding claim_slot
room w t r = rw r.allocated refl

-- From the agreed keys on.
finish_msg1-Outcome :
    (c : Sodium) (e : Entropy) (calls : Calls) (now : ℕ) (src : Client) (h : Hello) (srv : Server)
    (r : Allocated srv.sessions) (sig : List ℕ) (m : Material)
    → negotiate c e srv h ≡ some (sig, m)
    → Outcome c e now src h srv (
        finish_msg1 calls
          (agreed_of h m src now)
          r.slot
          (encode_msg2 (c.public_of e.s_priv) e.s_nonce (vpn_ip_of r.slot) sig)
          (claimed_table h.wanted r.slot r.table)
          srv)
unfolding finish_msg1 open_session
finish_msg1-Outcome c e calls now src h srv r sig m n =
    let a = agreed_of h m src now in
    elim (Bool-cases calls.allocated) [
      | inr missing ↦ rw missing (inl (refl, undone-Refused a (located a) srv.sessions r))
      | inl there ↦ elim (Bool-cases calls.sent) [
        | inr missing ↦ rw (there, missing) (inl (refl, undone-Refused a (queued a) srv.sessions r))
        | inl delivered ↦
            rw (there, delivered)
              (inr (record {
                sig = sig;
                material = m;
                slot = r.slot;
                agreed = n;
                reply = refl;
                opened = rw (room h.wanted srv.sessions r) refl;
              }))
      ]
    ]

-- From the slot on.
answer_msg1-Outcome :
    (c : Sodium) (e : Entropy) (calls : Calls) (now : ℕ) (src : Client) (h : Hello) (srv : Server)
    (r : Allocated srv.sessions)
    → Outcome c e now src h srv
        (answer_msg1 c e calls now src h srv r.slot (claimed_table h.wanted r.slot r.table))
unfolding answer_msg1
answer_msg1-Outcome c e calls now src h srv r = elim (Option-cases (negotiate c e srv h)) [
  | inl n ↦ rw n (inl (refl, unclaimed-Refused src h.wanted srv.sessions r))
  | inr ((sig, m), p) ↦ rw p (finish_msg1-Outcome c e calls now src h srv r sig m p)
]

-- From the checks on.
admit_msg1-Outcome :
    (c : Sodium) (e : Entropy) (calls : Calls) (now : ℕ) (src : Client) (h : Hello) (srv : Server)
    → Outcome c e now src h srv (admit_msg1 c e calls now src h srv)
unfolding admit_msg1
admit_msg1-Outcome c e calls now src h srv = elim (allocate_session_lem srv.sessions) [
  | inl (n, all) ↦ rw (full h.wanted srv.sessions n) (inl (refl, Refused-refl src srv.sessions))
  | inr r ↦ rw (room h.wanted srv.sessions r) (answer_msg1-Outcome c e calls now src h srv r)
]

Verdict-cases : (v : Verdict) → (v ≡ ok) ⊎ ((v ≡ exceeded) ⊎ (v ≡ blacklisted))
Verdict-cases ok = inl refl
Verdict-cases exceeded = inr (inl refl)
Verdict-cases blacklisted = inr (inr refl)

abbrev initiated : ℕ → Client → Server → Server
initiated now src srv = record srv {
  metrics = metrics_record_handshake_initiated srv.metrics;
  limiter = (check_rate_limit handshakes now src.sin_addr srv.limiter).1;
}

-- The counters and the limiter play no part.
initiated-Outcome :
    (c : Sodium) (e : Entropy) (now : ℕ) (src : Client) (h : Hello) (srv : Server)
    (r : Option (List ℕ) × Server)
    → Outcome c e now src h (initiated now src srv) r
    → Outcome c e now src h srv r
unfolding negotiate
initiated-Outcome c e now src h srv r (inl refused) = inl refused
initiated-Outcome c e now src h srv r (inr a) = inr (record {
  sig = a.sig;
  material = a.material;
  slot = a.slot;
  agreed = a.agreed;
  reply = a.reply;
  opened = a.opened;
})

-- MSG1 is refused or answered, on every path: a refusal sends nothing, keeps every active session of the
-- other clients and starts none, and an answer sends MSG2 with the agreed signature and opens a session with the agreed keys.
pub handle_msg1-Outcome :
    (c : Sodium) (e : Entropy) (calls : Calls) (now : ℕ) (src : Client) (msg1 : List ℕ)
    (srv : Server)
    → Outcome c e now src (parse_msg1 msg1) srv (handle_msg1 c e calls now src msg1 srv)
unfolding handle_msg1
handle_msg1-Outcome c e calls now src msg1 srv =
    let h = parse_msg1 msg1 in
    let same = Refused-refl src srv.sessions in
    let v = (check_rate_limit handshakes now src.sin_addr srv.limiter).0 in
    if_elim (Outcome c e now src h srv) (not srv.sign_sk_loaded) _ _ (λ _. inl (refl, same))
      (λ _. elim (Verdict-cases v) [
        | inl good ↦ rw good (
            if_elim (Outcome c e now src h srv) (length msg1 == msg1_len)
              (admit_msg1 c e calls now src h (initiated now src srv)) (none, initiated now src srv)
              (λ _.
                initiated-Outcome c e now src h srv _
                  (admit_msg1-Outcome c e calls now src h (initiated now src srv)))
              (λ _. inl (refl, same)))
        | inr (inl bad) ↦ rw bad (inl (refl, same))
        | inr (inr bad) ↦ rw bad (inl (refl, same))
      ])
