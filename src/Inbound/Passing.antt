-- ===== src/Inbound/Passing.antt =====
-- What a packet does to the sessions: only authentic packets pass, and they reach only their session.
use chamlon.Base.{
  ℕ, ◌≡◌, ◌≢◌, ◌⊎◌, inl, inr, refl, ◌∙◌, false, ◌&&◌, List, some, length, get_elem?, ltb, ◌-◌,
  if_elim, Option-cases,
}
use chamlon.ReplayWindow.{check_replay}
use chamlon.Reassembly.{
  Outcome, dropped, stored, dummy, keepalive, disconnect, fault, delivered, handle_plain_server,
}
use chamlon.Crypto.{Sodium, aead_decrypt}
use chamlon.Sessions.{Session, session_by_id, update_slot, free_session, free_slot}
use chamlon.Sessions.Slots.{get_elem?-update_ne}
use chamlon.Handshake.{Server}
use chamlon.Datagram.{session_id_at, seq_at, cipher_at, buffer_size, data_header_len}
use chamlon.Inbound.{
  Effect, ignored, overread, tunnel, touched, received, closed_by, any_active, open_data,
  handle_data,
}

-- An authentic packet for the session of slot i, and what comes of it.
pub record Genuine (c : Sodium) (now : ℕ) (buf stale : List ℕ) (t : List Session)
    (r : Effect × Server) : Type 0 where
  pub slot : ℕ
  pub session : Session
  pub plain : List ℕ
  pub found : session_by_id (session_id_at buf) t ≡ some slot
  pub there : get_elem? t slot ≡ some session
  pub unseen : check_replay (seq_at buf) session.rw_window ≡ false
  pub authentic :
      aead_decrypt c session.k_recv session.session_id (seq_at buf) (cipher_at buf) ≡ some plain
  pub effect : r.0 ≡ tunnel (handle_plain_server now plain stale session.g_reassembly_table).0
  pub others : (j : ℕ) → j ≢ slot → get_elem? r.1.sessions j ≡ get_elem? t j

-- A packet that passes nothing on: at most the time of one session is noted.
pub record Quiet (now : ℕ) (t : List Session) (r : Effect × Server) : Type 0 where
  pub silent : (r.0 ≡ ignored) ⊎ (r.0 ≡ overread)
  pub same : (r.1.sessions ≡ t) ⊎ ((i : ℕ) × (r.1.sessions ≡ update_slot i (touched now) t))

abbrev pub Passed : Sodium → ℕ → List ℕ → List ℕ → List Session → Effect × Server → Type 0
Passed c now buf stale t r = Genuine c now buf stale t r ⊎ Quiet now t r

closed_by_other :
    (o : Outcome) (i j : ℕ) (t : List Session)
    → j ≢ i
    → get_elem? (closed_by o i t) j ≡ get_elem? t j
unfolding free_session
closed_by_other dropped i j t ne = refl
closed_by_other stored i j t ne = refl
closed_by_other dummy i j t ne = refl
closed_by_other keepalive i j t ne = refl
closed_by_other disconnect i j t ne = get_elem?-update_ne i j free_slot t ne
closed_by_other fault i j t ne = refl
closed_by_other (delivered p) i j t ne = refl

open_data-Passed :
    (c : Sodium) (now : ℕ) (buf stale : List ℕ) (i : ℕ) (s : Session) (srv : Server)
    → session_by_id (session_id_at buf) srv.sessions ≡ some i
    → get_elem? srv.sessions i ≡ some s
    → Passed c now buf stale srv.sessions (open_data c now buf stale i s srv)
unfolding open_data
open_data-Passed c now buf stale i s srv f g =
    let P : Effect × Server → Type 0 = Passed c now buf stale srv.sessions in
    let seq = seq_at buf in
    let quiet = inr (i, refl) in
    if_elim P (ltb (length buf) data_header_len) _ _
      (λ _. inr (record { silent = inr refl; same = quiet }))
      (λ _.
        if_elim P (check_replay seq s.rw_window) _ _
          (λ _. inr (record { silent = inl refl; same = quiet }))
          (λ new.
            if_elim P (ltb (buffer_size - data_header_len) (length buf - data_header_len)) _ _
              (λ _. inr (record { silent = inl refl; same = quiet }))
              (λ _. elim (Option-cases (aead_decrypt c s.k_recv s.session_id seq (cipher_at buf))) [
                | inl n ↦ rw n (inr (record { silent = inl refl; same = quiet }))
                | inr (plain, p) ↦ rw p (
                    if_elim P (ltb buffer_size (length plain)) _ _
                      (λ _. inr (record { silent = inl refl; same = quiet }))
                      (λ _. inl (record {
                        slot = i;
                        session = s;
                        plain = plain;
                        found = f;
                        there = g;
                        unseen = new;
                        authentic = p;
                        effect = refl;
                        others = λ j ne.
                            let (o, t) = handle_plain_server now plain stale s.g_reassembly_table in
                            closed_by_other o i j (update_slot i (received now seq t) srv.sessions)
                              ne
                            ∙ get_elem?-update_ne i j (received now seq t) srv.sessions ne;
                      })))
              ])))

-- A packet either is authentic, for an active session and with a number that its window lets through,
-- and leaves all other sessions alone; or it passes nothing on, and of the sessions at most the time of
-- the last activity of one changes.
pub handle_data-Passed :
    (c : Sodium) (now : ℕ) (buf stale : List ℕ) (srv : Server)
    → Passed c now buf stale srv.sessions (handle_data c now buf stale srv)
unfolding handle_data
handle_data-Passed c now buf stale srv =
    let P : Effect × Server → Type 0 = Passed c now buf stale srv.sessions in
    if_elim P (ltb (length buf) 22 && any_active srv.sessions) _ _
      (λ _. inr (record { silent = inr refl; same = inl refl }))
      (λ _. elim (Option-cases (session_by_id (session_id_at buf) srv.sessions)) [
        | inl n ↦ rw n (inr (record { silent = inl refl; same = inl refl }))
        | inr (i, f) ↦ elim (Option-cases (get_elem? srv.sessions i)) [
          | inl n ↦ rw (f, n) (inr (record { silent = inl refl; same = inl refl }))
          | inr (s, g) ↦ rw (f, g) (open_data-Passed c now buf stale i s _ f g)
        ]
      ])
