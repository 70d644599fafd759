-- ===== src/Inbound/Sealed.antt =====
-- What a packet that a client sealed does to its session.
use chamlon.Base.{
  ℕ, ◌+◌, ◌<◌, ◌≤◌, ◌^◌, ◌≡◌, ◌≢◌, refl, sym, ◌∙◌, subst, true, false, ◌&&◌, List, [], ◌∷◌, Option,
  none, some, arith, length, get_elem?, replicate,
}
use chamlon.RateLimiter.{ok, packets, check_rate_limit}
use chamlon.ReplayWindow.{check_replay}
use chamlon.ReplayWindow.Refine.{Stands, update-Stands}
use chamlon.Reassembly.{
  Outcome, dropped, stored, dummy, keepalive, disconnect, fault, delivered, Table,
  handle_plain_server,
}
use chamlon.Metrics.{Metrics, metrics_record_packet_received, metrics_record_connection_closed}
use chamlon.Crypto.{Sodium}
use chamlon.Crypto.Contract.{IsSodium}
use chamlon.Sessions.{
  Session, Client, same_bytes, session_by_id, update_slot, free_session, free_slot,
}
use chamlon.Sessions.Slots.{first_slot-some, get_elem?-update_self, get_elem?-update_ne}
use chamlon.Handshake.{Entropy, Calls, Server}
use chamlon.Datagram.{seal}
use chamlon.Inbound.{Effect, tunnel, received, closed_by, closed_metrics, handle_inbound_udp}
use chamlon.Inbound.Opening.{handle_inbound_udp-after}

-- The session is awake, its window stands for the numbers accepted before and this one, and its
-- reassembly table is t; all else is as it was.
pub record IsAwake (now seq : ℕ) (hist : List ℕ) (t : Table) (s s' : Session) : Type 0 where
  pub awake : s'.last_activity ≡ now
  pub marked : Stands s'.rw_window (seq ∷ hist)
  pub stored : s'.g_reassembly_table ≡ t
  pub kept : s' ≡ record s {
    last_activity = s'.last_activity;
    rw_window = s'.rw_window;
    g_reassembly_table = s'.g_reassembly_table;
  }

-- The slot is inactive, without keys, identifier, address and queue.
pub record IsFreed (s' : Session) : Type 0 where
  pub inactive : s'.active ≡ false
  pub no_id : s'.session_id ≡ replicate 16 0
  pub no_recv_key : s'.k_recv ≡ replicate 32 0
  pub no_send_key : s'.k_send ≡ replicate 32 0
  pub no_address : (s'.client_addr.sin_family ≡ 0) × (s'.vpn_ip ≡ 0 ∷ 0 ∷ 0 ∷ 0 ∷ [])
  pub no_queue : s'.outq ≡ none

abbrev pub SlotAfter : Outcome → ℕ → ℕ → List ℕ → Table → Session → Session → Type 0
SlotAfter disconnect now seq hist t s s' = IsFreed s'
SlotAfter o now seq hist t s s' = IsAwake now seq hist t s s'

-- A packet is counted, and a disconnect too.
abbrev pub counted : Outcome → ℕ → Metrics → Metrics
counted disconnect len m = metrics_record_connection_closed (metrics_record_packet_received len m)
counted o len m = metrics_record_packet_received len m

-- What the packet in `pkt`, with the tunnel packet `plain`, does to slot i and to the server.
pub record Taken (now seq : ℕ) (hist : List ℕ) (src : Client) (pkt plain stale : List ℕ) (i : ℕ)
    (s : Session) (srv : Server) (r : Effect × Server) : Type 0 where
  pub slot : Session
  pub effect : r.0 ≡ tunnel (handle_plain_server now plain stale s.g_reassembly_table).0
  pub there : get_elem? r.1.sessions i ≡ some slot
  pub slot_after :
      let (o, t) = handle_plain_server now plain stale s.g_reassembly_table in
      SlotAfter o now seq hist t s slot
  pub others : (j : ℕ) → j ≢ i → get_elem? r.1.sessions j ≡ get_elem? srv.sessions j
  pub limited : r.1.limiter ≡ (check_rate_limit packets now src.sin_addr srv.limiter).1
  pub counts :
      r.1.metrics
      ≡ counted
          (handle_plain_server now plain stale s.g_reassembly_table).0
          (length pkt)
          srv.metrics
  pub kept :
      r.1 ≡ record srv { limiter = r.1.limiter; metrics = r.1.metrics; sessions = r.1.sessions }

received-IsAwake :
    (now seq : ℕ) (hist : List ℕ) (t : Table) (s : Session)
    → Stands s.rw_window hist
    → seq < 2 ^ 64
    → check_replay seq s.rw_window ≡ false
    → IsAwake now seq hist t s (received now seq t s)
received-IsAwake now seq hist t s stands fits passes = record {
  awake = refl;
  marked = update-Stands seq stands fits passes;
  stored = refl;
  kept = refl;
}

free_slot-IsFreed : (s : Session) → s.active ≡ true → IsFreed (free_slot s)
free_slot-IsFreed s act = rw act (record {
  inactive = refl;
  no_id = refl;
  no_recv_key = refl;
  no_send_key = refl;
  no_address = (refl, refl);
  no_queue = refl;
})

-- Slot i of the table, and the other slots.
record Settled (ts ts' : List Session) (i : ℕ) (P : Session → Type 0) : Type 0 where
  slot : Session
  there : get_elem? ts' i ≡ some slot
  holds : P slot
  others : (j : ℕ) → j ≢ i → get_elem? ts' j ≡ get_elem? ts j

module _ (now seq : ℕ) (hist : List ℕ) (t : Table) (i : ℕ) (s : Session) (ts : List Session)
    (act : s.active ≡ true) (there : get_elem? ts i ≡ some s) (stands : Stands s.rw_window hist)
    (fits : seq < 2 ^ 64) (passes : check_replay seq s.rw_window ≡ false) where
  stays : Settled ts (update_slot i (received now seq t) ts) i (IsAwake now seq hist t s)
  stays = record {
    slot = received now seq t s;
    there = get_elem?-update_self i (received now seq t) ts s there;
    holds = received-IsAwake now seq hist t s stands fits passes;
    others = λ j ne. get_elem?-update_ne i j (received now seq t) ts ne;
  }

  leaves : Settled ts (free_session i (update_slot i (received now seq t) ts)) i IsFreed
  unfolding free_session
  leaves =
      let ts' = update_slot i (received now seq t) ts in
      let s' = received now seq t s in
      record {
        slot = free_slot s';
        there =
            get_elem?-update_self i free_slot ts' s'
              (get_elem?-update_self i (received now seq t) ts s there);
        holds = free_slot-IsFreed s' act;
        others = λ j ne.
            get_elem?-update_ne i j free_slot ts' ne
            ∙ get_elem?-update_ne i j (received now seq t) ts ne;
      }

  settled :
      (o : Outcome)
      → Settled ts
          (closed_by o i (update_slot i (received now seq t) ts))
          i
          (SlotAfter o now seq hist t s)
  settled disconnect = leaves
  settled dropped = stays
  settled stored = stays
  settled dummy = stays
  settled keepalive = stays
  settled fault = stays
  settled (delivered buf) = stays

closed_metrics-counted :
    (o : Outcome) (len : ℕ) (m : Metrics)
    → closed_metrics o (metrics_record_packet_received len m) ≡ counted o len m
closed_metrics-counted disconnect len m = refl
closed_metrics-counted dropped len m = refl
closed_metrics-counted stored len m = refl
closed_metrics-counted dummy len m = refl
closed_metrics-counted keepalive len m = refl
closed_metrics-counted fault len m = refl
closed_metrics-counted (delivered buf) len m = refl

found_active :
    (id : List ℕ) (ts : List Session) (i : ℕ) (s : Session)
    → session_by_id id ts ≡ some i
    → get_elem? ts i ≡ some s
    → s.active ≡ true
unfolding session_by_id
found_active id ts i s found there =
    let f = first_slot-some (λ x. x.active && same_bytes x.session_id id) ts i found in
    let both : ◌≡◌ {A = Option Session} (some f.session) (some s) = sym f.there ∙ there in
    let same : f.session ≡ s = cc in subst (λ x. x.active ≡ true) same (ground (arith, f.passes))

-- A packet that a client sealed under the receiving key of an active session, of a size that fits the
-- buffer and with a number that the window of the session lets through, is opened if the rate limiter
-- lets the client's address pass. The tunnel packet goes to the session's reassembly table, and the packet
-- is counted. Where it is a disconnect the slot is freed, its keys are zeros and it has no queue; else the
-- session is awake, its window stands for the numbers that it accepted before and this one, and nothing
-- else of it changes. All other slots stay as they are. This is for a window that stands for some history.
pub handle_inbound_udp-seal :
    (c : Sodium) (e again : Entropy) (calls : Calls) (now seq : ℕ) (hist : List ℕ) (src : Client)
    (plain pkt stale : List ℕ) (srv : Server) (i : ℕ) (s : Session)
    → IsSodium c
    → seq < 2 ^ 64
    → length plain + 46 ≤ 1600
    → length s.session_id ≡ 16
    → (check_rate_limit packets now src.sin_addr srv.limiter).0 ≡ ok
    → session_by_id s.session_id srv.sessions ≡ some i
    → get_elem? srv.sessions i ≡ some s
    → Stands s.rw_window hist
    → check_replay seq s.rw_window ≡ false
    → seal c s.k_recv s.session_id seq plain ≡ some pkt
    → Taken now seq hist src pkt plain stale i s srv
        (handle_inbound_udp c e again calls now src pkt stale srv)
handle_inbound_udp-seal c e again calls now seq hist src plain pkt stale srv i s good fits short
      sixteen admitted found there stands passes sealed =
    let (o, t) = handle_plain_server now plain stale s.g_reassembly_table in
    let act = found_active s.session_id srv.sessions i s found there in
    let z = settled now seq hist t i s srv.sessions act there stands fits passes o in
    let run =
      handle_inbound_udp-after c e again calls now seq src plain pkt stale srv i s good fits short
        sixteen admitted found there passes sealed in
    subst (Taken now seq hist src pkt plain stale i s srv) (sym run) (record {
      slot = z.slot;
      effect = refl;
      there = z.there;
      slot_after = z.holds;
      others = z.others;
      limited = refl;
      counts = closed_metrics-counted o (length pkt) srv.metrics;
      kept = refl;
    })
