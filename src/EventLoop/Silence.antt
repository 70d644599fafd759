-- ===== src/EventLoop/Silence.antt =====
-- A server that says nothing.
use chamlon.Base.{
  ℕ, ◌+◌, ◌-◌, ◌≤◌, ◌≡◌, refl, sym, ◌∙◌, ◌⊎◌, inl, inr, subst, true, List, [], ◌∷◌, Option, none,
  some, arith, leb, Option-cases, if_elim,
}
use chamlon.Crypto.{Sodium}
use chamlon.Rehandshake.{Advice, attempt, wait, give_up, Server, should_attempt_rehandshake}
use chamlon.Uplink.{handle_tun_packet}
use chamlon.EventLoop.{
  Client, Turn, Next, exits, returns, goes_on, fault, uplink_of, keepalive_tick, advised,
  rehandshake_due, rehandshake_step, tun_event, udp_event, sweep_tick, handle_events, watch_server,
  loop_turn, event_loop_run,
}

-- A turn in which no datagram comes, and no handshake succeeds.
pub record IsSilent (t : Turn) : Type 0 where
  pub nothing : t.datagrams ≡ []
  pub failed : t.outcome ≡ none

abbrev heard : Client → ℕ
heard cl = cl.last_server_keepalive_time

-- If the loop goes on, the time of the last keepalive is n.
abbrev Keeps : ℕ → Next → Type 0
Keeps n (goes_on cl) = heard cl ≡ n
Keeps n next = Unit

keepalive_tick-heard :
    (c : Sodium) (t : Turn) (cl : Client) → heard (keepalive_tick c t cl).1 ≡ heard cl
unfolding keepalive_tick
keepalive_tick-heard c t cl = ground arith

advised-heard :
    (t : Turn) (cl : Client) (a : Advice) (srv : Server)
    → t.outcome ≡ none
    → heard (advised t cl (a, srv)) ≡ heard cl
advised-heard t cl attempt srv e =
    if_elim (λ x. heard x ≡ heard cl) t.has_sender _ _ (λ y. rw e refl) (λ y. refl)
advised-heard t cl wait srv e = refl
advised-heard t cl give_up srv e = refl

rehandshake_step-heard :
    (t : Turn) (cl : Client) → t.outcome ≡ none → heard (rehandshake_step t cl) ≡ heard cl
unfolding rehandshake_step
rehandshake_step-heard t cl e =
    let advice = should_attempt_rehandshake t.now cl.server in
    if_elim (λ x. heard x ≡ heard cl) (rehandshake_due t.now cl) _ _
      (λ y. advised-heard t cl advice.0 advice.1 e) (λ y. refl)

tun_event-heard :
    (c : Sodium) (t : Turn) (cl cl' : Client) → tun_event c t cl ≡ some cl' → heard cl' ≡ heard cl
unfolding tun_event
tun_event-heard c t cl cl' h = elim (Option-cases t.tun) [
  | inl n ↦ ground arith
  | inr (buf, e) ↦ elim (Option-cases (handle_tun_packet c t.memory t.stale buf (uplink_of cl))) [
    | inl n ↦ absurd (ground arith)
    | inr (u, f) ↦ ground arith
  ]
]

sweep_tick-heard : (now : ℕ) (cl : Client) → heard (sweep_tick now cl) ≡ heard cl
unfolding sweep_tick
sweep_tick-heard now cl = ground arith

handle_events-Keeps :
    (c : Sodium) (t : Turn) (cl : Client) → IsSilent t → Keeps (heard cl) (handle_events c t cl)
unfolding handle_events udp_event
handle_events-Keeps c t cl s = elim (Option-cases (tun_event c t cl)) [
  | inl n ↦ rw (handle_events, n) tt
  | inr (cl', e) ↦
      rw (handle_events, e, udp_event, s.nothing)
        (sweep_tick-heard t.now cl' ∙ tun_event-heard c t cl cl' e)
]

watch_server-Keeps :
    (c : Sodium) (t : Turn) (cl : Client) → IsSilent t → Keeps (heard cl) (watch_server c t cl)
unfolding watch_server
watch_server-Keeps c t cl s =
    if_elim (Keeps (heard cl)) (leb 125 (t.now - heard cl)) _ _ (λ y. tt)
      (λ y.
        subst (λ n. Keeps n (handle_events c t (rehandshake_step t cl)))
          (rehandshake_step-heard t cl s.failed)
          (handle_events-Keeps c t (rehandshake_step t cl) s))

loop_turn-Keeps :
    (c : Sodium) (t : Turn) (cl : Client) → IsSilent t → Keeps (heard cl) (loop_turn c t cl).1
unfolding loop_turn
loop_turn-Keeps c t cl s =
    if_elim (λ (r : Option (List ℕ) × Next). Keeps (heard cl) r.1) cl.disconnect_requested _ _
      (λ y. tt)
      (λ y.
        subst (λ n. Keeps n (watch_server c t (keepalive_tick c t cl).1))
          (keepalive_tick-heard c t cl) (watch_server-Keeps c t (keepalive_tick c t cl).1 s))

-- The loop does not go on.
abbrev pub Ended : Next → Type 0
Ended (goes_on cl) = ⊥
Ended next = Unit

-- A turn that comes 125 seconds after the last keepalive ends the loop.
loop_turn-Ended :
    (c : Sodium) (t : Turn) (cl : Client) → heard cl + 125 ≤ t.now → Ended (loop_turn c t cl).1
unfolding loop_turn watch_server
loop_turn-Ended c t cl late =
    if_elim (λ (r : Option (List ℕ) × Next). Ended r.1) cl.disconnect_requested _ _ (λ y. tt)
      (λ y.
        let same = keepalive_tick-heard c t cl in
        let over : leb 125 (t.now - heard (keepalive_tick c t cl).1) ≡ true = ground arith in
        rw over tt)

-- All turns are silent.
abbrev pub AllSilent : List Turn → Type 0
AllSilent [] = Unit
AllSilent (t ∷ ts) = IsSilent t × AllSilent ts

-- Some turn comes at the time or later.
abbrev pub Reaches : ℕ → List Turn → Type 0
Reaches n [] = ⊥
Reaches n (t ∷ ts) = (n ≤ t.now) ⊎ Reaches n ts

rest_Ended :
    (c : Sodium) (ts : List Turn) (n : ℕ) (next : Next)
    → Keeps n next
    → ((cl : Client) → heard cl ≡ n → Ended (event_loop_run c ts cl))
    → Ended (elim next [
      | exits pkts ↦ exits pkts
      | returns cl ↦ returns cl
      | goes_on cl ↦ event_loop_run c ts cl
      | fault ↦ fault
    ])
rest_Ended c ts n (exits pkts) k h = tt
rest_Ended c ts n (returns cl) k h = tt
rest_Ended c ts n (goes_on cl) k h = h cl k
rest_Ended c ts n fault k h = tt

stop_Ended :
    (c : Sodium) (ts : List Turn) (next : Next)
    → Ended next
    → Ended (elim next [
      | exits pkts ↦ exits pkts
      | returns cl ↦ returns cl
      | goes_on cl ↦ event_loop_run c ts cl
      | fault ↦ fault
    ])
stop_Ended c ts (exits pkts) e = tt
stop_Ended c ts (returns cl) e = tt
stop_Ended c ts (goes_on cl) e = absurd e
stop_Ended c ts fault e = tt

-- While the server says nothing and no handshake succeeds, the loop ends at the latest with the first turn
-- that comes 125 seconds after the last keepalive, whatever packets the TUN device has and whatever the
-- state of the re-handshake is: it returns, or the process exits, or a packet meets the fault of the queue.
pub event_loop_run-Ended :
    (c : Sodium) (ts : List Turn) (cl : Client)
    → AllSilent ts
    → Reaches (cl.last_server_keepalive_time + 125) ts
    → Ended (event_loop_run c ts cl)
unfolding event_loop_run
event_loop_run-Ended c [] cl silent reach = absurd reach
event_loop_run-Ended c (t ∷ ts) cl silent (inl late) =
    stop_Ended c ts (loop_turn c t cl).1 (loop_turn-Ended c t cl late)
event_loop_run-Ended c (t ∷ ts) cl silent (inr later) =
    rest_Ended c ts (heard cl) (loop_turn c t cl).1 (loop_turn-Keeps c t cl silent.0) (λ cl' e.
      event_loop_run-Ended c ts cl' silent.1 (subst (λ n. Reaches (n + 125) ts) (sym e) later))
