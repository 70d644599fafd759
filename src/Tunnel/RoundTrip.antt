-- ===== src/Tunnel/RoundTrip.antt =====
-- The whole packet.
use chamlon.Base.{
  ℕ, zero, suc, ◌+◌, ◌^◌, ◌<◌, ◌≤◌, ◌≡◌, refl, ap, ◌∙◌, inl, true, false, not, List, [], ◌∷◌, ◌++◌,
  some, arith, length, set, replicate, length-replicate,
}
use native.Mathlib.Decide.{dec_lt}
use chamlon.Wire.{TunnelHeader, more_fragments}
use chamlon.Fragment.{Params, chunk_at, max_payload, fragment_at, fragments, fragment_packet}
use chamlon.Fragment.Plain.{IsFrag}
use chamlon.Fragment.Loop.{fragments_end, fragments_step, fragment_packet_lem}
use chamlon.Reassembly.{
  Entry, Table, Outcome, stored, delivered, touch, started, holds, handle_plain, store,
  store_fragment,
}
use chamlon.Reassembly.Table.{
  Absent, Free, put_back, store_fragment_first, store_fragment_next, find_first-lt,
}
use chamlon.Reassembly.Store.{Progress, filled, store_middle, store_last}
use chamlon.Tunnel.{receive_all}
use chamlon.Tunnel.Step.{
  IsOffset, next-IsOffset, payload_at, header_at, IsFragment-IsFragment, handle-fragment,
  length-payload_full,
}

-- A fragment of the packet that arrives at table `s` goes to index `i`, into the entry `e now`, and
-- the other entries are those of `t`.
abbrev Accepts : ℕ → Table → ℕ → Table → (ℕ → Entry) → Type 0
Accepts id s i t e =
    (now : ℕ) (h : TunnelHeader) (payload : List ℕ) (n : ℕ)
    → h.packet_id ≡ id
    → store_fragment now h payload n s ≡ put_back t i (store h payload n (e now))

Accepts-first :
    (id i : ℕ) (t : Table) → Absent id t → Free i t → Accepts id t i t (λ now. started now id)
Accepts-first id i t absent free now h payload n e =
    rw (← e) (store_fragment_first now h payload n i t (rw e absent) free)

Accepts-next :
    (id i : ℕ) (t : Table) (e : Entry)
    → Absent id t
    → i < length t
    → holds id e ≡ true
    → Accepts id (set t i e) i t (λ now. touch now e)
Accepts-next id i t e absent inside used now h payload n p =
    store_fragment_next now h payload n i t e (rw p absent) inside (rw p used)

-- The run of a receiver that stores all fragments but the last, which delivers the packet.
record Delivers (clock : ℕ → ℕ) (k : ℕ) (buf : List ℕ) (ps : List (List ℕ)) (s : Table) (i : ℕ)
    (t : Table) : Type 0 where
  before : ℕ
  last : Entry
  idle : last.is_active ≡ false
  run : receive_all clock k ps s ≡ (replicate before stored ++ delivered buf ∷ [], set t i last)

receive_step :
    (clock : ℕ → ℕ) (k : ℕ) (b : List ℕ) (ps : List (List ℕ)) (s : Table) {s' s'' : Table}
    {o : Outcome} {os : List Outcome}
    → handle_plain (clock k) b s ≡ (o, s')
    → receive_all clock (k + 1) ps s' ≡ (os, s'')
    → receive_all clock k (b ∷ ps) s ≡ (o ∷ os, s'')
unfolding receive_all
receive_step clock k b ps s e f = ground (arith, e, f)

receive_none : (clock : ℕ → ℕ) (k : ℕ) (s : Table) → receive_all clock k [] s ≡ ([], s)
unfolding receive_all
receive_none clock k s = refl

Progress-touch :
    (buf : List ℕ) (o now : ℕ) (e : Entry) → Progress buf o e → Progress buf o (touch now e)
Progress-touch buf o now e q = record {
  active = q.active;
  expects = q.expects;
  received = q.received;
  room = q.room;
  prefix = q.prefix;
}

module _ (p : Params) (id : ℕ) (buf : List ℕ) (ok : IsFrag p) (small : length buf ≤ 1600)
    (id_fits : id < 2 ^ 16) (clock : ℕ → ℕ) (i : ℕ) (t : Table) (absent : Absent id t)
    (inside : i < length t) where
  last_round :
      (k o : ℕ) (s : Table) (e : ℕ → Entry)
      → o < length buf
      → IsOffset p o
      → Accepts id s i t e
      → ((now : ℕ) → Progress buf o (e now))
      → length buf ≤ o + max_payload p
      → Delivers clock k buf (fragment_at p id buf o (chunk_at p (length buf) o) ∷ []) s i t
  last_round k o s e lt at takes prog fin =
      let f = IsFragment-IsFragment p id buf ok small o lt at in
      let now = clock k in
      let all : o + chunk_at p (length buf) o ≡ length buf = ground arith in
      let flags : (header_at p id buf ok small o).flags ≡ 0 = ground arith in
      record {
        before = 0;
        last = record (filled buf f (prog now)) { is_active = false };
        idle = refl;
        run =
            receive_step clock k _ [] s
              (handle-fragment p id buf ok small now o s lt id_fits
                ∙ takes now (header_at p id buf ok small o) (payload_at p buf o) _ refl
                ∙ ap (put_back t i) (store_last buf f (prog now) flags all))
              (receive_none clock (k + 1) _);
      }

  -- The entry after a fragment that is not the last.
  next_entry :
      (k o : ℕ) (e : ℕ → Entry)
      → o < length buf
      → IsOffset p o
      → ((now : ℕ) → Progress buf o (e now))
      → Entry
  next_entry k o e lt at prog =
      filled buf (IsFragment-IsFragment p id buf ok small o lt at) (prog (clock k))

  middle_round :
      (k o : ℕ) (s : Table) (e : ℕ → Entry) (lt : o < length buf) (at : IsOffset p o)
      → Accepts id s i t e
      → (prog : (now : ℕ) → Progress buf o (e now)) → o + max_payload p < length buf
      → (handle_plain (clock k) (fragment_at p id buf o (chunk_at p (length buf) o)) s
          ≡ (stored, set t i (next_entry k o e lt at prog)))
        × Progress buf (o + chunk_at p (length buf) o) (next_entry k o e lt at prog)
  unfolding next_entry
  middle_round k o s e lt at takes prog more =
      let f = IsFragment-IsFragment p id buf ok small o lt at in
      let h = header_at p id buf ok small o in
      let flags : h.flags ≡ more_fragments = ground arith in
      let full : length (payload_at p buf o) ≡ chunk_at p (length buf) o =
        length-payload_full p id buf ok small o more in
      let done = store_middle buf f (prog (clock k)) flags full in
      (
        handle-fragment p id buf ok small (clock k) o s lt id_fits
            ∙ takes (clock k) h (payload_at p buf o) _ refl
            ∙ ap (put_back t i) done.0,
        done.1,
      )

  rounds :
      (fuel k o : ℕ) (s : Table) (e : ℕ → Entry)
      → length buf < o + fuel
      → o < length buf
      → IsOffset p o
      → Accepts id s i t e
      → ((now : ℕ) → Progress buf o (e now))
      → ((now : ℕ) → (e now).packet_id ≡ id)
      → (ps : List (List ℕ)) × (fragments fuel p id buf o ≡ some ps) × Delivers clock k buf ps s i t
  rounds zero k o s e room lt at takes prog ids = absurd (omega arith)
  rounds (suc zero) k o s e room lt at takes prog ids = absurd (omega arith)
  rounds (suc (suc fuel)) k o s e room lt at takes prog ids =
      elim (dec_lt (o + max_payload p) (length buf)) [
        | no fin ↦
            let over : length buf ≤ o + chunk_at p (length buf) o = ground arith in
            (
              fragment_at p id buf o (chunk_at p (length buf) o) ∷ [],
              fragments_step (suc fuel) p id buf o lt
                  (fragments_end fuel p id buf (o + chunk_at p (length buf) o) over),
              last_round k o s e lt at takes prog (omega arith),
            )
        | yes more ↦
            let here = middle_round k o s e lt at takes prog more in
            let e' = next_entry k o e lt at prog in
            let id' : e'.packet_id ≡ id = unfold next_entry in ids (clock k) in
            let used : holds id e' ≡ true = ground (arith, here.1.active) in
            let full : chunk_at p (length buf) o ≡ max_payload p = ground arith in
            let rest =
              rounds (suc fuel) (k + 1) (o + chunk_at p (length buf) o) (set t i e')
                (λ now. touch now e') (omega (arith, full, ok.least)) (omega (arith, full, more))
                (next-IsOffset p (length buf) o ok at full)
                (Accepts-next id i t e' absent inside used)
                (λ now. Progress-touch buf (o + chunk_at p (length buf) o) now e' here.1)
                (λ now. id') in
            (
              fragment_at p id buf o (chunk_at p (length buf) o) ∷ rest.0,
              fragments_step (suc fuel) p id buf o lt rest.1,
              record {
                before = suc rest.2.before;
                last = rest.2.last;
                idle = rest.2.idle;
                run = receive_step clock k _ rest.0 s here.0 rest.2.run;
              },
            )
      ]

started-Progress : (now id : ℕ) (buf : List ℕ) → Progress buf 0 (started now id)
started-Progress now id buf = record {
  active = refl;
  expects = inl refl;
  received = refl;
  room = length-replicate {A = ℕ} 2500 0;
  prefix = refl;
}

-- A packet of 1 to 1600 bytes, fragmented at any size that a session can have (64 to 1200), with or
-- without padding, is put together again by the other end: the loop of the sender ends, all its
-- fragments but the last are stored, and the last one delivers exactly the packet. This is at a
-- table in which no entry is in use for the id and entry `i` is the first that is free, at any
-- times; afterwards entry `i` is free again, and the other entries are as they were.
pub receive_all-fragment_packet :
    (p : Params) (id : ℕ) (buf : List ℕ) (clock : ℕ → ℕ) (i : ℕ) (t : Table)
    → IsFrag p
    → id < 2 ^ 16
    → 0 < length buf
    → length buf ≤ 1600
    → Absent id t
    → Free i t
    → (ps : List (List ℕ)) × (before : ℕ) × (last : Entry) × (fragment_packet p id buf ≡ some ps)
      × (receive_all clock 0 ps t ≡ (replicate before stored ++ delivered buf ∷ [], set t i last))
      × (last.is_active ≡ false)
receive_all-fragment_packet p id buf clock i t ok id_fits pos small absent free =
    let inside = find_first-lt (λ e. not e.is_active) t i free in
    let r =
      rounds p id buf ok small id_fits clock i t absent inside (length buf + 1) 0 0 t
        (λ now. started now id) (omega arith) pos (inl refl) (Accepts-first id i t absent free)
        (λ now. started-Progress now id buf) (λ now. refl) in
    (r.0, r.2.before, r.2.last, fragment_packet_lem p id buf ∙ r.1, r.2.run, r.2.idle)
