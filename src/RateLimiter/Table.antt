-- ===== src/RateLimiter/Table.antt =====
-- The table as a map from addresses to entries.
use chamlon.Base.{
  ◌≢◌, ℕ, suc, ◌<◌, ◌≡◌, refl, ap, ◌∙◌, inl, inr, List, [], ◌∷◌, ◌++◌, Option, none, some, arith,
  length, set, get_elem?, ltb, ◌==◌, if◌then◌else◌, Bool-cases, Option-cases, ==_iff,
  get_elem?-set_self,
}
use chamlon.RateLimiter.{
  Verdict, exceeded, Kind, IpEntry, RateLimiter, check_entry, find_ip, new_entry,
  find_or_create_ip_entry, check_rate_limit, handshakes, packets,
}
use chamlon.Reassembly.Table.{set-set}

abbrev pub entry_of : ℕ → List IpEntry → Option IpEntry
entry_of ip [] = none
entry_of ip (e ∷ es) = if e.ip_addr == ip then some e else entry_of ip es

-- Writes the entry of its address, or adds it behind the others.
abbrev pub upsert : IpEntry → List IpEntry → List IpEntry
upsert e [] = e ∷ []
upsert e (x ∷ xs) = if x.ip_addr == e.ip_addr then e ∷ xs else x ∷ upsert e xs

abbrev pub seen : ℕ → IpEntry → IpEntry
seen now e = record e { last_seen = now }

get_elem?-append_last {ℓ} :
    {A : Type ℓ} (xs : List A) (x : A) → get_elem? (xs ++ x ∷ []) (length xs) ≡ some x
get_elem?-append_last [] x = refl
get_elem?-append_last (y ∷ xs) x = get_elem?-append_last xs x

set-append_last {ℓ} :
    {A : Type ℓ} (xs : List A) (x y : A) → set (xs ++ x ∷ []) (length xs) y ≡ xs ++ y ∷ []
set-append_last [] x y = refl
set-append_last (z ∷ xs) x y = ap (◌∷◌ z) (set-append_last xs x y)

entry_of-upsert :
    (ip : ℕ) (e : IpEntry) (es : List IpEntry)
    → entry_of ip (upsert e es) ≡ (if e.ip_addr == ip then some e else entry_of ip es)
entry_of-upsert ip e [] = refl
entry_of-upsert ip e (x ∷ xs) = ground (arith, entry_of-upsert ip e xs)

-- The check on the map.
abbrev pub check_map : Kind → ℕ → ℕ → RateLimiter → Option IpEntry → Verdict × RateLimiter
check_map k now ip r (some e) =
    let (v, e') = check_entry k now (seen now e) in (v, record r { entries = upsert e' r.entries })
check_map k now ip r none =
    if ltb (length r.entries) r.capacity
    then (let (v, e') = check_entry k now (new_entry now ip) in
        (v, record r { entries = upsert e' r.entries }))
    else (exceeded, r)

-- What an index that `find_ip` gives stands for.
record Found (ip : ℕ) (es : List IpEntry) (i : ℕ) : Type 0 where
  entry : IpEntry
  there : get_elem? es i ≡ some entry
  inside : i < length es
  mapped : entry_of ip es ≡ some entry
  named : entry.ip_addr ≡ ip
  writes : (e : IpEntry) → e.ip_addr ≡ ip → set es i e ≡ upsert e es

find_ip-Found : (ip : ℕ) (es : List IpEntry) (i : ℕ) → find_ip ip es ≡ some i → Found ip es i
unfolding find_ip
find_ip-Found ip [] i h = cc
find_ip-Found ip (x ∷ xs) i h = elim (Bool-cases (x.ip_addr == ip)) [
  | inl e ↦
      let zero_index : i ≡ 0 = ground arith in
      rw zero_index (record {
        entry = x;
        there = refl;
        inside = omega arith;
        mapped = rw e;
        named = (==_iff x.ip_addr ip).0 e;
        writes = λ y p. ground arith;
      })
  | inr e ↦ elim (Option-cases (find_ip ip xs)) [
    | inl n ↦ absurd (ground arith)
    | inr (j, p) ↦
        let f = find_ip-Found ip xs j p in
        let next_index : i ≡ suc j = ground arith in
        rw next_index (record {
          entry = f.entry;
          there = f.there;
          inside = omega (arith, f.inside);
          mapped = rw e f.mapped;
          named = f.named;
          writes = λ y q. ground (arith, f.writes y q);
        })
  ]
]

find_ip-none :
    (ip : ℕ) (es : List IpEntry) (e : IpEntry)
    → find_ip ip es ≡ none
    → e.ip_addr ≡ ip
    → (entry_of ip es ≡ none) × (es ++ e ∷ [] ≡ upsert e es)
unfolding find_ip
find_ip-none ip [] e h p = (refl, refl)
find_ip-none ip (x ∷ xs) e h p = elim (Option-cases (find_ip ip xs)) [
  | inl n ↦ ground (arith, find_ip-none ip xs e n p)
  | inr (j, q) ↦ ground arith
]

check_entry-ip_addr :
    (k : Kind) (now : ℕ) (e : IpEntry) → (check_entry k now e).1.ip_addr ≡ e.ip_addr
unfolding check_entry
check_entry-ip_addr handshakes now e = ground arith
check_entry-ip_addr packets now e = ground arith

-- Both checks work on the table as on a map: the entry of the address is found or made, the check
-- runs on it, and it is written back; only a full table refuses an address that it does not hold.
pub check_rate_limit-map :
    (k : Kind) (now ip : ℕ) (r : RateLimiter)
    → check_rate_limit k now ip r ≡ check_map k now ip r (entry_of ip r.entries)
unfolding check_rate_limit find_or_create_ip_entry
check_rate_limit-map k now ip r = elim (Option-cases (find_ip ip r.entries)) [
  | inl n ↦
      let e = (check_entry k now (new_entry now ip)).1 in
      let named = check_entry-ip_addr k now (new_entry now ip) in
      let absent = find_ip-none ip r.entries e n named in
      ground (
        arith,
        n,
        absent,
        get_elem?-append_last r.entries (new_entry now ip),
        set-append_last r.entries (new_entry now ip) e,
      )
  | inr (i, p) ↦
      let f = find_ip-Found ip r.entries i p in
      let e = seen now f.entry in
      let e' = (check_entry k now e).1 in
      ground (
        arith,
        p,
        f.there,
        f.mapped,
        get_elem?-set_self r.entries i e f.inside,
        set-set r.entries i e e',
        f.writes e' (check_entry-ip_addr k now e ∙ f.named),
      )
]

entry_of-ip_addr :
    (ip : ℕ) (es : List IpEntry) (e : IpEntry) → entry_of ip es ≡ some e → e.ip_addr ≡ ip
entry_of-ip_addr ip [] e h = cc
entry_of-ip_addr ip (x ∷ xs) e h = elim (Bool-cases (x.ip_addr == ip)) [
  | inl t ↦ ground (arith, ==_iff x.ip_addr ip)
  | inr f ↦ entry_of-ip_addr ip xs e (ground arith)
]

upsert_other :
    (ip other : ℕ) (e : IpEntry) (es : List IpEntry)
    → other ≢ ip
    → e.ip_addr ≡ ip
    → entry_of other (upsert e es) ≡ entry_of other es
upsert_other ip other e es ne p = ground (arith, entry_of-upsert other e es, ==_iff e.ip_addr other)

check_map_frame :
    (k : Kind) (now ip other : ℕ) (r : RateLimiter)
    → other ≢ ip
    → (o : Option IpEntry) → ((e : IpEntry) → o ≡ some e → e.ip_addr ≡ ip)
    → entry_of other (check_map k now ip r o).1.entries ≡ entry_of other r.entries
check_map_frame k now ip other r ne none named =
    let e = (check_entry k now (new_entry now ip)).1 in
    let p = check_entry-ip_addr k now (new_entry now ip) in
    elim (Bool-cases (ltb (length r.entries) r.capacity)) [
      | inl t ↦ rw t (upsert_other ip other e r.entries ne p)
      | inr f ↦ rw f refl
    ]
check_map_frame k now ip other r ne (some e) named =
    let p = check_entry-ip_addr k now (seen now e) ∙ named e refl in
    upsert_other ip other (check_entry k now (seen now e)).1 r.entries ne p

-- A check of one address leaves the entries of all others as they are.
pub check_rate_limit_frame :
    (k : Kind) (now ip other : ℕ) (r : RateLimiter)
    → other ≢ ip
    → entry_of other (check_rate_limit k now ip r).1.entries ≡ entry_of other r.entries
check_rate_limit_frame k now ip other r ne =
    rw (check_rate_limit-map k now ip r) (elim (Option-cases (entry_of ip r.entries)) [
      | inl n ↦ rw n (check_map_frame k now ip other r ne none (λ e p. absurd (ground arith)))
      | inr (e, p) ↦ rw p (
          check_map_frame k now ip other r ne (some e)
            (λ e' q. ground (arith, entry_of-ip_addr ip r.entries e p)))
    ])
