-- ===== src/Tunnel/Examples.antt =====
-- A packet through the tunnel.
use chamlon.Base.{ℕ, ◌+◌, ◌≡◌, refl, true, false, some, List, [], ◌∷◌, ◌++◌, arith, replicate, set}
use chamlon.Fragment.{Params, fragment_packet}
use chamlon.Fragment.Plain.{IsFrag}
use chamlon.Reassembly.{Entry, Table, zeroed, stored, delivered, find_first}
use chamlon.Reassembly.Table.{Absent, Free}
use chamlon.Tunnel.{receive_all}
use chamlon.Tunnel.RoundTrip.{receive_all-fragment_packet}

abbrev padded : Params
padded = record { frag = 64; pad = true; cbr = false }

padded-IsFrag : IsFrag padded
padded-IsFrag = record { least = ground arith; most = ground arith }

-- 100 bytes, in three fragments of 40, 40 and 20.
abbrev packet : List ℕ
packet = replicate 50 69 ++ replicate 50 17

abbrev two_free : Table
two_free = zeroed ∷ zeroed ∷ []

two_free-Absent : Absent 9 two_free
unfolding find_first
two_free-Absent = refl

two_free-Free : Free 0 two_free
unfolding find_first
two_free-Free = refl

receive_all-fragment_packet_example :
    (ps : List (List ℕ)) × (before : ℕ) × (last : Entry) × (fragment_packet padded 9 packet
      ≡ some ps)
    × (receive_all (λ k. 100 + k) 0 ps two_free
        ≡ (replicate before stored ++ delivered packet ∷ [], set two_free 0 last))
    × (last.is_active ≡ false)
receive_all-fragment_packet_example =
    receive_all-fragment_packet padded 9 packet (λ k. 100 + k) 0 two_free padded-IsFrag
      (ground arith) (ground arith) (ground arith) two_free-Absent two_free-Free
