-- ===== src/Tunnel.antt =====
-- One IP packet through the tunnel: the fragments that `handle_outbound_tun_buf` encrypts
-- (chamlon_server/src/packet_processor.c), decrypted one after another by the handler of the other
-- end (chamlon_client/src/vpn_packet_handler.c), or by that of the server.
pub mod Step
pub mod RoundTrip
mod Examples
use chamlon.Base.{ℕ, zero, suc, ◌+◌, List, [], ◌∷◌}
use chamlon.Reassembly.{Outcome, Table, handle_plain, handle_plain_server}

-- The packets of one run of the receiver, the `k`-th of them at time `clock k`.
unfoldable pub receive_all : (ℕ → ℕ) → ℕ → List (List ℕ) → Table → List Outcome × Table
receive_all clock k [] t = ([], t)
receive_all clock k (p ∷ ps) t =
    let (o, t') = handle_plain (clock k) p t in
    let (os, t'') = receive_all clock (k + 1) ps t' in (o ∷ os, t'')

-- The same at the server, with `stale k` on the stack behind the k-th packet.
unfoldable pub receive_all_server :
    (ℕ → ℕ) → (ℕ → List ℕ) → ℕ → List (List ℕ) → Table → List Outcome × Table
receive_all_server clock stale k [] t = ([], t)
receive_all_server clock stale k (p ∷ ps) t =
    let (o, t') = handle_plain_server (clock k) p (stale k) t in
    let (os, t'') = receive_all_server clock stale (k + 1) ps t' in (o ∷ os, t'')
