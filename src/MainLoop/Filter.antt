-- ===== src/MainLoop/Filter.antt =====
-- What the loop filters out before it makes a job.
use chamlon.Base.{
  ℕ, ◌≡◌, refl, inl, inr, List, none, arith, length, ltb, Bool-cases, not, ◌||◌, ◌==◌,
}
use chamlon.Wire.{decode_proto, pkt_magic, pkt_version}
use chamlon.Crypto.{Sodium}
use chamlon.Sessions.{Client}
use chamlon.Handshake.{Entropy, Calls, Server}
use chamlon.Inbound.{ignored, handle_inbound_udp}
use chamlon.MainLoop.{accept_datagram}

-- A datagram that the loop refuses is one that the worker would ignore.
pub handle_inbound_udp-refused :
    (c : Sodium) (e again : Entropy) (calls : Calls) (now : ℕ) (src : Client) (buf stale : List ℕ)
    (srv : Server)
    → accept_datagram buf ≡ none
    → handle_inbound_udp c e again calls now src buf stale srv ≡ (ignored, srv)
unfolding handle_inbound_udp accept_datagram
handle_inbound_udp-refused c e again calls now src buf stale srv h =
    elim (Bool-cases (ltb (length buf) 6)) [
      | inl a ↦ rw (handle_inbound_udp, a) refl
      | inr a ↦ elim (Bool-cases (ltb 1600 (length buf))) [
        | inl b ↦ rw (handle_inbound_udp, a, b) refl
        | inr b ↦
            elim (Bool-cases (
              not ((decode_proto buf).magic == pkt_magic)
              || not ((decode_proto buf).version == pkt_version))) [
                | inl d ↦ rw (handle_inbound_udp, a, b, d) refl
                | inr d ↦ absurd (ground arith)
              ]
      ]
    ]
