-- ===== src/ClientMain.antt =====
-- The start of the client: `parse_arguments` and `start_sender_thread` of
-- chamlon_client/src/vpn_client.c, with `hex2bin` of chamlon_client/src/vpn_utils.c. A string is the list
-- of its characters, without the zero at its end. The functions of the C library are a parameter. Of
-- `start_sender_thread` the sockets are left out; what `malloc` gives is an argument.
pub mod Parsing
pub mod Asking
pub mod Start
pub mod Hex
mod Examples
use chamlon.Base.{
  ℕ, zero, suc, ◌-◌, ◌*◌, ◌^◌, ◌%◌, Bool, true, not, ◌||◌, List, [], ◌∷◌, Option, none, some,
  length, take, drop, get_or, leb, ltb, ◌==◌, u8, if◌then◌else◌,
}
use chamlon.OutQueue.{OutQueue}
use chamlon.Scheduler.{Timespec}
use chamlon.Sessions.{Wanted, letter_y, letter_n, same_bytes}
use chamlon.Rehandshake.{Keys}
use chamlon.Sender.{SenderArgs, prepare_dummy_static_parts}

-- An `int`; `negsuc n` is -(n + 1).
pub data ℤ : Type 0 where
  pos : ℕ → ℤ
  negsuc : ℕ → ℤ

-- What `sscanf` leaves for an option: the number of the parts, and the parts.
pub record Scanned : Type 0 where
  pub count : ℕ
  pub key : List ℕ
  pub v1 : List ℕ
  pub v2 : List ℕ

-- `sscanf` with "%31[^:]:%31[^:]:%31s" and with "%2x", where `none` is no conversion.
pub record Libc : Type 0 where
  pub atoi : List ℕ → ℤ
  pub sscanf_option : List ℕ → Scanned
  pub sscanf_hex : List ℕ → Option ℕ
  pub inet_aton : List ℕ → Option ℕ

pub record Options : Type 0 where
  pub argv_mbps : ℕ
  pub argv_frag : ℕ
  pub argv_cbr : ℕ
  pub argv_pad : ℕ
  pub argv_rehandshake_interval : ℕ
  pub argv_tun_name : List ℕ
  pub server_pk : List ℕ
  pub sin_port : ℕ
  pub sin_addr : ℕ

abbrev pub ifnamsiz : ℕ
ifnamsiz = 16

-- The globals before `main`; the name is "tun_client".
abbrev pub default_options : Options
default_options = record {
  argv_mbps = 5;
  argv_frag = 1024;
  argv_cbr = letter_n;
  argv_pad = letter_n;
  argv_rehandshake_interval = 20;
  argv_tun_name = 116 ∷ 117 ∷ 110 ∷ 95 ∷ 99 ∷ 108 ∷ 105 ∷ 101 ∷ 110 ∷ 116 ∷ [];
  server_pk = [];
  sin_port = 0;
  sin_addr = 0;
}

unfoldable pub hex_bytes : Libc → ℕ → List ℕ → Option (List ℕ)
hex_bytes l zero hex = some []
hex_bytes l (suc n) hex =
    let rest = hex_bytes l n (drop 2 hex) in
    elim (l.sscanf_hex hex) [
      | none ↦ none
      | some v ↦ elim rest [ none ↦ none | some out ↦ some (u8 v ∷ out) ]
    ]

unfoldable pub hex2bin : Libc → List ℕ → ℕ → Option (List ℕ)
hex2bin l hex outlen = if length hex == outlen * 2 then hex_bytes l outlen hex else none

abbrev pub at_least : ℕ → ℤ → ℕ
at_least low (pos n) = if ltb n low then low else n
at_least low (negsuc n) = low

abbrev pub at_most : ℕ → ℕ → ℕ
at_most high n = if ltb high n then high else n

abbrev pub is_letter : List ℕ → Bool
is_letter v = (get_or v 0 0 == letter_y) || (get_or v 0 0 == letter_n)

-- "MBPS", "FRAG", "CBR", "PAD", "REHANDSHAKE" and "TUN".
abbrev pub key_mbps : List ℕ
key_mbps = 77 ∷ 66 ∷ 80 ∷ 83 ∷ []

abbrev pub key_frag : List ℕ
key_frag = 70 ∷ 82 ∷ 65 ∷ 71 ∷ []

abbrev pub key_cbr : List ℕ
key_cbr = 67 ∷ 66 ∷ 82 ∷ []

abbrev pub key_pad : List ℕ
key_pad = 80 ∷ 65 ∷ 68 ∷ []

abbrev pub key_rehandshake : List ℕ
key_rehandshake = 82 ∷ 69 ∷ 72 ∷ 65 ∷ 78 ∷ 68 ∷ 83 ∷ 72 ∷ 65 ∷ 75 ∷ 69 ∷ []

abbrev pub key_tun : List ℕ
key_tun = 84 ∷ 85 ∷ 78 ∷ []

-- An option of two parts at least, by its key.
unfoldable pub set_option : Libc → Scanned → Options → Options
set_option l s o =
    if same_bytes s.key key_mbps
    then record o { argv_mbps = at_most 15 (at_least 1 (l.atoi s.v1)) }
    else if same_bytes s.key key_frag
    then (if is_letter s.v1
        then (if s.count == 3
            then record o { argv_frag = at_most 1200 (at_least 300 (l.atoi s.v2)) }
            else o)
        else o)
    else if same_bytes s.key key_cbr
    then (if is_letter s.v1 then record o { argv_cbr = get_or s.v1 0 0 } else o)
    else if same_bytes s.key key_pad
    then (if is_letter s.v1 then record o { argv_pad = get_or s.v1 0 0 } else o)
    else if same_bytes s.key key_rehandshake
    then record o { argv_rehandshake_interval = at_least 1 (l.atoi s.v1) }
    else if same_bytes s.key key_tun
    then record o { argv_tun_name = take (ifnamsiz - 1) s.v1 }
    else o

unfoldable pub set_options : Libc → List (List ℕ) → Options → Options
set_options l [] o = o
set_options l (arg ∷ args) o =
    let s = l.sscanf_option arg in
    set_options l args (if leb 2 s.count then set_option l s o else o)

-- `htons` of an `int`, as the port itself.
abbrev pub port_of : ℤ → ℕ
port_of (pos n) = n % 2 ^ 16
port_of (negsuc n) = 2 ^ 16 - 1 - n % 2 ^ 16

-- `none` is the result -1.
unfoldable pub parse_arguments : Libc → List (List ℕ) → Options → Option Options
parse_arguments l argv o =
    if ltb (length argv) 4 then none else elim (hex2bin l (get_or argv 3 []) 32) [
      | none ↦ none
      | some pk ↦ elim (l.inet_aton (get_or argv 1 [])) [
        | none ↦ none
        | some addr ↦ some (
            set_options l (drop 4 argv) (record o {
              server_pk = pk;
              sin_port = port_of (l.atoi (get_or argv 2 []));
              sin_addr = addr;
            }))
      ]
    ]

-- What the client asks for in MSG1.
abbrev pub wanted_of : Options → Wanted
wanted_of o = record { mbps = o.argv_mbps; frag = o.argv_frag; cbr = o.argv_cbr; pad = o.argv_pad }

-- `block` is what stands in the memory of `malloc`, and `interval` what `set_interval_from_mbps` computes. The
-- globals that the record has besides have their first values.
unfoldable pub start_sender_thread :
    Options → Keys → OutQueue → Timespec → Option SenderArgs → Option SenderArgs
start_sender_thread o keys q interval none = none
start_sender_thread o keys q interval (some block) = some (
    prepare_dummy_static_parts keys.session_id (record block {
      outq = q;
      k_send = keys.k_send;
      session_id = keys.session_id;
      interval = interval;
      send_seq = 0;
      g_session_id = keys.session_id;
      argv_frag = o.argv_frag;
      argv_cbr = o.argv_cbr;
      data_real = 0;
      data_dummy = 0;
      last_double_dummy_real = 0;
    }))
