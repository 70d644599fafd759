-- ===== src/ClientMain/Examples.antt =====
-- Examples of the client's start, with a small C library.
use chamlon.Base.{
  ℕ, suc, ◌+◌, ◌-◌, ◌*◌, ◌<◌, ◌≡◌, refl, false, ◌&&◌, List, [], ◌∷◌, Option, none, some, arith, leb,
  ltb, ◌==◌, replicate, if◌then◌else◌,
}
use chamlon.Crypto.Toy.{toy}
use chamlon.OutQueue.{OutQueue}
use chamlon.Rehandshake.{Keys}
use chamlon.Scheduler.{Timespec}
use chamlon.Sessions.{zero_session, configured, letter_y}
use chamlon.Handshake.{parse_msg1}
use chamlon.Handshake.ClientSide.{encode_msg1}
use chamlon.Sender.{SenderArgs}
use chamlon.Sender.Dummy.{IsPrepared}
use chamlon.Sender.Rekey.{World, Run, AllDistinct}
use chamlon.ClientMain.{
  ℤ, pos, Scanned, Libc, Options, default_options, hex_bytes, hex2bin, set_option, set_options,
  parse_arguments, start_sender_thread,
}
use chamlon.ClientMain.Parsing.{Parsed, parse_arguments-Parsed}
use chamlon.ClientMain.Asking.{Granted, hello_of, default_options-IsOptions, configured-options}
use chamlon.ClientMain.Start.{begun, start_sender_thread-AllDistinct}
use chamlon.ClientMain.Hex.{digit, hex_of, AllBytes, ReadsHex}

-- The leading decimal digits.
abbrev decimal : ℕ → List ℕ → ℕ
decimal n [] = n
decimal n (d ∷ ds) =
    let rest = decimal (10 * n + (d - 48)) ds in if leb 48 d && ltb d 58 then rest else n

abbrev atoi : List ℕ → ℤ
atoi s = pos (decimal 0 s)

abbrev colon : ℕ
colon = 58

-- The characters before the first colon, and those after it.
abbrev before : List ℕ → List ℕ
before [] = []
before (x ∷ xs) = let rest = before xs in if x == colon then [] else x ∷ rest

abbrev after : List ℕ → List ℕ
after [] = []
after (x ∷ xs) = let rest = after xs in if x == colon then xs else rest

abbrev count : List (List ℕ) → ℕ
count [] = 0
count ([] ∷ parts) = 0
count ((x ∷ xs) ∷ parts) = suc (count parts)

abbrev sscanf_option : List ℕ → Scanned
sscanf_option s = record {
  count = count (before s ∷ before (after s) ∷ after (after s) ∷ []);
  key = before s;
  v1 = before (after s);
  v2 = after (after s);
}

abbrev value : ℕ → ℕ
value d = if ltb d 58 then d - 48 else d - 87

abbrev sscanf_hex : List ℕ → Option ℕ
sscanf_hex (x ∷ y ∷ rest) = some (16 * value x + value y)
sscanf_hex s = none

abbrev libc : Libc
libc = record {
  atoi = atoi;
  sscanf_option = sscanf_option;
  sscanf_hex = sscanf_hex;
  inet_aton = λ s. some (decimal 0 s);
}

value-digit : (x : ℕ) → x < 16 → value (digit x) ≡ x
value-digit x lt = ground arith

libc-ReadsHex : ReadsHex libc
libc-ReadsHex = record {
  two_digits = λ x y rest lt lt'. ground (arith, value-digit x lt, value-digit y lt');
}

abbrev key : List ℕ
key = 250 ∷ replicate 31 7

key-AllBytes : AllBytes key
key-AllBytes = ground arith

-- The port 4433 and the options FRAG:Y:200, CBR:Y and MBPS:9.
abbrev argv : List (List ℕ)
argv =
    (99 ∷ [])
    ∷ (49 ∷ [])
    ∷ (52 ∷ 52 ∷ 51 ∷ 51 ∷ [])
    ∷ hex_of key
    ∷ (70 ∷ 82 ∷ 65 ∷ 71 ∷ 58 ∷ 89 ∷ 58 ∷ 50 ∷ 48 ∷ 48 ∷ [])
    ∷ (67 ∷ 66 ∷ 82 ∷ 58 ∷ 89 ∷ [])
    ∷ (77 ∷ 66 ∷ 80 ∷ 83 ∷ 58 ∷ 57 ∷ [])
    ∷ []

-- The fragment size is too small, and is raised.
abbrev options : Options
options = record default_options {
  argv_mbps = 9;
  argv_frag = 300;
  argv_cbr = letter_y;
  server_pk = key;
  sin_port = 4433;
  sin_addr = 1;
}

parsed : parse_arguments libc argv default_options ≡ some options
unfolding parse_arguments hex2bin hex_bytes set_options set_option
parsed = refl

parse_arguments-Parsed_example : Parsed (parse_arguments libc argv default_options)
parse_arguments-Parsed_example =
    parse_arguments-Parsed libc argv default_options default_options-IsOptions

configured-options_example : Granted options zero_session (
    configured
      (parse_msg1 (encode_msg1 (hello_of options (replicate 32 4) (replicate 8 6)))).wanted
      zero_session)
configured-options_example =
    configured-options libc argv options (replicate 32 4) (replicate 8 6) zero_session parsed refl
      refl

abbrev keys : Keys
keys = record {
  session_id = 4 ∷ replicate 15 0;
  k_send = 3 ∷ replicate 31 0;
  k_recv = 5 ∷ replicate 31 0;
}

abbrev queue : OutQueue
queue = record {
  high_lane = record { nodes = []; size = 0 };
  normal_lane = record { nodes = []; size = 0 };
}

abbrev interval : Timespec
interval = record { tv_sec = 0; tv_nsec = 700000 }

-- Memory of zeros.
abbrev block : SenderArgs
block = record {
  session_id = [];
  k_send = [];
  outq = queue;
  interval = interval;
  pending_k_send = [];
  pending_session_id = [];
  pending_rekey = false;
  send_seq = 0;
  g_session_id = [];
  final_pkt_dummy = [];
  dummy_payload = [];
  argv_frag = 0;
  argv_cbr = 0;
  data_real = 0;
  data_dummy = 0;
  last_double_dummy_real = 0;
}

start_sender_thread-AllDistinct_example :
    (s : SenderArgs) × (start_sender_thread default_options keys queue interval (some block)
      ≡ some s)
    × IsPrepared s
    × ((w : World) → Run toy (begun keys s) w → AllDistinct w.used)
start_sender_thread-AllDistinct_example =
    start_sender_thread-AllDistinct toy default_options keys queue interval block
      default_options-IsOptions refl
