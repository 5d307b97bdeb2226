-- ===== src/Examples/Programs.antt =====
-- The examples of UFT/uft_client.cpp and UFT/uft_server.cpp: the sessions of Examples/Copies, begun
-- from the command line.
use uft.Prelude.{
  ℕ, ◌+◌, ◌≡◌, refl, sym, arith, map, true, false, List, [], ◌∷◌, append-nil, some, inr, ok, fail,
  codes, filesystem_file_not_found,
}
use uft.World.{World}
use uft.Files.{Files, update as update_file}
use uft.Client.{connect_client}
use uft.CmdLineArgs.{Args, parse_args, find, emplace, try_get_value}
use uft.CmdLineArgs.Parse.{render, parse_args-render}
use uft.Programs.{pos, Libc}
use uft.Programs.UftClient.{ClientArgs, client_args, client_main}
use uft.Programs.Laws.{Reaches, started, client_main_receives, client_main_hides_failure}
use uft.Programs.Exits.{left_open, client_main_leaves}
use uft.Session.Info.{get_file_info}
use uft.Session.Transmit.{send_file, start_transfer, local_end}
use uft.Session.{c_string}
use uft.Session.Public.{AtRest}
use uft.Session.Packet.{disconnect}
use uft.Socket.{new_context, set_timeout, open_socket, connect, set_blocking}
use uft.Examples.{Net}
use uft.Examples.Transfers.{content, old}
use uft.Examples.Copies.{env, link, stats, env-Healthy, theirs, first, told, apart}

abbrev libc : Libc
libc = record { strtoul = λ s. 9; inet_pton = λ s. some 1; ntohl = λ n. n }

abbrev arguments : List ℕ → Args
arguments command =
    (codes "remote-host", codes "1.2.3.4")
    ∷ (codes "remote-port", codes "9")
    ∷ (codes "command", command)
    ∷ (codes "timeout", codes "9")
    ∷ (codes "source", codes "a")
    ∷ (codes "destination", codes "b")
    ∷ []

-- --remote-host=1.2.3.4, and so on.
abbrev argv : List ℕ → List (List ℕ)
argv command = map render (arguments command)

abbrev wanted : List ℕ → ClientArgs
wanted command = record {
  remote_host = codes "1.2.3.4";
  remote_port = 9;
  command = command;
  timeout = 9;
  path = [];
  source = codes "a";
  destination = codes "b";
}

abbrev booted : List ℕ → Files → World Net
booted words files = record {
  sock = new_context;
  net = record { incoming = words; outgoing = []; made = 7 };
  refs = 0;
  files = files;
  reports = [];
}

abbrev connected : ℕ → List ℕ → Files → World Net
connected timeout words files = record (booted words files) {
  sock = record new_context {
    is_open = true;
    is_blocking = false;
    is_connected = true;
    handle = 7;
    timeout = timeout;
    remote_port = 9;
    remote_address = 1;
  };
  net = record { incoming = words; outgoing = []; made = 8 };
  refs = 1;
}

receiving_parsed :
    parse_args (argv (codes "receive_file")) [] ≡ some (arguments (codes "receive_file"))
unfolding emplace find
receiving_parsed = parse_args-render (arguments (codes "receive_file")) [] refl

receiving_complete :
    client_args libc (arguments (codes "receive_file")) ≡ inr (wanted (codes "receive_file"))
unfolding client_args try_get_value find c_string
receiving_complete = refl

connects :
    (words : List ℕ) (files : Files)
    → connect_client env 1 9 (started (booted words files)) ≡ ok true (connected 15000 words files)
unfolding connect_client open_socket connect set_blocking
connects words files = refl

sets :
    (words : List ℕ) (files : Files)
    → set_timeout env 9 (connected 15000 words files) ≡ ok true (connected 9 words files)
unfolding set_timeout
sets words files = refl

connected-AtRest :
    (words : List ℕ) (files : Files) → AtRest env link stats (connected 9 words files)
connected-AtRest words files = record {
  session = record {
    is_up = record { is_open = refl; is_connected = refl; handle_eq = refl };
    healthy = env-Healthy;
    enough = omega arith;
    offer_fits = omega arith;
  };
  unlocked = refl;
}

receives :
    Reaches env libc
      (argv (codes "receive_file"))
      (wanted (codes "receive_file"))
      (booted told theirs)
      (connected 15000 told theirs)
      (connected 9 told theirs)
receives = record {
  args = arguments (codes "receive_file");
  address = 1;
  parsed = receiving_parsed;
  complete = receiving_complete;
  is_address = refl;
  connects = connects told theirs;
  sets = sets told theirs;
}

client_main_receives_example :
    (w' : World Net) × (client_main env libc (argv (codes "receive_file")) (booted told theirs)
      ≡ ok (pos 0) w')
    × (w'.files ≡ update_file theirs (codes "b") content)
unfolding c_string
client_main_receives_example =
    client_main_receives env libc link stats (argv (codes "receive_file"))
      (wanted (codes "receive_file")) 5 false content [] (some old) (booted told theirs)
      (connected 15000 told theirs) (connected 9 told theirs) receives refl
      (connected-AtRest told theirs) first.1 refl (omega arith) (omega arith) refl apart
      (sym (append-nil told))

-- Without "a" here.
send_file_fails :
    send_file env (codes "a") (codes "b") true (connected 9 [] theirs)
    ≡ fail filesystem_file_not_found (connected 9 [] theirs)
unfolding send_file start_transfer local_end get_file_info
send_file_fails = refl

sending_parsed : parse_args (argv (codes "send_file")) [] ≡ some (arguments (codes "send_file"))
unfolding emplace find
sending_parsed = parse_args-render (arguments (codes "send_file")) [] refl

sending_complete :
    client_args libc (arguments (codes "send_file")) ≡ inr (wanted (codes "send_file"))
unfolding client_args try_get_value find c_string
sending_complete = refl

sends :
    Reaches env libc
      (argv (codes "send_file"))
      (wanted (codes "send_file"))
      (booted [] theirs)
      (connected 15000 [] theirs)
      (connected 9 [] theirs)
sends = record {
  args = arguments (codes "send_file");
  address = 1;
  parsed = sending_parsed;
  complete = sending_complete;
  is_address = refl;
  connects = connects [] theirs;
  sets = sets [] theirs;
}

send_file_ends :
    client_main env libc (argv (codes "send_file")) (booted [] theirs)
    ≡ ok (pos 0) (disconnect env (connected 9 [] theirs))
unfolding c_string
send_file_ends =
    client_main_hides_failure env libc (argv (codes "send_file")) (wanted (codes "send_file"))
      filesystem_file_not_found (booted [] theirs) (connected 15000 [] theirs)
      (connected 9 [] theirs) (connected 9 [] theirs) sends refl send_file_fails

client_main_leaves_example :
    (disconnect env (connected 9 [] theirs)).refs ≡ (booted [] theirs).refs + left_open (pos 0)
client_main_leaves_example =
    client_main_leaves env libc (argv (codes "send_file")) (pos 0) (booted [] theirs)
      (disconnect env (connected 9 [] theirs)) (omega arith) send_file_ends
