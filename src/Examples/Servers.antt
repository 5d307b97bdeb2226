-- ===== src/Examples/Servers.antt =====
-- The example of UFT/uft_server.cpp from its command line on: a peer that connects and goes away.
use uft.Prelude.{ℕ, ◌≡◌, refl, true, [], ◌∷◌, map, some, none, ok, codes, network_connection_lost}
use uft.World.{World, Context}
use uft.CmdLineArgs.{Args, parse_args, find, emplace, try_get_value}
use uft.CmdLineArgs.Parse.{render, parse_args-render}
use uft.Listener.{start_listening, accept_session, stop_listening}
use uft.Programs.{pos, Libc}
use uft.Programs.UftServer.{ServerArgs, server_args, serve_loop, server_main}
use uft.Prelude.{◌+◌, ◌≤◌, arith}
use uft.Programs.SessionExits.{least_open, most_open}
use uft.Programs.ServerExits.{server_main_leaves}
use uft.Programs.Serving.{Accepts, server_main_ends}
use uft.Session.{c_string}
use uft.Session.Packet.{disconnect, read_next_packet, read_header}
use uft.Session.Transmit.{update, update_loop}
use uft.Socket.{new_context, set_timeout}
use uft.Socket.Transfer.{try_receive_all}
use uft.Examples.{Net, env}

abbrev libc : Libc
libc = record { strtoul = λ s. 9; inet_pton = λ s. some 1; ntohl = λ n. n }

abbrev arguments : Args
arguments =
    (codes "local-host", codes "1.2.3.4")
    ∷ (codes "local-port", codes "9")
    ∷ (codes "timeout", codes "9")
    ∷ []

abbrev wanted : ServerArgs
wanted = record { local_host = codes "1.2.3.4"; local_port = 9; timeout = 9 }

-- After the n-th socket was made, with the references of UDT_Init.
abbrev process : ℕ → ℕ → Context → World Net
process made refs sock = record {
  sock = sock;
  net = record { incoming = []; outgoing = []; made = made };
  refs = refs;
  files = λ p. none;
  reports = [];
}

abbrev listener : Context
listener = record new_context { is_open = true; is_listening = true; handle = 7 }

abbrev session : ℕ → Context
session timeout = record new_context {
  is_open = true;
  is_connected = true;
  handle = 8;
  timeout = timeout;
  remote_port = 2;
  remote_address = 1;
}

abbrev over : World Net
over = process 9 1 (session 9)

parsed : parse_args (map render arguments) [] ≡ some arguments
unfolding emplace find
parsed = parse_args-render arguments [] refl

accepted :
    Accepts env libc
      (map render arguments)
      (session 15000)
      (process 7 0 new_context)
      (process 8 1 listener)
      (process 9 2 listener)
      (process 9 1 (session 9))
unfolding server_args try_get_value find c_string start_listening accept_session stop_listening
    set_timeout
accepted = record {
  args = arguments;
  a = wanted;
  address = 1;
  parsed = parsed;
  complete = refl;
  is_address = refl;
  listens = refl;
  accepts = refl;
  sets = refl;
}

ended : serve_loop env libc env.fuel (process 9 1 (session 9)) ≡ ok network_connection_lost over
unfolding serve_loop update update_loop read_next_packet read_header try_receive_all
ended = refl

process_ends :
    server_main env libc (map render arguments) (process 7 0 new_context)
    ≡ ok (pos 0) (disconnect env over)
process_ends =
    server_main_ends env libc (map render arguments) (session 15000) network_connection_lost
      (process 7 0 new_context) (process 8 1 listener) (process 9 2 listener)
      (process 9 1 (session 9)) over accepted ended

server_main_leaves_example :
    ((process 7 0 new_context).refs + least_open (pos 0) ≤ (disconnect env over).refs)
    × ((disconnect env over).refs ≤ (process 7 0 new_context).refs + most_open (pos 0))
server_main_leaves_example =
    server_main_leaves env libc (map render arguments) (pos 0) (process 7 0 new_context)
      (disconnect env over) (omega arith) process_ends
