-- ===== src/Examples/Peers.antt =====
-- The examples of UFT/UFTClient.hpp, UFT/UFTListener.hpp and UFT/CmdLineArgs.hpp.
use uft.Prelude.{ℕ, ◌+◌, ◌≡◌, refl, arith, true, false, ◌||◌, ◌&&◌, List, [], ◌∷◌, map, length}
use uft.World.{World, Context}
use uft.Socket.{new_context}
use uft.Socket.Lifecycle.{IsSound, count}
use uft.Client.{connect_client}
use uft.Client.Laws.{connect_client-IsSound}
use uft.Listener.{start_listening, accept_session}
use uft.Listener.Laws.{start_listening-IsSound, Answered, accept_session_connects}
use uft.CmdLineArgs.{parse_args, try_get_value, to_u16}
use uft.CmdLineArgs.Parse.{render, get_from, parse_args-try_get_value}
use uft.Examples.{Net, env, disk, session}

abbrev fresh : World Net
fresh = record (session [] (disk [] [])) { sock = new_context; refs = 3 }

fresh-IsSound : IsSound 3 fresh
fresh-IsSound = record {
  counted = refl;
  connected_open = refl;
  listening_open = refl;
  exclusive = refl;
}

abbrev client : World Net
client = record fresh {
  net = record (fresh.net) { made = 9 };
  refs = 4;
  sock = record new_context {
    is_open = true;
    is_blocking = false;
    is_connected = true;
    handle = 8;
    remote_port = 2;
    remote_address = 1;
  };
}

connect_client-IsSound_example :
    IsSound 3 client
    × (client.sock.is_connected ≡ true)
    × (client.sock.is_open ≡ (true || fresh.sock.is_open))
    × ((true && client.sock.is_blocking) ≡ false)
unfolding connect_client
connect_client-IsSound_example =
    connect_client-IsSound env 3 1 2 true fresh client (omega arith) fresh-IsSound refl

abbrev server : World Net
server = record fresh {
  net = record (fresh.net) { made = 9 };
  refs = 4;
  sock = record new_context { is_open = true; is_listening = true; handle = 8 };
}

start_listening-IsSound_example :
    IsSound 3 server × (server.sock.is_listening ≡ true) × (server.sock.is_open ≡ true)
unfolding start_listening
start_listening-IsSound_example =
    start_listening-IsSound env 3 0 80 5 true fresh server (omega arith) fresh-IsSound refl

abbrev served : World Net
served = record server { net = record (server.net) { made = 10 }; refs = 5 }

abbrev peer : Context
peer = record new_context {
  is_open = true;
  is_connected = true;
  handle = 9;
  remote_port = 2;
  remote_address = 1;
}

-- A session that is connected already, and the listener beside it.
abbrev earlier : Context
earlier = record peer { handle = 5 }

abbrev busy : World Net
busy = record server { refs = 5 }

accept_session_connects_example :
    (busy.sock.is_listening ≡ true)
    × (served.sock ≡ busy.sock)
    × (served.refs ≡ 3 + count served.sock.is_open + count peer.is_open)
    × Answered env true busy.sock.is_blocking peer served.net
unfolding accept_session
accept_session_connects_example =
    accept_session_connects env 3 true earlier peer busy served (omega arith) refl refl refl

-- --a=b and --c= as arguments.
abbrev pairs : List (List ℕ × List ℕ)
pairs = (97 ∷ [], 98 ∷ []) ∷ (99 ∷ [], []) ∷ []

parse_args-try_get_value_example :
    get_from (to_u16 (λ s. length s)) (97 ∷ []) (parse_args (map render pairs) [])
    ≡ try_get_value (to_u16 (λ s. length s)) (97 ∷ []) pairs
parse_args-try_get_value_example =
    parse_args-try_get_value (to_u16 (λ s. length s)) (97 ∷ []) pairs refl
