-- ===== src/Examples/Sockets.antt =====
-- The examples of UFT/BitConverter.hpp, UFT/ByteBuffer.hpp and UFT/UFTSocket.cpp.
use uft.Prelude.{
  ◌+◌, ◌-◌, ◌≤◌, ◌^◌, ◌≡◌, ◌↔◌, refl, arith, true, false, not, [], ◌∷◌, none, some, ok, ◌==◌,
}
use uft.World.{World, Env, Context}
use uft.Socket.{new_context, close, accept, connect}
use uft.Socket.Lifecycle.{
  IsSound, Ends, open_call, listen_call, close_call, perform_all, perform_all-IsSound,
  accept_connects, close_keeps_handle, connect_leaves_connection, count,
}
use uft.Socket.Transfer.{send_all, receive_all}
use uft.Socket.Delivery.{at, SentAll, GotAll, send_all_lem, receive_all_lem}
use uft.BitConverter.{store, load, host_to_network64, network_to_host64}
use uft.BitConverter.Order.{big_endian, network_order64}
use uft.ByteBuffer.{ByteBuffer, read_bytes, wild, size_mod}
use uft.ByteBuffer.Laws.{read_bytes-wild}
use uft.Examples.{Net, net_udt, env, link, connected-IsUp, disk, session}

network_order64_example :
    (store 8 (host_to_network64 0x0102030405060708) ≡ big_endian 8 0x0102030405060708)
    × (network_to_host64 (load (big_endian 8 0x0102030405060708)) ≡ 0x0102030405060708)
network_order64_example = network_order64 0x0102030405060708 (omega arith)

abbrev three_left : ByteBuffer
three_left = record { buffer = 1 ∷ 2 ∷ 3 ∷ 4 ∷ []; offset_r = 1; offset_w = 4 }

read_bytes-wild_example :
    (read_bytes (2 ^ 64 - 1) three_left ≡ wild) ↔ (size_mod ≤ 1 + (2 ^ 64 - 1))
read_bytes-wild_example =
    read_bytes-wild (2 ^ 64 - 1) three_left (omega arith) (omega arith) (omega arith)

abbrev here : World Net
here = session (5 ∷ 6 ∷ 7 ∷ []) (disk [] [])

send_all_example :
    (v : Net) × (send_all env (1 ∷ 2 ∷ []) here ≡ ok 2 (at env link here v))
    × SentAll env link (1 ∷ 2 ∷ []) here.net v
send_all_example =
    send_all_lem env link (1 ∷ 2 ∷ []) here connected-IsUp (omega arith) (omega arith)

receive_all_example :
    (v : Net) × (receive_all env 2 here ≡ ok (some (5 ∷ 6 ∷ [])) (at env link here v))
    × GotAll env link (5 ∷ 6 ∷ []) here.net v
receive_all_example =
    receive_all_lem env link (5 ∷ 6 ∷ []) (7 ∷ []) here connected-IsUp (λ e. cc) refl (omega arith)
      (omega arith)

abbrev unopened : World Net
unopened = record here { sock = new_context; refs = 3 }

unopened-IsSound : IsSound 3 unopened
unopened-IsSound = record {
  counted = refl;
  connected_open = refl;
  listening_open = refl;
  exclusive = refl;
}

perform_all-IsSound_example :
    Ends (IsSound 3) (perform_all env (open_call ∷ listen_call 0 80 5 ∷ close_call ∷ []) unopened)
perform_all-IsSound_example =
    perform_all-IsSound env 3 (open_call ∷ listen_call 0 80 5 ∷ close_call ∷ []) unopened
      (omega arith) unopened-IsSound

abbrev listener : World Net
listener = record here {
  sock = record new_context { is_open = true; is_listening = true; handle = 3 };
  refs = 1;
}

abbrev after_accept : World Net
after_accept = record listener { net = record (listener.net) { made = 9 }; refs = 2 }

abbrev peer : Context
peer = record new_context {
  is_open = true;
  is_connected = true;
  handle = 8;
  remote_port = 2;
  remote_address = 1;
}

accept_connects_example :
    (after_accept.sock ≡ listener.sock)
    × (after_accept.refs ≡ 0 + count after_accept.sock.is_open + count peer.is_open)
    × (peer.is_open ≡ true)
    × (peer.is_connected ≡ true)
    × (peer.is_listening ≡ false)
    × (peer.is_blocking ≡ listener.sock.is_blocking)
    × (peer.timeout ≡ listener.sock.timeout)
unfolding accept close
accept_connects_example =
    accept_connects env 0 new_context peer listener after_accept (omega arith) refl refl

-- A library that cannot name the peer, and that does not set an option back to 0.
abbrev poor_env : Env Net
poor_env = record env {
  udt = record net_udt {
    getpeername = λ h u. (none, u);
    setsockopt = λ h o v u. (not (v == 0), u);
  };
}

abbrev shared : World Net
shared = record listener { refs = 2 }

close_keeps_handle_example :
    ((close env shared).net ≡ shared.net) × ((close env shared).sock.is_open ≡ false)
close_keeps_handle_example = close_keeps_handle env shared refl refl (omega arith) (omega arith)

abbrev ready : World Net
ready = record here {
  sock = record new_context { is_open = true; is_blocking = false; handle = 3 };
}

connect_leaves_connection_example :
    connect poor_env 1 2 ready
    ≡ ok false (record ready { net = ready.net; sock = record (ready.sock) { is_blocking = true } })
connect_leaves_connection_example =
    connect_leaves_connection poor_env 1 2 ready ready.net ready.net ready.net ready.net refl refl
      refl refl refl refl refl refl
