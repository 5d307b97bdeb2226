-- ===== src/Session/Soundness/Idle.antt =====
-- UFT/UFTSession.hpp: the socket under any sequence of calls of a session's public methods.
use uft.Prelude.{ℕ, ◌+◌, ◌<◌, ◌^◌, arith, List}
use uft.Prelude.Keeps.{Stays}
use uft.World.{World, Env}
use uft.Session.Conduct.{Conduct}
use uft.Session.Conduct.Methods.{Idle, Call, run_calls, run_calls-Rests}
use uft.Session.Soundness.{Sound, send_all-Sound}
use uft.Session.Soundness.Packets.{read_next_packet-Sound, disconnect-Sound}

module _ {U : Type 0} (env : Env U) (others : ℕ) (few : others + 1 < 2 ^ 64) where
  abbrev pub sound_conduct : Conduct env
  sound_conduct = record {
    Holds = λ k w. Sound others w;
    Stuck = Unit;
    grow = λ k w h. h;
    none_left = λ w h. tt;
    with_files = λ k w fs h. h;
    with_reports = λ k w rs h. h;
    with_lock = λ k w b h. record {
      counted = h.counted;
      connected_open = h.connected_open;
      listening_open = h.listening_open;
      exclusive = h.exclusive;
    };
    says = λ k xs l. send_all-Sound env others few xs;
    hears = λ k block. read_next_packet-Sound env others few block;
    drops = λ k. disconnect-Sound env others few;
  }

  -- Any sequence of calls of Update, SendFile, ReceiveFile and GetFileList, each made whatever the
  -- one before it answered, whatever the library, zlib, the file system and the peer do, fewer
  -- than 2 ^ 64 - 1 references to UDT being held elsewhere, from a state where the references are
  -- counted exactly, a socket that is connected or listens is open, none does both, and nobody
  -- holds the session's lock: the sequence crashes, exceeds the fuel, or ends in such a state
  -- again.
  pub run_calls-Idle :
      (calls : List Call) (w : World U)
      → Idle (Sound others) w
      → Stays (Idle (Sound others)) (run_calls env calls w)
  run_calls-Idle calls = (run_calls-Rests sound_conduct 0 (omega arith) calls).at
