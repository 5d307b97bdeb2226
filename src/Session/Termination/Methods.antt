-- ===== src/Session/Termination/Methods.antt =====
-- UFT/UFTSession.hpp: the public methods of a session over a library that has only so much left to give.
use uft.Prelude.{◌+◌, ◌≤◌, ◌^◌, ◌≡◌, arith, false, List}
use uft.Prelude.Keeps.{After}
use uft.World.{World, Env}
use uft.Session.Conduct.{Conduct}
use uft.Session.Conduct.Methods.{Idle, Call, run_calls, run_calls-Rests}
use uft.Session.Termination.{Exhaustible}
use uft.Session.Termination.Packets.{
  Below, disconnect-Below, send_all-Below, read_next_packet-Below, spent, spent_more,
}

module _ {U : Type 0} (env : Env U) (exhaustible : Exhaustible env.udt) where
  open exhaustible use {left}

  abbrev ending : Conduct env
  ending = record {
    Holds = Below env exhaustible;
    Stuck = ⊥;
    grow = λ k w h. spent_more env exhaustible k w h;
    none_left = λ w h. let a = h.below in absurd (omega arith);
    with_files = λ k w fs h. spent env exhaustible k w (record w { files = fs }) h (omega arith);
    with_reports =
        λ k w rs h. spent env exhaustible k w (record w { reports = rs }) h (omega arith);
    with_lock = λ k w b h.
        spent env exhaustible k w (record w { sock = record (w.sock) { io_locked = b } }) h
          (omega arith);
    says = send_all-Below env exhaustible;
    hears = read_next_packet-Below env exhaustible;
    drops = disconnect-Below env exhaustible;
  }

  -- Any sequence of calls of Update, SendFile, ReceiveFile and GetFileList, each made whatever the
  -- one before it answered, with the session's lock free, over a library that has a bound on the
  -- bytes that will still come in and the times it will still make one wait, and fuel for that and
  -- 2 ^ 32 more, whatever the peer says and the files hold: it ends, unless it crashes, with the
  -- lock free and the fuel still enough for what is left.
  pub run_calls_ends :
      (calls : List Call) (w : World U)
      → w.sock.io_locked ≡ false
      → left w.net + 2 ^ 32 ≤ env.fuel
      → After ⊥
          (Idle (Below env exhaustible env.fuel))
          (Idle (Below env exhaustible env.fuel))
          (run_calls env calls w)
  run_calls_ends calls w u l =
      (run_calls-Rests ending env.fuel (omega arith) calls).at w
        (record { holds = record { below = omega arith; fueled = l }; unlocked = u })
