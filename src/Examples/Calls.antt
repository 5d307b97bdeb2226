-- ===== src/Examples/Calls.antt =====
-- The examples of UFT/UFTSession.hpp and UFT/UFTSocket.hpp where a peer falls silent or goes away.
use uft.Prelude.{
  ℕ, ◌<◌, refl, sym, arith, Bool, true, false, List, [], ◌∷◌, ◌++◌, length, take, drop, length-take,
  take-append-drop, ltb, if◌then◌else◌, codes,
}
use uft.World.{int32, World, Env, Udt, Sent, sent, send_error, received}
use uft.Socket.Breaking.{MayTake, MayGive, Brittle, left}
use uft.Prelude.Keeps.{Stays, After}
use uft.Prelude.{◌^◌, length-drop}
use uft.Session.Termination.{Exhaustible}
use uft.Session.Termination.Packets.{Below}
use uft.Session.Termination.Methods.{run_calls_ends}
use uft.Examples.{env as plain_env, Net, net_udt, queues, session}
use uft.Examples.Copies.{env, theirs}
use uft.Session.Conduct.Methods.{Idle, Call, send_file_call, get_files_call, update_call, run_calls}
use uft.Session.Soundness.{Sound}
use uft.Session.Soundness.Idle.{run_calls-Idle}

abbrev calls : List Call
calls = send_file_call (codes "a") (codes "b") true ∷ get_files_call (codes "b") ∷ update_call ∷ []

abbrev patient_env : Env Net
patient_env = record plain_env { fuel = 2 ^ 33 }

abbrev here : World Net
here = session (5 ∷ 6 ∷ 7 ∷ []) theirs

run_calls-Idle_example : Stays (Idle (Sound 0)) (run_calls patient_env calls here)
run_calls-Idle_example = run_calls-Idle patient_env 0 (omega arith) calls here (record {
  holds = record { counted = refl; connected_open = refl; listening_open = refl; exclusive = refl };
  unlocked = refl;
})

-- A library that takes one byte a call and fails when two have gone out, and gives one byte a call.
abbrev weak_send : List ℕ → Net → Sent × Net
weak_send xs u =
    if ltb (length u.outgoing) 2
    then (sent (length (take 1 xs)), record u { outgoing = u.outgoing ++ take 1 xs })
    else (send_error, u)

abbrev weak_udt : Udt Net
weak_udt = record net_udt {
  send = λ h xs n u. weak_send xs u;
  recv = λ h n u. (received (take 1 u.incoming), record u { incoming = drop 1 u.incoming });
}

MayTake-weak :
    (b : Bool) (xs : List ℕ) (u : Net)
    → MayTake queues xs u (
        if b
        then (sent (length (take 1 xs)), record u { outgoing = u.outgoing ++ take 1 xs })
        else (send_error, u))
MayTake-weak true [] u = (omega arith, refl, omega arith)
MayTake-weak true (x ∷ xs) u = (omega arith, refl, omega arith)
MayTake-weak false xs u = refl

MayGive-weak : (n : ℕ) (u : Net) → 0 < n → MayGive queues n u (weak_udt.recv 7 (int32 n) u)
MayGive-weak n u h =
    (omega (arith, length-take 1 u.incoming), sym (take-append-drop 1 u.incoming), omega arith)

abbrev brittle : Brittle weak_udt
brittle = record {
  queues = queues;
  takes = λ h xs u e. MayTake-weak (ltb (length u.outgoing) 2) xs u;
  gives = λ h n u k. MayGive-weak n u k;
}

abbrev weak_env : Env Net
weak_env = record env { udt = weak_udt }

-- The library of Examples has left what has not come in yet.
abbrev exhaustible : Exhaustible net_udt
exhaustible = record {
  left = λ u. length u.incoming;
  send_spends = λ h xs n u. omega arith;
  receive_spends = λ h n u. omega (arith, length-take n u.incoming, length-drop n u.incoming);
  close_spends = λ h u. omega arith;
  cleanup_spends = λ u. omega arith;
}

run_calls_ends_example :
    After ⊥
      (Idle (Below patient_env exhaustible (2 ^ 33)))
      (Idle (Below patient_env exhaustible (2 ^ 33)))
      (run_calls patient_env calls here)
run_calls_ends_example = run_calls_ends patient_env exhaustible calls here refl (omega arith)
