-- ===== src/Programs/SessionExits.antt =====
-- UFT/uft_server.cpp: the references to UDT that the accepted session leaves.
use uft.Prelude.{
  ℕ, zero, suc, ◌+◌, ◌^◌, ◌<◌, ◌≤◌, ◌≡◌, arith, Bool, true, false, ◌==◌, if◌then◌else◌, not, ◌||◌,
  ok, fail, crash, stuck, Outcome, pure, modify, ◌>>=◌, ◌>>◌, Code,
}
use uft.Prelude.Keeps.{Stays, Keeps}
use uft.World.{World, Env, Context}
use uft.Listener.{accept_session, stop_listening}
use uft.Programs.{ℤ, pos, negsuc, Libc}
use uft.Programs.Exits.{set_timeout-Idle, Idle-refs, disconnect-refs}
use uft.Programs.UftServer.{serve_loop, run_session}
use uft.Session.Packet.{disconnect}
use uft.Session.Conduct.Methods.{Idle, update-Rests}
use uft.Session.Soundness.{Sound}
use uft.Session.Soundness.Idle.{sound_conduct}
use uft.Session.Transmit.{update}
use uft.Socket.{new_context, set_timeout}
use uft.Socket.Lifecycle.{count}

-- The fewest and the most sockets that the exit code leaves open: -6 leaves the session connected,
-- and so may -5.
abbrev pub least_open : ℤ → ℕ
least_open (pos n) = 0
least_open (negsuc n) = if n == 5 then 1 else 0

abbrev pub most_open : ℤ → ℕ
most_open (pos n) = 0
most_open (negsuc n) = if (n == 4 || n == 5) then 1 else 0

module _ {U : Type 0} (env : Env U) (libc : Libc) where
  after_update :
      (fuel others : ℕ) (o : Outcome (World U) (Unit {0}))
      → Keeps (Idle (Sound others)) (serve_loop env libc fuel)
      → Stays (Idle (Sound others)) o
      → Stays (Idle (Sound others)) (elim o [
        | ok a w' ↦ serve_loop env libc fuel w'
        | fail c w' ↦ ok c w'
        | crash ↦ crash
        | stuck ↦ stuck
      ])
  after_update fuel others (ok a w) k h = k.at w h
  after_update fuel others (fail c w) k h = h
  after_update fuel others crash k h = tt
  after_update fuel others stuck k h = tt

  serve_loop-Idle :
      (fuel others : ℕ)
      → others + 1 < 2 ^ 64
      → Keeps (Idle (Sound others)) (serve_loop env libc fuel)
  unfolding serve_loop
  serve_loop-Idle zero others few = record { at = λ w h. tt }
  serve_loop-Idle (suc fuel) others few = record {
    at = λ w h.
        after_update fuel others (update env w) (serve_loop-Idle fuel others few)
          ((update-Rests (sound_conduct env others few) 0 (omega arith)).at w h);
  }

  pub accept_session_leaves :
      (others : ℕ) (b : Bool) (c : Context) (w w' : World U)
      → others + 2 < 2 ^ 64
      → w.refs ≡ others + count w.sock.is_open
      → accept_session env new_context w ≡ ok (b, c) w'
      → (w'.sock ≡ w.sock)
        × (w'.refs ≡ others + count w'.sock.is_open + count c.is_open)
        × (c.is_listening ≡ false)
        × (c.io_locked ≡ false)
        × ((not b || c.is_open) ≡ true)
        × ((not c.is_connected || c.is_open) ≡ true)
  unfolding accept_session
  accept_session_leaves others b c w w' h r e = ground arith

  pub stop_listening-refs :
      (others : ℕ) (w : World U)
      → others + 2 < 2 ^ 64
      → w.sock.is_open ≡ true
      → (n : ℕ) → n ≤ 1
      → w.refs ≡ others + 1 + n
      → (stop_listening env w).refs ≡ others + n
  unfolding stop_listening
  stop_listening-refs others w h o n l r = ground arith

  abbrev pub Leaves : ℕ → ℤ → World U → Type 0
  Leaves others z w = (others + least_open z ≤ w.refs) × (w.refs ≤ others + most_open z)

  -- From the loop over Update on.
  after_serve :
      (z : ℤ) (w w' : World U) (o : Outcome (World U) Code) (others : ℕ)
      → others + 1 < 2 ^ 64
      → Stays (Idle (Sound others)) o
      → ◌>>=◌ (λ _. o) (λ c. modify (disconnect env) >> pure (pos 0)) w ≡ ok z w'
      → Leaves others z w'
  after_serve z w w' (ok c w₃) others h i e =
      let left = disconnect-refs env libc others w₃ h i in ground arith
  after_serve z w w' (fail c w₃) others h i e = ground arith
  after_serve z w w' crash others h i e = ground arith
  after_serve z w w' stuck others h i e = ground arith

  -- From SetTimeout on.
  pub after_timeout :
      (timeout : ℕ) (c : Context) (z : ℤ) (w w' : World U) (o : Outcome (World U) Bool) (others : ℕ)
      → others + 1 < 2 ^ 64
      → Idle (Sound others) (record w { sock = c })
      → c.is_open ≡ true
      → set_timeout env timeout (record w { sock = c }) ≡ o
      → run_session env libc timeout c w ≡ ok z w'
      → Leaves others z w'
  unfolding run_session
  after_timeout timeout c z w w' (ok true w₂) others h i p s e =
      let (idle, same) =
        set_timeout-Idle env libc others timeout true (record w { sock = c }) w₂ s i in
      after_serve z w₂ w' (serve_loop env libc env.fuel w₂) others h
        ((serve_loop-Idle env.fuel others h).at w₂ idle) (ground arith)
  after_timeout timeout c z w w' (ok false w₂) others h i p s e =
      let (idle, same) =
        set_timeout-Idle env libc others timeout false (record w { sock = c }) w₂ s i in
      let kept = Idle-refs env libc others w₂ idle in ground arith
  after_timeout timeout c z w w' (fail k w₂) others h i p s e = ground arith
  after_timeout timeout c z w w' crash others h i p s e = ground arith
  after_timeout timeout c z w w' stuck others h i p s e = ground arith
