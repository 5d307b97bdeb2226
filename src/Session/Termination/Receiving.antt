-- ===== src/Session/Termination/Receiving.antt =====
-- UFT/UFTSocket.hpp: ReceiveAll and TryReceiveAll over a library that has only so much left to give.
use uft.Prelude.{
  ℕ, zero, suc, ◌+◌, ◌-◌, ◌≤◌, ◌<◌, ◌≡◌, refl, arith, Bool, true, false, List, [], ◌∷◌, ◌++◌,
  length, Option, none, some, Outcome, ok, fail, crash, stuck, pure, ◌>>=◌,
}
use uft.World.{int32, World, Env, Received, received, recv_again, recv_error}
use uft.Socket.{close, disconnect}
use uft.Socket.Transfer.{Trial, trial, lost, would_block, all_of, receive_loop, try_receive_all}
use uft.Session.Termination.{ReceiveSpends, Exhaustible, broken-left}

module _ {U : Type 0} (env : Env U) (exhaustible : Exhaustible env.udt) where
  open exhaustible use {left}

  -- A receive of `size` bytes ends with them taken from `b`, or with at most `b` left.
  abbrev pub Receives : ℕ → ℕ → Outcome (World U) (Option (List ℕ)) → Type 0
  Receives size b (ok none w) = left w.net ≤ b
  Receives size b (ok (some xs) w) = size + left w.net ≤ b
  Receives size b (fail c w) = ⊥
  Receives size b crash = Unit
  Receives size b stuck = ⊥

  Receives-more :
      (n m b c : ℕ) (o : Outcome (World U) (Option (List ℕ)))
      → b ≤ c
      → m + b ≤ n + c
      → Receives n b o
      → Receives m c o
  Receives-more n m b c (ok none w) l k h = omega arith
  Receives-more n m b c (ok (some xs) w) l k h = omega arith
  Receives-more n m b c (fail e w) l k h = h
  Receives-more n m b c crash l k h = h
  Receives-more n m b c stuck l k h = h

  abbrev pub Receiving : ℕ → ℕ → List ℕ → World U → Type 0
  Receiving fuel size acc w =
      (o : Outcome (World U) (Option (List ℕ))) × (receive_loop env fuel size acc w ≡ o)
      × Receives size (left w.net) o

  receive_step :
      (fuel size : ℕ) (acc : List ℕ) (w : World U) (r : Received × U)
      → w.sock.is_open ≡ true
      → w.sock.is_connected ≡ true
      → env.udt.recv w.sock.handle (int32 (suc size)) w.net ≡ r
      → ReceiveSpends left w.net r
      → ((n : ℕ) (acc : List ℕ) (u : U)
          → left u < left w.net
          → Receiving fuel n acc (record w { net = u }))
      → Receiving (suc fuel) (suc size) acc w
  unfolding receive_loop
  receive_step fuel size acc w (received [], u) o c e l next =
      (ok none (record w { net = u }), ground arith, omega arith)
  receive_step fuel size acc w (received (y ∷ ys), u) o c e l next =
      let (a, run, s) = next (suc size - length (y ∷ ys)) (acc ++ (y ∷ ys)) u (omega arith) in
      (
        a,
        ground arith,
        Receives-more (suc size - length (y ∷ ys)) (suc size) (left u) (left w.net) a (omega arith)
            (omega arith) s,
      )
  receive_step fuel size acc w (recv_again, u) o c e l next =
      let (a, run, s) = next (suc size) acc u l in
      (
        a,
        ground arith,
        Receives-more (suc size) (suc size) (left u) (left w.net) a (omega arith) (omega arith) s,
      )
  receive_step fuel size acc w (recv_error, u) o c e l next = (
    ok none (close env (disconnect env (record w { net = u }))),
    ground arith,
    broken-left env exhaustible w u l,
  )

  pub receive_loop_ends :
      (fuel size : ℕ) (acc : List ℕ) (w : World U) (b c : Bool)
      → w.sock.is_open ≡ b
      → w.sock.is_connected ≡ c
      → left w.net < fuel
      → Receiving fuel size acc w
  unfolding receive_loop
  receive_loop_ends fuel zero acc w b c o p h = (ok (some acc) w, refl, omega arith)
  receive_loop_ends zero (suc size) acc w b c o p h = absurd (omega arith)
  receive_loop_ends (suc fuel) (suc size) acc w b false o p h =
      (ok none w, ground arith, omega arith)
  receive_loop_ends (suc fuel) (suc size) acc w false true o p h = (crash, ground arith, tt)
  receive_loop_ends (suc fuel) (suc size) acc w true true o p h =
      receive_step fuel size acc w _ o p refl
        (exhaustible.receive_spends w.sock.handle (int32 (suc size)) w.net)
        λ n acc' u less.
          receive_loop_ends fuel n acc' (record w { net = u }) true true o p (omega arith)

  -- The same of TryReceiveAll.
  abbrev pub Tries : ℕ → ℕ → Outcome (World U) Trial → Type 0
  Tries size b (ok lost w) = left w.net ≤ b
  Tries size b (ok would_block w) = left w.net ≤ b
  Tries size b (ok (all_of xs) w) = size + left w.net ≤ b
  Tries size b (fail c w) = ⊥
  Tries size b crash = Unit
  Tries size b stuck = ⊥

  Tries-trial :
      (n m b c : ℕ) (o : Outcome (World U) (Option (List ℕ))) (w : World U)
      → b ≤ c
      → m + b ≤ n + c
      → Receives n b o
      → Tries m c (◌>>=◌ (λ _. o) (λ whole. pure (trial whole)) w)
  Tries-trial n m b c (ok none w') w l k h = omega arith
  Tries-trial n m b c (ok (some xs) w') w l k h = omega arith
  Tries-trial n m b c (fail e w') w l k h = h
  Tries-trial n m b c crash w l k h = h
  Tries-trial n m b c stuck w l k h = h

  abbrev pub Trying : ℕ → World U → Type 0
  Trying size w =
      (o : Outcome (World U) Trial) × (try_receive_all env size w ≡ o) × Tries size (left w.net) o

  try_step :
      (size : ℕ) (w : World U) (r : Received × U)
      → w.sock.is_open ≡ true
      → w.sock.is_connected ≡ true
      → env.udt.recv w.sock.handle (int32 size) w.net ≡ r
      → ReceiveSpends left w.net r
      → left w.net < env.fuel
      → Trying size w
  unfolding try_receive_all
  try_step size w (received [], u) o c e l h =
      (ok lost (record w { net = u }), ground arith, omega arith)
  try_step size w (received (y ∷ ys), u) o c e l h =
      let w' = record w { net = u } in
      let (a, run, s) =
        receive_loop_ends env.fuel (size - length (y ∷ ys)) (y ∷ ys) w' true true o c
          (omega arith) in
      (
        ◌>>=◌ (λ _. a) (λ whole. pure (trial whole)) w',
        ground arith,
        Tries-trial (size - length (y ∷ ys)) size (left u) (left w.net) a w' (omega arith)
            (omega arith) s,
      )
  try_step size w (recv_again, u) o c e l h =
      (ok would_block (record w { net = u }), ground arith, omega arith)
  try_step size w (recv_error, u) o c e l h = (
    ok lost (close env (disconnect env (record w { net = u }))),
    ground arith,
    broken-left env exhaustible w u l,
  )

  pub try_receive_all_ends :
      (size : ℕ) (w : World U) (b c : Bool)
      → w.sock.is_open ≡ b
      → w.sock.is_connected ≡ c
      → left w.net < env.fuel
      → Trying size w
  unfolding try_receive_all
  try_receive_all_ends size w b false o p h = (ok lost w, ground arith, omega arith)
  try_receive_all_ends size w false true o p h = (crash, ground arith, tt)
  try_receive_all_ends size w true true o p h =
      try_step size w _ o p refl (exhaustible.receive_spends w.sock.handle (int32 size) w.net) h
