-- ===== src/Socket/Polling.antt =====
-- TryReceiveAll of UFT/UFTSocket.hpp over a connection that stays up: it takes all of its bytes
-- where some have come, and says that it would wait where none have.
use uft.Prelude.{
  ◌^◌, ℕ, suc, ◌-◌, ◌<◌, ◌≡◌, ◌≢◌, refl, sym, ap, ◌∙◌, arith, List, [], ◌∷◌, ◌++◌, append_assoc,
  length, length-append, append-eq-append, ok,
}
use uft.World.{int32, World, Env, Received, received, recv_again, recv_error}
use uft.Socket.{receive}
use uft.Socket.Transfer.{all_of, would_block, try_receive_all}
use uft.Socket.Delivery.{Link, IsUp, at, GotAll, Gives, receive_loop_lem, Gives-int32}

-- On a connection with nothing to give, a receive that does not block answers that it would wait,
-- and changes nothing.
pub record Idles {U : Type 0} (env : Env U) (link : Link env.udt) : Type 0 where
  pub asks_again :
      (n : ℕ) (u : U) → link.queues.incoming u ≡ [] → env.udt.recv link.handle n u ≡ (recv_again, u)

module _ {U : Type 0} (env : Env U) (link : Link env.udt) where
  open link use {queues.{incoming, outgoing, waits}}

  try_step :
      (size : ℕ) (xs more : List ℕ) (w : World U) (r : Received × U)
      → IsUp env link w.sock
      → suc size ≡ length xs
      → waits w.net ≡ 0
      → incoming w.net ≡ xs ++ more
      → length xs < 2 ^ 31
      → length xs < env.fuel
      → env.udt.recv link.handle (int32 (suc size)) w.net ≡ r
      → Gives link.queues (suc size) w.net r
      → (v : U) × (try_receive_all env (suc size) w ≡ ok (all_of xs) (at env link w v))
        × GotAll env link xs w.net v
  unfolding try_receive_all
  try_step size xs more w (received [], u) up e z i s k f t = absurd (omega arith)
  try_step size xs more w (received (y ∷ ys), u) up e z i s k f (a, b, c, d, g) =
      let (ts, split, left) =
        append-eq-append (y ∷ ys) (incoming u) xs more (sym c ∙ i) (omega arith) in
      let count = length-append (y ∷ ys) ts in
      let total = ap length split in
      let (v, run, (out, inc, wait)) =
        receive_loop_lem env link env.fuel (y ∷ ys) ts more (at env link w u) up left (omega arith)
          (omega arith) in
      let size_eq : suc size - length (y ∷ ys) ≡ length ts = omega arith in
      (v, ground arith, (cc, cc (append_assoc (y ∷ ys) ts (incoming v)), omega arith))
  try_step size xs more w (recv_again, u) up e z i s k f (c, d, g) = absurd (omega arith)
  try_step size xs more w (recv_error, u) up e z i s k f t = absurd t

  pub try_receive_all_lem :
      (xs more : List ℕ) (w : World U)
      → IsUp env link w.sock
      → xs ≢ []
      → waits w.net ≡ 0
      → incoming w.net ≡ xs ++ more
      → length xs < 2 ^ 31
      → length xs < env.fuel
      → (v : U) × (try_receive_all env (length xs) w ≡ ok (all_of xs) (at env link w v))
        × GotAll env link xs w.net v
  try_receive_all_lem [] more w up ne z i s k = absurd (ne refl)
  try_receive_all_lem (x ∷ rest) more w up ne z i s k =
      try_step (length rest) (x ∷ rest) more w _ up refl z i s k refl
        (Gives-int32 env link (suc (length rest)) w.net (omega arith) s (λ e. cc))

  pub try_receive_all-idle :
      (n : ℕ) (w : World U)
      → IsUp env link w.sock
      → Idles env link
      → incoming w.net ≡ []
      → try_receive_all env n w ≡ ok would_block w
  unfolding try_receive_all receive
  try_receive_all-idle n w up idle i = let again = idle.asks_again (int32 n) w.net i in ground arith
