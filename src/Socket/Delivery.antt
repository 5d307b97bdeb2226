-- ===== src/Socket/Delivery.antt =====
-- The transfer loops of UFT/UFTSocket.hpp over a connection that stays up: what UDT documents of
-- a reliable byte stream, and that the loops then move every byte.
use uft.Prelude.{
  subst, ◌^◌, ℕ, zero, suc, ◌+◌, ◌-◌, ◌≤◌, ◌<◌, ◌≡◌, ◌≢◌, refl, sym, ap, ◌∙◌, arith, true, List, [],
  ◌∷◌, ◌++◌, append_assoc, append-nil, length, take, drop, take-append-drop, length-drop,
  length-append, append-eq-append, some, ok,
}
use uft.World.{
  int32, World, Context, Env, Udt, Sent, sent, send_again, send_error, Received, received,
  recv_again, recv_error,
}
use uft.Socket.Transfer.{send_loop, send_all, receive_loop, receive_all}

-- The bytes that have come and gone, and how many calls will still find the connection not ready.
pub record Queues (U : Type 0) : Type 0 where
  pub incoming : U → List ℕ
  pub outgoing : U → List ℕ
  pub waits : U → ℕ

-- A send takes a first part of its bytes, or is told to wait.
abbrev pub Takes : {U : Type 0} → Queues U → List ℕ → U → Sent × U → Type 0
Takes q xs u (sent n, v) =
    (0 < n)
    × (n ≤ length xs)
    × (q.outgoing v ≡ q.outgoing u ++ take n xs)
    × (q.incoming v ≡ q.incoming u)
    × (q.waits v ≤ q.waits u)
Takes q xs u (send_again, v) =
    (q.outgoing v ≡ q.outgoing u) × (q.incoming v ≡ q.incoming u) × (q.waits v < q.waits u)
Takes q xs u (send_error, v) = ⊥

-- A receive gives a first part of what has come, or is told to wait.
abbrev pub Gives : {U : Type 0} → Queues U → ℕ → U → Received × U → Type 0
Gives q n u (received xs, v) =
    (0 < length xs)
    × (length xs ≤ n)
    × (q.incoming u ≡ xs ++ q.incoming v)
    × (q.outgoing v ≡ q.outgoing u)
    × (q.waits v ≤ q.waits u)
Gives q n u (recv_again, v) =
    (q.outgoing v ≡ q.outgoing u) × (q.incoming v ≡ q.incoming u) × (q.waits v < q.waits u)
Gives q n u (recv_error, v) = ⊥

-- A connected UDT socket that nobody breaks.
pub record Link {U : Type 0} (udt : Udt U) : Type 0 where
  pub queues : Queues U
  pub handle : ℕ
  pub takes :
      (xs : List ℕ) (u : U)
      → xs ≢ []
      → length xs < 2 ^ 31
      → Takes queues xs u (udt.send handle xs (length xs) u)
  pub gives :
      (n : ℕ) (u : U)
      → 0 < n
      → n < 2 ^ 31
      → queues.incoming u ≢ []
      → Gives queues n u (udt.recv handle n u)

int32-below : (n : ℕ) → n < 2 ^ 31 → int32 n ≡ n
int32-below n s = omega arith

module _ {U : Type 0} (env : Env U) (link : Link env.udt) where
  open link use {queues.{incoming, outgoing, waits}}

  Takes-int32 :
      (xs : List ℕ) (u : U)
      → xs ≢ []
      → length xs < 2 ^ 31
      → Takes link.queues xs u (env.udt.send link.handle xs (int32 (length xs)) u)
  Takes-int32 xs u ne s =
      subst (λ (n : ℕ). Takes link.queues xs u (env.udt.send link.handle xs n u))
        (sym (int32-below (length xs) s)) (link.takes xs u ne s)

  pub Gives-int32 :
      (n : ℕ) (u : U)
      → 0 < n
      → n < 2 ^ 31
      → incoming u ≢ []
      → Gives link.queues n u (env.udt.recv link.handle (int32 n) u)
  Gives-int32 n u p s ne =
      subst (λ (m : ℕ). Gives link.queues n u (env.udt.recv link.handle m u))
        (sym (int32-below n s)) (link.gives n u p s ne)

  pub record IsUp (c : Context) : Type 0 where
    pub is_open : c.is_open ≡ true
    pub is_connected : c.is_connected ≡ true
    pub handle_eq : c.handle ≡ link.handle

  abbrev pub at : World U → U → World U
  at w u = record w { net = u }

  -- From `w` to `at w v` the bytes `xs` have gone out, and nothing has come in.
  abbrev pub SentAll : List ℕ → U → U → Type 0
  SentAll xs u v = (outgoing v ≡ outgoing u ++ xs) × (incoming v ≡ incoming u) × (waits v ≤ waits u)

  -- The bytes `xs` have come in, and nothing has gone out.
  abbrev pub GotAll : List ℕ → U → U → Type 0
  GotAll xs u v = (outgoing v ≡ outgoing u) × (incoming u ≡ xs ++ incoming v) × (waits v ≤ waits u)

  abbrev Sending : ℕ → List ℕ → World U → Type 0
  Sending fuel xs w = (v : U) × (send_loop env fuel xs w ≡ ok true (at w v)) × SentAll xs w.net v

  send_step :
      (fuel : ℕ) (x : ℕ) (rest : List ℕ) (w : World U) (r : Sent × U)
      → IsUp w.sock
      → env.udt.send link.handle (x ∷ rest) (int32 (length (x ∷ rest))) w.net ≡ r
      → Takes link.queues (x ∷ rest) w.net r
      → ((ys : List ℕ) (u : U)
          → length ys ≤ length (x ∷ rest)
          → length ys + waits u < length (x ∷ rest) + waits w.net
          → Sending fuel ys (at w u))
      → Sending (suc fuel) (x ∷ rest) w
  unfolding send_loop
  send_step fuel x rest w (sent zero, u) up e t next = absurd (omega arith)
  send_step fuel x rest w (sent (suc n), u) up e (a, b, c, d, f) next =
      let (v, run, (out, inc, wait)) =
        next (drop (suc n) (x ∷ rest)) u (omega (arith, length-drop (suc n) (x ∷ rest)))
          (omega (arith, length-drop (suc n) (x ∷ rest))) in
      (
        v,
        ground arith,
        (
          cc (
            append_assoc (outgoing w.net) (take (suc n) (x ∷ rest)) (drop (suc n) (x ∷ rest)),
            take-append-drop (suc n) (x ∷ rest),
          ),
          inc ∙ d,
          omega arith,
        ),
      )
  send_step fuel x rest w (send_again, u) up e (c, d, f) next =
      let (v, run, (out, inc, wait)) = next (x ∷ rest) u (omega arith) (omega arith) in
      (v, ground arith, (cc, inc ∙ d, omega arith))
  send_step fuel x rest w (send_error, u) up e t next = absurd t

  -- SendAll's loop ends within the fuel, and every byte has gone out.
  send_loop_lem :
      (fuel : ℕ) (xs : List ℕ) (w : World U)
      → IsUp w.sock
      → length xs < 2 ^ 31
      → length xs + waits w.net < fuel
      → Sending fuel xs w
  unfolding send_loop
  send_loop_lem zero xs w up s h = absurd (omega arith)
  send_loop_lem (suc fuel) [] w up s h =
      (w.net, refl, (sym (append-nil (outgoing w.net)), refl, omega arith))
  send_loop_lem (suc fuel) (x ∷ rest) w up s h =
      send_step fuel x rest w _ up refl (Takes-int32 (x ∷ rest) w.net (λ e. cc) s)
        λ ys u l less. send_loop_lem fuel ys (at w u) up (omega arith) (omega arith)

  -- SendAll of less than 2 ^ 31 bytes over a link that stays up, with fuel for its bytes and the
  -- waits, ends and answers with the number of bytes, having sent all of them once and in order
  -- and taken nothing.
  pub send_all_lem :
      (xs : List ℕ) (w : World U)
      → IsUp w.sock
      → length xs < 2 ^ 31
      → length xs + waits w.net < env.fuel
      → (v : U) × (send_all env xs w ≡ ok (length xs) (at w v)) × SentAll xs w.net v
  unfolding send_all
  send_all_lem xs w up s h =
      let answer = int32-below (length xs) s in
      let (v, run, moved) = send_loop_lem env.fuel xs w up s h in (v, ground arith, moved)

  abbrev Receiving : ℕ → ℕ → List ℕ → List ℕ → World U → Type 0
  Receiving fuel size acc xs w =
      (v : U) × (receive_loop env fuel size acc w ≡ ok (some (acc ++ xs)) (at w v))
      × GotAll xs w.net v

  receive_step :
      (fuel size : ℕ) (acc xs more : List ℕ) (w : World U) (r : Received × U)
      → IsUp w.sock
      → suc size ≡ length xs
      → incoming w.net ≡ xs ++ more
      → env.udt.recv link.handle (int32 (suc size)) w.net ≡ r
      → Gives link.queues (suc size) w.net r
      → ((acc ys : List ℕ) (u : U)
          → length ys ≤ length xs
          → length ys + waits u < length xs + waits w.net
          → incoming u ≡ ys ++ more
          → Receiving fuel (length ys) acc ys (at w u))
      → Receiving (suc fuel) (suc size) acc xs w
  unfolding receive_loop
  receive_step fuel size acc xs more w (received [], u) up e i f t next = absurd (omega arith)
  receive_step fuel size acc xs more w (received (y ∷ ys), u) up e i f (a, b, c, d, g) next =
      let (ts, split, left) =
        append-eq-append (y ∷ ys) (incoming u) xs more (sym c ∙ i) (omega arith) in
      let count = length-append (y ∷ ys) ts in
      let total = ap length split in
      let (v, run, (out, inc, wait)) =
        next (acc ++ (y ∷ ys)) ts u (omega arith) (omega arith) left in
      let size_eq : suc size - length (y ∷ ys) ≡ length ts = omega arith in
      (
        v,
        ground (arith, append_assoc acc (y ∷ ys) ts),
        (cc, cc (append_assoc (y ∷ ys) ts (incoming v)), omega arith),
      )
  receive_step fuel size acc xs more w (recv_again, u) up e i f (c, d, g) next =
      let (v, run, (out, inc, wait)) = next acc xs u (omega arith) (omega arith) (d ∙ i) in
      (v, ground arith, (cc, cc, omega arith))
  receive_step fuel size acc xs more w (recv_error, u) up e i f t next = absurd t

  pub receive_loop_lem :
      (fuel : ℕ) (acc xs more : List ℕ) (w : World U)
      → IsUp w.sock
      → incoming w.net ≡ xs ++ more
      → length xs < 2 ^ 31
      → length xs + waits w.net < fuel
      → Receiving fuel (length xs) acc xs w
  unfolding receive_loop
  receive_loop_lem zero acc xs more w up i s h = absurd (omega arith)
  receive_loop_lem (suc fuel) acc [] more w up i s h =
      (w.net, ap (λ (l : List ℕ). ok (some l) w) (sym (append-nil acc)), (refl, refl, omega arith))
  receive_loop_lem (suc fuel) acc (x ∷ rest) more w up i s h =
      receive_step fuel (length rest) acc (x ∷ rest) more w _ up refl i refl
        (Gives-int32 (suc (length rest)) w.net (omega arith) s (λ e. cc))
        λ acc' ys u l less j.
          receive_loop_lem fuel acc' ys more (at w u) up j (omega arith) (omega arith)

  -- ReceiveAll of the length of `xs`, not empty and of less than 2 ^ 31 bytes, over a link that
  -- stays up, where `xs` is what comes next and the fuel is enough for its bytes and the waits,
  -- ends and answers with `xs`, having taken exactly these bytes and sent nothing.
  pub receive_all_lem :
      (xs more : List ℕ) (w : World U)
      → IsUp w.sock
      → xs ≢ []
      → incoming w.net ≡ xs ++ more
      → length xs < 2 ^ 31
      → length xs + waits w.net < env.fuel
      → (v : U) × (receive_all env (length xs) w ≡ ok (some xs) (at w v)) × GotAll xs w.net v
  unfolding receive_all
  receive_all_lem [] more w up ne i s h = absurd (ne refl)
  receive_all_lem (x ∷ rest) more w up ne i s h =
      receive_loop_lem env.fuel [] (x ∷ rest) more w up i s h
