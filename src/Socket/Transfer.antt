-- ===== src/Socket/Transfer.antt =====
-- UFT/UFTSocket.hpp: the loops over Send and Receive. A size is a std::uint32_t, an answer the bit
-- pattern of a std::int32_t. The fuel of the environment bounds the rounds.
use uft.Prelude.{
  ℕ, zero, suc, ◌-◌, Bool, true, false, List, [], ◌∷◌, ◌++◌, length, drop, Option, none, some,
  stuck, Program, pure, ◌>>=◌, gets,
}
use uft.World.{int32, World, Env}
use uft.Socket.{send, receive}

-- The answers of TryReceiveAll: 0, -1, or the bytes.
pub data Trial : Type 0 where
  lost : Trial
  would_block : Trial
  all_of : List ℕ → Trial

abbrev pub trial : Option (List ℕ) → Trial
trial none = lost
trial (some xs) = all_of xs

module _ {U : Type 0} (env : Env U) where
  open env use {fuel}

  -- SendAll from byte `i` on: `rest` is what is left of the buffer.
  unfoldable pub send_loop : ℕ → List ℕ → Program (World U) Bool
  unfolding send
  send_loop fuel [] = pure true
  send_loop zero (x ∷ rest) = λ _. stuck
  send_loop (suc fuel) (x ∷ rest) = do
    connected ← gets (λ w. w.sock.is_connected)
    elim connected [
      | false ↦ pure false
      | true ↦ do
        answer ← send env (x ∷ rest)
        elim answer [
          | none ↦ send_loop fuel (x ∷ rest)
          | some zero ↦ pure false
          | some (suc n) ↦ send_loop fuel (drop (suc n) (x ∷ rest))
        ]
    ]

  -- SendAll: the size as an int32, or 0 when the connection is closed. The size is also 0 where it is 0.
  unfoldable pub send_all : List ℕ → Program (World U) ℕ
  send_all xs = do
    done ← send_loop fuel xs
    elim done [ true ↦ pure (int32 (length xs)) | false ↦ pure 0 ]

  -- ReceiveAll with `size` bytes still to come and `acc` in the buffer.
  unfoldable pub receive_loop : ℕ → ℕ → List ℕ → Program (World U) (Option (List ℕ))
  unfolding receive
  receive_loop fuel zero acc = pure (some acc)
  receive_loop zero (suc size) acc = λ _. stuck
  receive_loop (suc fuel) (suc size) acc = do
    connected ← gets (λ w. w.sock.is_connected)
    elim connected [
      | false ↦ pure none
      | true ↦ do
        answer ← receive env (suc size)
        elim answer [
          | none ↦ receive_loop fuel (suc size) acc
          | some [] ↦ pure none
          | some (x ∷ xs) ↦ receive_loop fuel (suc size - length (x ∷ xs)) (acc ++ (x ∷ xs))
        ]
    ]

  -- ReceiveAll: `none` for the answer 0, which a size of 0 has too.
  unfoldable pub receive_all : ℕ → Program (World U) (Option (List ℕ))
  receive_all zero = pure none
  receive_all (suc size) = receive_loop fuel (suc size) []

  -- TryReceiveAll: one Receive, then the loop for what it left out.
  unfoldable pub try_receive_all : ℕ → Program (World U) Trial
  unfolding receive receive_loop
  try_receive_all size = do
    connected ← gets (λ w. w.sock.is_connected)
    elim connected [
      | false ↦ pure lost
      | true ↦ do
        answer ← receive env size
        elim answer [
          | none ↦ pure would_block
          | some [] ↦ pure lost
          | some (x ∷ xs) ↦ do
            whole ← receive_loop fuel (size - length (x ∷ xs)) (x ∷ xs)
            pure (trial whole)
        ]
    ]
