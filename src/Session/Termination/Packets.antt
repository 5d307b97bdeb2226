-- ===== src/Session/Termination/Packets.antt =====
-- UFT/UFTSession.hpp: SendAll, ReadNextPacket and Disconnect over a library that has only so much left
-- to give.
use uft.Prelude.{
  ltb, ℕ, zero, suc, ◌+◌, ◌%◌, ◌≤◌, ◌<◌, ◌^◌, ◌==◌, refl, sym, subst, arith, network_api_error,
  Bool, true, false, List, [], length, take, drop, Option, none, some, Outcome, ok, fail, crash,
  stuck, pure, throw, ◌>>=◌, modify, network_connection_lost, network_would_block,
}
use uft.Prelude.Keeps.{
  Leads-crash, After, Leads, Leads-then, Leads-bind, Leads-bind-test, Leads-case, Leads-pure,
  Leads-throw, Leads-test,
}
use uft.World.{int32, World, Env}
use uft.BitConverter.{load, network_to_host64}
use uft.Socket.{close, udt_cleanup, disconnect as disconnect_socket}
use uft.Socket.Transfer.{
  Trial, lost, would_block, all_of, send_loop, send_all, receive_loop, receive_all, try_receive_all,
}
use uft.Session.{op_of_byte}
use uft.Session.Packet.{
  max_size, header_size, disconnect, read_payload, read_header, read_next_packet,
}
use uft.Session.Conduct.{less_one}
use uft.Session.Termination.{Exhaustible, Sends, send_loop_ends}
use uft.Session.Termination.Receiving.{Receives, receive_loop_ends, Tries, try_receive_all_ends}

module _ {U : Type 0} (env : Env U) (exhaustible : Exhaustible env.udt) where
  open exhaustible use {left}

  -- Less than `k` is left, and the fuel is enough for it and a packet.
  pub record Below (k : ℕ) (w : World U) : Type 0 where
    pub below : left w.net < k
    pub fueled : left w.net + 2 ^ 32 ≤ env.fuel

  pub spent : (k : ℕ) (w w' : World U) → Below k w → left w'.net ≤ left w.net → Below k w'
  spent k w w' h l =
      let a = h.below in let b = h.fueled in record { below = omega arith; fueled = omega arith }

  spent_one :
      (k : ℕ) (w w' : World U) → Below k w → left w'.net < left w.net → Below (less_one k) w'
  spent_one zero w w' h l = let a = h.below in absurd (omega arith)
  spent_one (suc k) w w' h l =
      let a = h.below in let b = h.fueled in record { below = omega arith; fueled = omega arith }

  pub spent_more : (k : ℕ) (w : World U) → Below k w → Below (suc k) w
  spent_more k w h =
      let a = h.below in let b = h.fueled in record { below = omega arith; fueled = omega arith }

  grown : (k : ℕ) (w : World U) → Below (less_one k) w → Below k w
  grown zero w h = h
  grown (suc k) w h = spent_more k w h

  After-Sends :
      (k : ℕ) (w : World U) (o : Outcome (World U) Bool)
      → Below k w
      → Sends env exhaustible (left w.net) o
      → After ⊥ (Below k) (Below k) o
  After-Sends k w (ok b w') h s = spent k w w' h s
  After-Sends k w (fail c w') h s = absurd s
  After-Sends k w crash h s = tt
  After-Sends k w stuck h s = s

  send_loop-Below :
      (k : ℕ) (xs : List ℕ)
      → length xs < 2 ^ 32
      → Leads ⊥ (Below k) (Below k) (send_loop env env.fuel xs)
  send_loop-Below k xs l = record {
    at = λ w h.
        let b = h.fueled in
        let (o, run, s) =
          send_loop_ends env exhaustible env.fuel xs w w.sock.is_open w.sock.is_connected refl refl
            (omega arith) in
        rw run (After-Sends k w o h s);
  }

  pub send_all-Below :
      (k : ℕ) (xs : List ℕ) → length xs < 2 ^ 32 → Leads ⊥ (Below k) (Below k) (send_all env xs)
  unfolding send_all
  send_all-Below k xs l =
      Leads-bind-test _ _ (send_loop-Below k xs l) (Leads-pure (int32 (length xs))) (Leads-pure 0)

  After-Receives :
      (k n : ℕ) (w : World U) (o : Outcome (World U) (Option (List ℕ)))
      → Below k w
      → Receives env exhaustible n (left w.net) o
      → After ⊥ (Below k) (Below k) o
  After-Receives k n w (ok none w') h s = spent k w w' h s
  After-Receives k n w (ok (some xs) w') h s = spent k w w' h (omega arith)
  After-Receives k n w (fail c w') h s = absurd s
  After-Receives k n w crash h s = tt
  After-Receives k n w stuck h s = s

  receive_all-Below : (k n : ℕ) → Leads ⊥ (Below k) (Below k) (receive_all env n)
  unfolding receive_all
  receive_all-Below k zero = Leads-pure none
  receive_all-Below k (suc n) = record {
    at = λ w h.
        let b = h.fueled in
        let (o, run, s) =
          receive_loop_ends env exhaustible env.fuel (suc n) [] w w.sock.is_open w.sock.is_connected
            refl refl (omega arith) in
        rw run (After-Receives k (suc n) w o h s);
  }

  -- The header's bytes were left, so that less is left now.
  After-header :
      (k n : ℕ) (w : World U) (o : Outcome (World U) (Option (List ℕ)))
      → Below k w
      → Receives env exhaustible (suc n) (left w.net) o
      → After {A = List ℕ} ⊥ (Below k) (Below (less_one k)) (
          ◌>>=◌
            (λ _. o)
            (λ answer. elim answer [ none ↦ throw network_connection_lost | some xs ↦ pure xs ])
            w)
  After-header k n w (ok none w') h s = spent k w w' h s
  After-header k n w (ok (some xs) w') h s = spent_one k w w' h (omega arith)
  After-header k n w (fail c w') h s = absurd s
  After-header k n w crash h s = tt
  After-header k n w stuck h s = s

  After-trial :
      (k n : ℕ) (w : World U) (o : Outcome (World U) Trial)
      → Below k w
      → Tries env exhaustible (suc n) (left w.net) o
      → After {A = List ℕ} ⊥ (Below k) (Below (less_one k)) (
          ◌>>=◌
            (λ _. o)
            (λ answer. elim answer [
              | lost ↦ throw network_connection_lost
              | would_block ↦ throw network_would_block
              | all_of xs ↦ pure xs
            ])
            w)
  After-trial k n w (ok lost w') h s = spent k w w' h s
  After-trial k n w (ok would_block w') h s = spent k w w' h s
  After-trial k n w (ok (all_of xs) w') h s = spent_one k w w' h (omega arith)
  After-trial k n w (fail c w') h s = absurd s
  After-trial k n w crash h s = tt
  After-trial k n w stuck h s = s

  read_header-Below :
      (k : ℕ) (block : Bool) → Leads ⊥ (Below k) (Below (less_one k)) (read_header env block)
  unfolding read_header receive_all
  read_header-Below k true = record {
    at = λ w h.
        let b = h.fueled in
        let (o, run, s) =
          receive_loop_ends env exhaustible env.fuel header_size [] w w.sock.is_open
            w.sock.is_connected refl refl (omega arith) in
        After-header k 8 w (receive_loop env env.fuel header_size [] w) h
          (subst (Receives env exhaustible header_size (left w.net)) (sym run) s);
  }
  read_header-Below k false = record {
    at = λ w h.
        let b = h.fueled in
        let (o, run, s) =
          try_receive_all_ends env exhaustible header_size w w.sock.is_open w.sock.is_connected refl
            refl (omega arith) in
        After-trial k 8 w (try_receive_all env header_size w) h
          (subst (Tries env exhaustible header_size (left w.net)) (sym run) s);
  }

  read_payload-Below : (k n : ℕ) → Leads ⊥ (Below k) (Below k) (read_payload env n)
  unfolding read_payload
  read_payload-Below k n =
      Leads-test (ltb n max_size) _ _
        (Leads-test (n == 0) _ _ (Leads-pure _) (
          Leads-bind _ _ (receive_all-Below k (n % 2 ^ 32))
            λ a. Leads-case a _ _ (Leads-throw network_connection_lost) λ xs. Leads-pure _))
        Leads-crash

  disconnect-left : (w : World U) → left (disconnect env w).net ≤ left w.net
  unfolding disconnect close disconnect_socket udt_cleanup
  disconnect-left w =
      let c = exhaustible.close_spends w.sock.handle w.net in
      let d = exhaustible.cleanup_spends w.net in
      let e = exhaustible.cleanup_spends (env.udt.close w.sock.handle w.net) in ground arith

  pub disconnect-Below : (k : ℕ) → Leads ⊥ (Below k) (Below k) (modify (disconnect env))
  disconnect-Below k = record { at = λ w h. spent k w (disconnect env w) h (disconnect-left w) }

  pub read_next_packet-Below :
      (k : ℕ) (block : Bool) → Leads ⊥ (Below k) (Below (less_one k)) (read_next_packet env block)
  unfolding read_next_packet
  read_next_packet-Below k block = Leads-then _ _ (grown k) (read_header-Below k block) λ header.
      Leads-case (op_of_byte (load (take 1 header))) _ _
        (Leads-bind (modify (disconnect env)) _ (disconnect-Below (less_one k))
          λ u. Leads-throw network_api_error)
        λ op.
          Leads-bind _ _
            (read_payload-Below (less_one k) (network_to_host64 (load (drop 1 header))))
            λ buffer. Leads-pure _
