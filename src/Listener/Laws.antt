-- ===== src/Listener/Laws.antt =====
-- What UFTListener's methods of UFT/UFTListener.hpp leave behind.
use uft.Prelude.{
  not, ◌||◌, ℕ, ◌+◌, ◌<◌, ◌^◌, ◌≡◌, arith, Bool, true, false, ok, Outcome, Program, subst, sym, ◌⊎◌,
  fail, crash, stuck, ◌>>=◌, ◌∙◌, pure, refl, inl, inr,
}
use uft.World.{World, Env, Context, SockOpt, udt_sndsyn, udt_rcvsyn}
use uft.Socket.{accept, set_blocking, with_socket, bool_word, close}
use uft.Socket.Lifecycle.{IsSound, count, accept_connects, accept_refuses}
use uft.Session.Packet.{disconnect}
use uft.Listener.{start_listening, accept_session, drop_session}

module _ {U : Type 0} (env : Env U) where
  -- The library lets both options of SetBlocking be set on a socket, one after the other.
  abbrev pub BothSet : Bool → Context → U → Type 0
  BothSet set c v =
      (u₀ u₁ : U) × (env.udt.setsockopt c.handle udt_sndsyn (bool_word set) u₀ ≡ (true, u₁))
      × (env.udt.setsockopt c.handle udt_rcvsyn (bool_word set) u₁ ≡ (true, v))

  -- The library refuses one of them.
  abbrev pub Refused : Bool → Context → U → Type 0
  Refused set c v =
      (option : SockOpt) × (u : U) × (env.udt.setsockopt c.handle option (bool_word set) u
        ≡ (false, v))

  -- What an Accept leaves of the session's socket, by its answer: it is connected in the mode
  -- asked for, which the library took, or it is not connected, or the library refused the mode.
  abbrev pub Answered : Bool → Bool → Context → U → Type 0
  Answered true set c v =
      (c.is_open ≡ true) × (c.is_connected ≡ true) × (c.is_blocking ≡ set) × BothSet set c v
  Answered false set c v = (c.is_connected ≡ false) ⊎ Refused set c v

  -- UFTListener::Listen on a sound socket, `others` being less than 2 ^ 64 - 1, where it returns:
  -- the socket is sound, and it is open and listens exactly if the answer is true.
  pub start_listening-IsSound :
      (others host port backlog : ℕ) (b : Bool) (w w' : World U)
      → others + 1 < 2 ^ 64
      → IsSound others w
      → start_listening env host port backlog w ≡ ok b w'
      → IsSound others w' × (w'.sock.is_listening ≡ b) × (w'.sock.is_open ≡ b)
  unfolding start_listening
  start_listening-IsSound others host port backlog b w w' h s e = ground arith

  then-ok :
      {A B : Type 0} (o : Outcome (World U) A) (f : A → Program (World U) B) (b : B)
      (w w' : World U)
      → ◌>>=◌ {W = World U} (λ _. o) f w ≡ ok b w'
      → (a : A) × (v : World U) × (o ≡ ok a v) × (f a v ≡ ok b w')
  then-ok (ok a v) f b w w' e = (a, v, refl, e)
  then-ok (fail c v) f b w w' e = ground arith
  then-ok crash f b w w' e = ground arith
  then-ok stuck f b w w' e = ground arith

  abbrev set_mode : Bool → Context → World U → Outcome (World U) (Bool × Context)
  set_mode set c w = with_socket env c (set_blocking env set) w

  -- The rest of Accept, once the socket is connected.
  abbrev Meets : Bool → Context → World U → Outcome (World U) (Bool × Context) → Type 0
  Meets set c w (ok (b, c') w') =
      Answered b set c' w'.net × (w'.sock ≡ w.sock) × (w'.refs ≡ w.refs) × (c'.is_open ≡ c.is_open)
  Meets set c w (fail code w') = ⊥
  Meets set c w crash = ⊥
  Meets set c w stuck = ⊥

  set_mode-sets :
      (set : Bool) (c : Context) (w : World U) (u₁ u₂ : U)
      → c.is_open ≡ true
      → env.udt.setsockopt c.handle udt_sndsyn (bool_word set) w.net ≡ (true, u₁)
      → env.udt.setsockopt c.handle udt_rcvsyn (bool_word set) u₁ ≡ (true, u₂)
      → set_mode set c w ≡ ok (true, record c { is_blocking = set }) (record w { net = u₂ })
  unfolding set_blocking
  set_mode-sets set c w u₁ u₂ o e₁ e₂ = ground arith

  set_mode-fails :
      (set : Bool) (c : Context) (w : World U) (u₁ : U)
      → c.is_open ≡ true
      → env.udt.setsockopt c.handle udt_sndsyn (bool_word set) w.net ≡ (false, u₁)
      → set_mode set c w ≡ ok (false, c) (record w { net = u₁ })
  unfolding set_blocking
  set_mode-fails set c w u₁ o e₁ = ground arith

  set_mode-fails_late :
      (set : Bool) (c : Context) (w : World U) (u₁ u₂ : U)
      → c.is_open ≡ true
      → env.udt.setsockopt c.handle udt_sndsyn (bool_word set) w.net ≡ (true, u₁)
      → env.udt.setsockopt c.handle udt_rcvsyn (bool_word set) u₁ ≡ (false, u₂)
      → set_mode set c w ≡ ok (false, c) (record w { net = u₂ })
  unfolding set_blocking
  set_mode-fails_late set c w u₁ u₂ o e₁ e₂ = ground arith

  set_mode-Meets :
      (set a₁ a₂ : Bool) (c : Context) (w : World U) (u₁ u₂ : U)
      → c.is_open ≡ true
      → c.is_connected ≡ true
      → env.udt.setsockopt c.handle udt_sndsyn (bool_word set) w.net ≡ (a₁, u₁)
      → env.udt.setsockopt c.handle udt_rcvsyn (bool_word set) u₁ ≡ (a₂, u₂)
      → Meets set c w (set_mode set c w)
  set_mode-Meets set true true c w u₁ u₂ o n e₁ e₂ =
      subst (Meets set c w) (sym (set_mode-sets set c w u₁ u₂ o e₁ e₂))
        ((o, n, refl, (w.net, u₁, e₁, e₂)), refl, refl, refl)
  set_mode-Meets set true false c w u₁ u₂ o n e₁ e₂ =
      subst (Meets set c w) (sym (set_mode-fails_late set c w u₁ u₂ o e₁ e₂))
        (inr (udt_rcvsyn, u₁, e₂), refl, refl, refl)
  set_mode-Meets set false a₂ c w u₁ u₂ o n e₁ e₂ =
      subst (Meets set c w) (sym (set_mode-fails set c w u₁ o e₁))
        (inr (udt_sndsyn, w.net, e₁), refl, refl, refl)

  connected-Meets :
      (set : Bool) (c : Context) (w : World U)
      → c.is_open ≡ true
      → c.is_connected ≡ true
      → Meets set c w (set_mode set c w)
  connected-Meets set c w o n =
      let (a₁, u₁) = env.udt.setsockopt c.handle udt_sndsyn (bool_word set) w.net in
      let (a₂, u₂) = env.udt.setsockopt c.handle udt_rcvsyn (bool_word set) u₁ in
      set_mode-Meets set a₁ a₂ c w u₁ u₂ o n refl refl

  drop_session_lem :
      (others : ℕ) (c c₀ : Context) (w w₀ : World U)
      → others + 2 < 2 ^ 64
      → w.refs ≡ others + count w.sock.is_open + count c.is_open
      → (not c.is_connected || c.is_open) ≡ true
      → drop_session env c w ≡ ok c₀ w₀
      → (w₀.sock ≡ w.sock)
        × (w₀.refs ≡ others + count w₀.sock.is_open + count c₀.is_open)
        × (c₀.is_connected ≡ false)
  unfolding disconnect close
  drop_session_lem others c c₀ w w₀ h r o e = ground arith

  -- What follows the socket's Accept, and what follows Disconnect.
  abbrev with_answer : Bool → Bool → Context → Program (World U) (Bool × Context)
  with_answer set accepted c = elim accepted [
    | false ↦ pure (false, c)
    | true ↦ with_socket env c (set_blocking env set)
  ]

  abbrev dropped : Bool → Context → Program (World U) (Bool × Context)
  dropped set c₁ = do (accepted, c₂) ← accept env c₁; with_answer set accepted c₂

  accept_session-steps :
      (b : Bool) (c c' : Context) (w w' : World U)
      → accept_session env c w ≡ ok (b, c') w'
      → (w.sock.is_listening ≡ true)
        × (◌>>=◌ {W = World U} (drop_session env c) (dropped w.sock.is_blocking) w ≡ ok (b, c') w')
  unfolding accept_session
  accept_session-steps b c c' w w' e = (ground arith, ground arith)

  with_answer_lem :
      (others : ℕ) (a b set : Bool) (c₀ c c' : Context) (w₀ w w' : World U)
      → others + 2 < 2 ^ 64
      → w₀.refs ≡ others + count w₀.sock.is_open + count c₀.is_open
      → c₀.is_connected ≡ false
      → accept env c₀ w₀ ≡ ok (a, c) w
      → with_answer set a c w ≡ ok (b, c') w'
      → (w'.sock ≡ w₀.sock)
        × (w'.refs ≡ others + count w'.sock.is_open + count c'.is_open)
        × Answered b set c' w'.net
  with_answer_lem others true b set c₀ c c' w₀ w w' h r n e f =
      let (same, counted, o, k, _, _, _) = accept_connects env others c₀ c w₀ w h r e in
      let (answered, same', refs, open') = subst (Meets set c w) f (connected-Meets set c w o k) in
      (same' ∙ same, cc, answered)
  with_answer_lem others false true set c₀ c c' w₀ w w' h r n e f = ground arith
  with_answer_lem others false false set c₀ c c' w₀ w w' h r n e f =
      let (same, refs, same_context) = accept_refuses env c₀ c w₀ w e in
      (ground arith, ground arith, inl (ground arith))

  -- UFTListener::Accept, where it returns, whatever it answers, the counter having been exact for
  -- both sockets, a connected session's socket open, and `others` less than 2 ^ 64 - 2: the
  -- listener was listening, its Context is as it was, and the counter is exact. If the answer is
  -- true, the session's socket is open and connected, with the listener's blocking mode, and the
  -- last the library did was to take that mode for both directions. If it is false, the session is
  -- not connected, also where it was, or the last the library did was to refuse the mode.
  pub accept_session_connects :
      (others : ℕ) (b : Bool) (c c' : Context) (w w' : World U)
      → others + 2 < 2 ^ 64
      → w.refs ≡ others + count w.sock.is_open + count c.is_open
      → (not c.is_connected || c.is_open) ≡ true
      → accept_session env c w ≡ ok (b, c') w'
      → (w.sock.is_listening ≡ true)
        × (w'.sock ≡ w.sock)
        × (w'.refs ≡ others + count w'.sock.is_open + count c'.is_open)
        × Answered b w.sock.is_blocking c' w'.net
  accept_session_connects others b c c' w w' h r o e =
      let (listens, run) = accept_session-steps b c c' w w' e in
      let (c₀, w₀, d, run₁) =
        then-ok (drop_session env c w) (dropped w.sock.is_blocking) (b, c') w w' run in
      let ((a, c₁), w₁, accepted, run₂) =
        then-ok (accept env c₀ w₀) (λ (a, c₁). with_answer w.sock.is_blocking a c₁) (b, c') w₀ w'
          run₁ in
      let (same, counted, n) = drop_session_lem others c c₀ w w₀ h r o d in
      let (same', counted', answered) =
        with_answer_lem others a b w.sock.is_blocking c₀ c₁ c' w₀ w₁ w' h counted n accepted run₂ in
      (listens, same' ∙ same, counted', answered)
