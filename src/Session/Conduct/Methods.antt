-- ===== src/Session/Conduct/Methods.antt =====
-- UFT/UFTSession.hpp: the public methods, and any sequence of their calls, under a Conduct.
use uft.Prelude.{
  ℕ, ◌≤◌, ◌≡◌, refl, Bool, true, false, List, [], ◌∷◌, ok, fail, crash, stuck, Outcome, Program,
  pure, ◌>>◌, map, finally, network_not_connected, if◌then◌else◌,
}
use uft.Prelude.Keeps.{After, Leads, Leads-bind, Leads-pure}
use uft.World.{World, Env}
use uft.Files.{FilePath}
use uft.Programs.{settle}
use uft.Session.{up, down}
use uft.Session.Transmit.{
  start_transfer, guarded, when_connected, update, send_file, receive_file, get_files, list_entry,
}
use uft.Socket.{unlock_io}
use uft.Session.Conduct.{Conduct}
use uft.Session.Conduct.Calls.{update_loop-Goes, start_transfer-Goes, receive_file_list-Goes}

-- Between two calls: `P` holds, and nobody has the session's lock.
pub record Idle {U : Type 0} (P : World U → Type 0) (w : World U) : Type 0 where
  pub holds : P w
  pub unlocked : w.sock.io_locked ≡ false

-- The public methods that talk to the peer.
pub data Call : Type 0 where
  update_call : Call
  send_file_call receive_file_call : FilePath → FilePath → Bool → Call
  get_files_call : FilePath → Call

unfoldable pub run_call : {U : Type 0} → Env U → Call → Program (World U) (Unit {0})
run_call env update_call = update env
run_call env (send_file_call source destination reporting) =
    send_file env source destination reporting
run_call env (receive_file_call source destination reporting) =
    receive_file env source destination reporting
run_call env (get_files_call path) = get_files env path >> pure tt

-- The caller goes on whatever a call answers.
unfoldable pub run_calls : {U : Type 0} → Env U → List Call → Program (World U) (Unit {0})
run_calls env [] = pure tt
run_calls env (call ∷ calls) = settle (run_call env call) >> run_calls env calls

module _ {U : Type 0} {env : Env U} (conduct : Conduct env) where
  open conduct use {Holds, Stuck}

  abbrev pub Rests : {A : Type 0} → ℕ → Program (World U) A → Type 0
  Rests k m = Leads Stuck (Idle (Holds k)) (Idle (Holds k)) m

  released :
      {A : Type 0} (k : ℕ) (o : Outcome (World U) A) (w : World U)
      → After Stuck (Holds k) (Holds k) o
      → After Stuck (Idle (Holds k)) (Idle (Holds k)) (finally (λ _. o) (unlock_io env) w)
  released k (ok a w') w h = record { holds = conduct.with_lock k w' false h; unlocked = refl }
  released k (fail c w') w h = record { holds = conduct.with_lock k w' false h; unlocked = refl }
  released k crash w h = tt
  released k stuck w h = h

  guarded-Rests :
      {A : Type 0} (k : ℕ) (m : Program (World U) A)
      → Leads Stuck (Holds k) (Holds k) m
      → Rests k (guarded env m)
  guarded-Rests k m g = record {
    at = λ w h. rw h.unlocked (
        released k (m (record w { sock = record (w.sock) { io_locked = true } })) w
          (g.at _ (conduct.with_lock k w true h.holds)));
  }

  when_connected-Rests :
      {A : Type 0} (k : ℕ) (m : Program (World U) A) → Rests k m → Rests k (when_connected env m)
  when_connected-Rests k m r = record {
    at = λ w h.
        elim w.sock.is_connected
          as (λ b.
            After Stuck (Idle (Holds k)) (Idle (Holds k))
              (if b then m w else fail network_not_connected w)) [ true ↦ r.at w h | false ↦ h ];
  }

  settled :
      {A : Type 0} (k : ℕ) (o : Outcome (World U) A) (w : World U)
      → After Stuck (Idle (Holds k)) (Idle (Holds k)) o
      → After Stuck (Idle (Holds k)) (Idle (Holds k)) (settle (λ _. o) w)
  settled k (ok a w') w h = h
  settled k (fail c w') w h = h
  settled k crash w h = tt
  settled k stuck w h = h

  pub settle-Rests : {A : Type 0} (k : ℕ) (m : Program (World U) A) → Rests k m → Rests k (settle m)
  settle-Rests k m r = record { at = λ w h. settled k (m w) w (r.at w h) }

  transfer-Rests :
      (k : ℕ)
      → k ≤ env.fuel
      → (source destination : FilePath) (direction : ℕ) (reporting : Bool)
      → Rests k (
          when_connected env
            (guarded env (start_transfer env source destination direction reporting)))
  transfer-Rests k l source destination direction reporting =
      when_connected-Rests k _
        (guarded-Rests k _ (start_transfer-Goes conduct k l source destination direction reporting))

  pub send_file-Rests :
      (k : ℕ)
      → k ≤ env.fuel
      → (source destination : FilePath) (reporting : Bool)
      → Rests k (send_file env source destination reporting)
  unfolding send_file
  send_file-Rests k l source destination reporting =
      transfer-Rests k l source destination up reporting

  pub receive_file-Rests :
      (k : ℕ)
      → k ≤ env.fuel
      → (source destination : FilePath) (reporting : Bool)
      → Rests k (receive_file env source destination reporting)
  unfolding receive_file
  receive_file-Rests k l source destination reporting =
      transfer-Rests k l source destination down reporting

  pub get_files-Rests : (k : ℕ) (path : FilePath) → Rests k (get_files env path)
  unfolding get_files
  get_files-Rests k path = when_connected-Rests k _ (
      Leads-bind _ _ (guarded-Rests k _ (receive_file_list-Goes conduct k path))
        λ infos. Leads-pure (map (list_entry env) infos))

  pub update-Rests : (k : ℕ) → k ≤ env.fuel → Rests k (update env)
  unfolding update
  update-Rests k l =
      when_connected-Rests k _ (guarded-Rests k _ (update_loop-Goes conduct env.fuel k l l))

  run_call-Rests : (k : ℕ) → k ≤ env.fuel → (call : Call) → Rests k (run_call env call)
  unfolding run_call
  run_call-Rests k l update_call = update-Rests k l
  run_call-Rests k l (send_file_call source destination reporting) =
      send_file-Rests k l source destination reporting
  run_call-Rests k l (receive_file_call source destination reporting) =
      receive_file-Rests k l source destination reporting
  run_call-Rests k l (get_files_call path) =
      Leads-bind _ _ (get_files-Rests k path) λ entries. Leads-pure tt

  pub run_calls-Rests : (k : ℕ) → k ≤ env.fuel → (calls : List Call) → Rests k (run_calls env calls)
  unfolding run_calls
  run_calls-Rests k l [] = Leads-pure tt
  run_calls-Rests k l (call ∷ calls) =
      Leads-bind _ _ (settle-Rests k _ (run_call-Rests k l call)) λ u. run_calls-Rests k l calls
