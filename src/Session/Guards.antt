-- ===== src/Session/Guards.antt =====
-- The public methods of UFTSession in UFT/UFTSession.hpp: the lock and the connection that they ask for.
use uft.Prelude.{
  ◌≡◌, refl, map, pure, finally, ◌>>=◌, if◌then◌else◌, Bool, true, false, Outcome, ok, fail, crash,
  stuck, Program, network_not_connected,
}
use uft.World.{World, Env}
use uft.Files.{FilePath}
use uft.Session.Transmit.{
  when_connected, guarded, start_transfer, update_loop, update, send_file, receive_file, get_files,
  list_entry,
}
use uft.Socket.{unlock_io}
use uft.Session.{up, down}
use uft.Session.Listing.{receive_file_list}

-- Where a call returns or fails, nobody holds the lock. What does not return is left out.
abbrev pub Released : {U A : Type 0} → Outcome (World U) A → Type 0
Released (ok a w) = w.sock.io_locked ≡ false
Released (fail c w) = w.sock.io_locked ≡ false
Released crash = Unit
Released stuck = Unit

module _ {U : Type 0} (env : Env U) where
  finally-Released :
      {A : Type 0} (o : Outcome (World U) A) (w : World U)
      → Released (finally {W = World U} (λ _. o) (unlock_io env) w)
  finally-Released (ok a w') w = refl
  finally-Released (fail c w') w = refl
  finally-Released crash w = tt
  finally-Released stuck w = tt

  guarded-Released :
      {A : Type 0} (m : Program (World U) A) (w : World U)
      → w.sock.io_locked ≡ false
      → Released (guarded env m w)
  guarded-Released m w h =
      rw (h) (finally-Released (m (record w { sock = record (w.sock) { io_locked = true } })) w)

  either-Released :
      {A : Type 0} (b : Bool) (o o' : Outcome (World U) A)
      → Released o
      → Released o'
      → Released (if b then o else o')
  either-Released true o o' r r' = r
  either-Released false o o' r r' = r'

  connected-Released :
      {A : Type 0} (m : Program (World U) A) (w : World U)
      → w.sock.io_locked ≡ false
      → Released (m w)
      → Released (when_connected env m w)
  connected-Released m w h r =
      either-Released w.sock.is_connected (m w) (fail network_not_connected w) r h

  then-Released :
      {A B : Type 0} (o : Outcome (World U) A) (f : A → B) (w : World U)
      → Released o
      → Released (◌>>=◌ {W = World U} (λ _. o) (λ a. pure (f a)) w)
  then-Released (ok a w') f w r = r
  then-Released (fail c w') f w r = r
  then-Released crash f w r = tt
  then-Released stuck f w r = tt

  -- Update, SendFile, ReceiveFile and GetFileList, called while the lock is free, leave it free
  -- when they return, with a result or with any error.
  pub public_methods_release :
      (source destination : FilePath) (reporting : Bool) (w : World U)
      → w.sock.io_locked ≡ false
      → Released (update env w)
        × Released (send_file env source destination reporting w)
        × Released (receive_file env source destination reporting w)
        × Released (get_files env source w)
  unfolding update send_file receive_file get_files
  public_methods_release source destination reporting w h = (
    connected-Released (guarded env (update_loop env env.fuel)) w h
        (guarded-Released (update_loop env env.fuel) w h),
    connected-Released (guarded env (start_transfer env source destination up reporting)) w h
        (guarded-Released (start_transfer env source destination up reporting) w h),
    connected-Released (guarded env (start_transfer env source destination down reporting)) w h
        (guarded-Released (start_transfer env source destination down reporting) w h),
    connected-Released
        (guarded env (receive_file_list env source) >>= λ infos. pure (map (list_entry env) infos))
        w h
        (then-Released (guarded env (receive_file_list env source) w) (map (list_entry env)) w
          (guarded-Released (receive_file_list env source) w h)),
  )
