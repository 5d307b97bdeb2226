-- ===== src/Session/Conduct.antt =====
-- UFT/UFTSession.hpp: what the routines of a session keep, as long as SendAll, ReadNextPacket and
-- Disconnect do.
pub mod Packets
pub mod Chunks
pub mod Loops
pub mod Calls
pub mod Methods
use uft.Prelude.{length, ◌<◌, ◌^◌, ℕ, zero, suc, Bool, List, ok, Program, modify, ◌>>=◌}
use uft.Prelude.Keeps.{After, After-then, Leads, Leads-then, Leads-weaken}
use uft.World.{World, Env}
use uft.Files.{Files}
use uft.Session.Packet.{disconnect, read_next_packet}
use uft.Socket.Transfer.{send_all}

abbrev pub less_one : ℕ → ℕ
less_one zero = zero
less_one (suc k) = k

-- A property of the state with a number: each packet that comes in may make the number smaller by one.
-- Where a program does not end, `Stuck` holds.
pub record Conduct {U : Type 0} (env : Env U) : Type 1 where
  pub Holds : ℕ → World U → Type 0
  pub Stuck : Type 0
  pub grow : (k : ℕ) (w : World U) → Holds k w → Holds (suc k) w
  pub none_left : (w : World U) → Holds 0 w → Stuck
  pub with_files :
      (k : ℕ) (w : World U) (fs : Files) → Holds k w → Holds k (record w { files = fs })
  pub with_reports :
      (k : ℕ) (w : World U) (rs : List (ℕ × ℕ)) → Holds k w → Holds k (record w { reports = rs })
  pub with_lock :
      (k : ℕ) (w : World U) (b : Bool)
      → Holds k w
      → Holds k (record w { sock = record (w.sock) { io_locked = b } })
  pub says :
      (k : ℕ) (xs : List ℕ) → length xs < 2 ^ 32 → Leads Stuck (Holds k) (Holds k) (send_all env xs)
  pub hears :
      (k : ℕ) (block : Bool)
      → Leads Stuck (Holds k) (Holds (less_one k)) (read_next_packet env block)
  pub drops : (k : ℕ) → Leads Stuck (Holds k) (Holds k) (modify (disconnect env))

module _ {U : Type 0} {env : Env U} (conduct : Conduct env) where
  open conduct use {Holds, Stuck}

  -- `m` takes nothing away; `m` takes at most one away.
  abbrev pub Goes : {A : Type 0} → ℕ → Program (World U) A → Type 0
  Goes k m = Leads Stuck (Holds k) (Holds k) m

  abbrev pub Ebbs : {A : Type 0} → ℕ → Program (World U) A → Type 0
  Ebbs k m = Leads Stuck (Holds k) (Holds (less_one k)) m

  grow_back : (k : ℕ) (w : World U) → Holds (less_one k) w → Holds k w
  grow_back zero w h = h
  grow_back (suc k) w h = conduct.grow k w h

  pub Goes-of : {A : Type 0} (k : ℕ) (m : Program (World U) A) → Ebbs k m → Goes k m
  Goes-of k m e = Leads-weaken m (grow_back k) e

  pub Ebbs-then :
      {A B : Type 0} (k : ℕ) (m : Program (World U) A) (f : A → Program (World U) B)
      → Ebbs k m
      → ((a : A) → Goes (less_one k) (f a))
      → Ebbs k (m >>= f)
  Ebbs-then k m f e g = Leads-then m f (grow_back k) e g

  -- What starts with one less.
  pub Goes-after :
      {A : Type 0} (k : ℕ) (m : Program (World U) A) (w : World U)
      → Goes (less_one k) m
      → Holds (less_one k) w
      → After Stuck (Holds k) (Holds k) (m w)
  Goes-after k m w g h =
      After-then (ok tt w) (λ u. m) w (grow_back k) h λ u. Leads-weaken m (grow_back k) g
