-- ===== src/Session/Service.antt =====
-- What a session of UFT/UFTSession.hpp promises its peer, said without packets: two stores of files,
-- and requests that copy a file from one to the other. SendFile and ReceiveFile ask, Update answers.
pub mod Asking
pub mod Answering
pub mod Refinement
use uft.Prelude.{
  ℕ, ◌^◌, ◌≤◌, ◌<◌, ◌≡◌, Bool, true, false, List, [], ◌∷◌, ◌++◌, length, Option, none, some,
  Program, pure, ◌>>◌,
}
use uft.World.{World, Env}
use uft.Files.{FilePath, Files, update}
use uft.Session.{up, down}
use uft.Session.Transmit.{send_file, receive_file}
use uft.Session.Offer.{Stats, is_path}
use uft.Session.Meeting.{bytes_of, is_fresh, tells}
use uft.Session.Ends.{Source, Target}
use uft.Session.Copy.{source_words, target_words}
use uft.Socket.Delivery.{Link}

-- The files of the session that asks, and of the one that answers.
abbrev pub Stores : Type 0
Stores = Files × Files

-- Copies a file of ours to theirs, or a file of theirs to ours.
pub data Request : Type 0 where
  upload : FilePath → FilePath → Request
  download : FilePath → FilePath → Request

abbrev pub source_of : Request → Stores → Option (List ℕ)
source_of (upload source destination) (ours, theirs) = ours source
source_of (download source destination) (ours, theirs) = theirs source

abbrev pub target_of : Request → Stores → Option (List ℕ)
target_of (upload source destination) (ours, theirs) = theirs destination
target_of (download source destination) (ours, theirs) = ours destination

abbrev pub content_of_request : Request → Stores → List ℕ
content_of_request r s = bytes_of (source_of r s)

-- The promise: the destination becomes the source's content, and nothing else changes.
abbrev pub serve : Request → Stores → Stores
serve (upload source destination) (ours, theirs) =
    (ours, update theirs destination (bytes_of (ours source)))
serve (download source destination) (ours, theirs) =
    (update ours destination (bytes_of (theirs source)), theirs)

abbrev pub serve_all : List Request → Stores → Stores
serve_all [] s = s
serve_all (r ∷ rs) s = serve_all rs (serve r s)

module _ {U : Type 0} (env : Env U) where
  -- The call that makes a request.
  abbrev pub ask : Request → Program (World U) (Unit {0})
  ask (upload source destination) = send_file env source destination true
  ask (download source destination) = receive_file env source destination true

  abbrev pub ask_all : List Request → Program (World U) (Unit {0})
  ask_all [] = pure tt
  ask_all (r ∷ rs) = ask r >> ask_all rs

module _ {U : Type 0} (env : Env U) (link : Link env.udt) (stats : Stats env.os) where
  -- Whether the receiver's file is not used.
  abbrev pub fresh_for : Request → Stores → Bool
  fresh_for (upload source destination) (ours, theirs) =
      is_fresh (stats.mtime theirs destination) (theirs destination) (bytes_of (ours source))
  fresh_for (download source destination) (ours, theirs) =
      is_fresh (stats.mtime ours destination) (ours destination) (bytes_of (theirs source))

  -- What the two sides say for a request.
  abbrev pub asking_words : Request → Stores → List ℕ
  asking_words (upload source destination) (ours, theirs) =
      source_words env link stats (stats.mtime ours source) destination up
        (fresh_for (upload source destination) (ours, theirs)) (bytes_of (ours source))
        (theirs destination)
  asking_words (download source destination) (ours, theirs) =
      target_words env link stats (stats.mtime ours destination) source down
        (fresh_for (download source destination) (ours, theirs)) (bytes_of (theirs source))
        (ours destination)

  abbrev pub answering_words : Request → Stores → List ℕ
  answering_words (upload source destination) (ours, theirs) =
      target_words env link stats (stats.mtime theirs destination) destination up
        (fresh_for (upload source destination) (ours, theirs)) (bytes_of (ours source))
        (theirs destination)
  answering_words (download source destination) (ours, theirs) =
      source_words env link stats (stats.mtime theirs source) source down
        (fresh_for (download source destination) (ours, theirs)) (bytes_of (theirs source))
        (ours destination)

  abbrev pub all_asking : List Request → Stores → List ℕ
  all_asking [] s = []
  all_asking (r ∷ rs) s = asking_words r s ++ all_asking rs (serve r s)

  abbrev pub all_answering : List Request → Stores → List ℕ
  all_answering [] s = []
  all_answering (r ∷ rs) s = answering_words r s ++ all_answering rs (serve r s)

  -- A request that can be met: the source is there, both files open, their paths and sizes fit, and
  -- the hashes tell compared chunks apart.
  abbrev pub CanServe : Request → Stores → Type 0
  CanServe (upload source destination) (ours, theirs) =
      Source env link ours source (bytes_of (ours source))
      × Target env link theirs destination (theirs destination)
          (fresh_for (upload source destination) (ours, theirs))
      × (tells env link (fresh_for (upload source destination) (ours, theirs))
            (bytes_of (ours source)) (bytes_of (theirs destination))
          ≡ true)
  CanServe (download source destination) (ours, theirs) =
      Source env link theirs source (bytes_of (theirs source))
      × Target env link ours destination (ours destination)
          (fresh_for (download source destination) (ours, theirs))
      × (tells env link (fresh_for (download source destination) (ours, theirs))
            (bytes_of (theirs source)) (bytes_of (ours destination))
          ≡ true)

  -- Each request can be met when its turn comes.
  abbrev pub CanServeAll : List Request → Stores → Type 0
  CanServeAll [] s = Unit
  CanServeAll (r ∷ rs) s = CanServe r s × CanServeAll rs (serve r s)
