-- ===== src/Session/Copy.antt =====
-- What the two sides of a whole transfer of UFT/UFTSession.hpp say, upwards and downwards.
pub mod Upload
pub mod Download
use uft.Prelude.{
  ℕ, ◌^◌, ◌≤◌, ◌<◌, ◌≡◌, refl, sym, subst, ap, ◌∙◌, arith, Bool, true, false, List, [], ◌++◌,
  append_assoc, length, Option, some,
}
use uft.World.{World, Env}
use uft.Files.{FilePath, Mode}
use uft.Session.{FileInfo, transmit_file, up, down}
use uft.Session.Transmit.{start_transfer, handle_packet, exchange}
use uft.Session.Exchange.{Talk, Talk-trans, Talk-left}
use uft.Session.Offer.{is_path, path_string, Stats, described, Fits, offer}
use uft.Session.Meeting.{
  bytes_of, is_fresh, sender_words, receiver_words, tells, described-path, sender_side,
  receiver_side,
}
use uft.Session.Opening.{offered_packet, start_transfer_lem, handle_packet-transmit_file}
use uft.Session.Ends.{
  Connected, Source, Target, described-Fits, described-path_change, local_end-up, local_end-down,
  answering_end-up, answering_end-down,
}
use uft.Session.SendFile.{Offered}
use uft.Session.Sending.{Runs}
use uft.Session.Receiving.{Fills}
use uft.Socket.Delivery.{Link, at}

module _ {U : Type 0} (env : Env U) (link : Link env.udt) (stats : Stats env.os) where
  open link use {queues.{incoming, outgoing, waits}}

  pub Source-Offered :
      (w : World U) (u : U) (m : ℕ) (p : FilePath) (content : List ℕ)
      → Source env link w.files p content
      → Offered env link (at env link w u) (described m p (some content)) content
  Source-Offered w u m p content s =
      let path = path_string p s.source_path in
      record {
        there = ap w.files path ∙ s.source_there;
        opens = ap (λ (q : FilePath). env.os.may_open w.files q Mode.reading) path ∙ s.source_opens;
        size_eq = refl;
        enough = s.source_enough;
        small = s.source_small;
      }

  -- What the two sides of a transfer say, the one that has the file `content` last changed at `m'`,
  -- and the one that has `o`, last changed at `m`. Each names the path that the other is to use.
  abbrev pub source_words : ℕ → FilePath → ℕ → Bool → List ℕ → Option (List ℕ) → List ℕ
  source_words m' p direction fresh content o =
      offer (described m' p (some content)) direction
      ++ sender_words env link fresh content (bytes_of o)

  abbrev pub target_words : ℕ → FilePath → ℕ → Bool → List ℕ → Option (List ℕ) → List ℕ
  target_words m p direction fresh content o =
      offer (described m p o) direction ++ receiver_words env link fresh content (bytes_of o)
