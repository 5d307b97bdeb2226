-- ===== src/Session/Meeting.antt =====
-- The two sides of a transfer of UFT/UFTSession.hpp once both FileInfos are known, whichever branch
-- SendFileChunks and ReceiveFileChunks then take.
use uft.Prelude.{
  ℕ, ◌^◌, ◌≤◌, ◌<◌, ◌≡◌, refl, subst, ap, ◌∙◌, arith, Bool, true, false, ◌||◌, List, [], ◌++◌,
  length, Option, none, some,
}
use uft.World.{World, Env}
use uft.Files.{FilePath, Mode}
use uft.Session.{FileInfo, c_string}
use uft.Session.Sender.{send_file_chunks}
use uft.Session.Receiver.{receive_file_chunks}
use uft.Session.Exchange.{Healthy, Enough}
use uft.Session.Plan.{merged, beyond, afresh, tells_apart, merged-beyond, whole_out, whole_in}
use uft.Session.Sending.{Runs}
use uft.Session.SendFile.{Offered, send_file_chunks-whole, send_file_chunks-compared}
use uft.Session.Receiving.{Fills}
use uft.Session.ReceiveFile.{
  compared_words, compared_answers, receive_file_chunks-whole, receive_file_chunks-compared,
}
use uft.Session.Offer.{described}
use uft.Socket.Delivery.{Link, IsUp}

-- The bytes of a file that may be absent, and of one that is absent none.
abbrev pub bytes_of : Option (List ℕ) → List ℕ
bytes_of none = []
bytes_of (some c) = c

-- Whether the receiver's file, last changed at `m`, is not used for this content.
abbrev pub is_fresh : ℕ → Option (List ℕ) → List ℕ → Bool
is_fresh m o content = afresh (described m [] o).size (described m [] o).timestamp (length content)

pub is_fresh-described :
    (m : ℕ) (p : FilePath) (o : Option (List ℕ)) (content : List ℕ)
    → afresh (described m p o).size (described m p o).timestamp (length content)
      ≡ is_fresh m o content
is_fresh-described m p none content = refl
is_fresh-described m p (some c) content = refl

pub described-size :
    (m : ℕ) (p : FilePath) (o : Option (List ℕ)) → (described m p o).size ≡ length (bytes_of o)
described-size m p none = refl
described-size m p (some c) = refl

pub described-path : (m : ℕ) (p : FilePath) (o : Option (List ℕ)) → (described m p o).path ≡ p
described-path m p none = refl
described-path m p (some c) = refl

-- A file that is used is there, and is not longer.
used_file :
    (m : ℕ) (o : Option (List ℕ)) (content : List ℕ)
    → is_fresh m o content ≡ false
    → (o ≡ some (bytes_of o)) × (length (bytes_of o) ≤ length content)
used_file m none content h = cc
used_file m (some c) content h = (refl, ground arith)

module _ {U : Type 0} (env : Env U) (link : Link env.udt) where
  open link use {queues.{incoming, outgoing, waits}}

  -- What the sender and the receiver say.
  abbrev pub sender_words : Bool → List ℕ → List ℕ → List ℕ
  sender_words true content old = whole_out env env.fuel 0 content
  sender_words false content old = compared_words env link content old

  abbrev pub receiver_words : Bool → List ℕ → List ℕ → List ℕ
  receiver_words true content old = whole_in env env.fuel content
  receiver_words false content old = compared_answers env link content old

  -- How the receiver opens its file.
  abbrev pub receiving_mode : Bool → Mode
  receiving_mode true = Mode.truncating
  receiving_mode false = Mode.updating

  -- The hashes tell the chunks apart where they are compared.
  abbrev pub tells : Bool → List ℕ → List ℕ → Bool
  tells fresh content old = fresh || tells_apart env env.fuel content old

  pub sender_side :
      (fresh reporting : Bool) (mine : FileInfo) (m : ℕ) (p : FilePath) (o : Option (List ℕ))
      (content more : List ℕ) (w : World U)
      → IsUp env link w.sock
      → Healthy env
      → Offered env link w mine content
      → is_fresh m o content ≡ fresh
      → incoming w.net ≡ receiver_words fresh content (bytes_of o) ++ more
      → Enough env link w.net
      → Runs env link
          (send_file_chunks env mine (described m p o) reporting)
          tt
          (sender_words fresh content (bytes_of o))
          (receiver_words fresh content (bytes_of o))
          w
  sender_side true reporting mine m p o content more w up good f b i k =
      let size =
        ap (λ (n : ℕ). afresh (described m p o).size (described m p o).timestamp n) f.size_eq in
      send_file_chunks-whole env link mine (described m p o) reporting content more w up good f
        (size ∙ is_fresh-described m p o content ∙ b) i k
  sender_side false reporting mine m p o content more w up good f b i k =
      let size =
        ap (λ (n : ℕ). afresh (described m p o).size (described m p o).timestamp n) f.size_eq in
      let (there, shorter) = used_file m o content b in
      send_file_chunks-compared env link mine (described m p o) reporting content (bytes_of o) more
        w up good f (size ∙ is_fresh-described m p o content ∙ b) (described-size m p o) shorter i k

  pub receiver_side :
      (fresh reporting : Bool) (mine : FileInfo) (m : ℕ) (p : FilePath) (o : Option (List ℕ))
      (content more : List ℕ) (w : World U)
      → IsUp env link w.sock
      → Healthy env
      → w.files p ≡ o
      → c_string p ≡ p
      → env.os.may_open w.files p (receiving_mode fresh) ≡ true
      → mine.size ≡ length content
      → length content < 2 ^ 63
      → length content ≤ env.fuel
      → is_fresh m o content ≡ fresh
      → tells fresh content (bytes_of o) ≡ true
      → incoming w.net ≡ sender_words fresh content (bytes_of o) ++ more
      → Enough env link w.net
      → Fills env link
          (receive_file_chunks env (described m p o) mine reporting)
          tt
          p
          content
          (receiver_words fresh content (bytes_of o))
          (sender_words fresh content (bytes_of o))
          w
  receiver_side true reporting mine m p o content more w up good f c a z s h b t i k =
      let info = described m p o in
      let path : c_string info.path ≡ p = ap c_string (described-path m p o) ∙ c in
      let size = ap (λ (n : ℕ). afresh info.size info.timestamp n) z in
      subst
        (λ (q : FilePath).
          Fills env link (receive_file_chunks env info mine reporting) tt q content
            (whole_in env env.fuel content) (whole_out env env.fuel 0 content) w)
        path
        (receive_file_chunks-whole env link info mine reporting content more w up good
          (ap (λ (q : FilePath). env.os.may_open w.files q Mode.truncating) path ∙ a) z s h
          (size ∙ is_fresh-described m p o content ∙ b) i k)
  receiver_side false reporting mine m p o content more w up good f c a z s h b t i k =
      let info = described m p o in
      let path : c_string info.path ≡ p = ap c_string (described-path m p o) ∙ c in
      let size = ap (λ (n : ℕ). afresh info.size info.timestamp n) z in
      let (there, shorter) = used_file m o content b in
      let old = bytes_of o in
      let run =
        receive_file_chunks-compared env link info mine reporting content old more w up good
          (ap w.files path ∙ f ∙ there)
          (ap (λ (q : FilePath). env.os.may_open w.files q Mode.updating) path ∙ a)
          (described-size m p o) z s h shorter (size ∙ is_fresh-described m p o content ∙ b) i k in
      subst
        (λ (c : List ℕ).
          Fills env link (receive_file_chunks env info mine reporting) tt p c
            (compared_answers env link content old) (compared_words env link content old) w)
        (merged-beyond env env.fuel content old t)
        (subst
          (λ (q : FilePath).
            Fills env link (receive_file_chunks env info mine reporting) tt q
              (merged env env.fuel content old ++ beyond env env.fuel content old)
              (compared_answers env link content old) (compared_words env link content old) w)
          path run)
