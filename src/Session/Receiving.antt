-- ===== src/Session/Receiving.antt =====
-- The receiving loop of ReceiveFileChunks in UFT/UFTSession.hpp follows the plan: it takes what
-- the sender says, and its file grows by exactly those bytes.
use uft.Prelude.{
  ℕ, zero, suc, ◌+◌, ◌^◌, ◌≤◌, ◌<◌, ◌≡◌, inl, inr, refl, subst, sym, ap, ◌∙◌, arith, Bool, true,
  List, [], ◌∷◌, ◌++◌, append-nil, append_assoc, length, take, drop, length-append, length-take,
  length-drop, take-append-drop, if◌then◌else◌, ok, Bool-cases, Program, some, bytes_eq,
  bytes_eq→eq,
}
use uft.World.{World, Env}
use uft.Files.{Files, FilePath, Stream, update, overlay, content_of}
use uft.Files.Content.{update_self, overlay-append}
use uft.Session.{add64}
use uft.Session.Receiver.{receive_chunks}
use uft.Session.Chunk.{Callback, unchecked, overwrite}
use uft.Session.Exchange.{
  Healthy, Enough, Talk, Talk-trans, Talk-left, chunk_message, result_message,
}
use uft.Session.ChunkExchange.{after, written, receive_file_chunk_lem}
use uft.Session.Plan.{whole_out, whole_in}
use uft.Socket.Delivery.{Link, IsUp}

-- Every file is as before, but that the one at `p` holds `content`.
abbrev pub Holds : FilePath → List ℕ → Files → Files → Type 0
Holds p content before now = (q : FilePath) → now q ≡ update before p content q

pub Holds-there :
    (p : FilePath) (content : List ℕ) (before now : Files)
    → Holds p content before now
    → now p ≡ some content
Holds-there p content before now h = h p ∙ update_self before p content

pub content_of_lem :
    (fs : Files) (p : FilePath) (content : List ℕ) → fs p ≡ some content → content_of fs p ≡ content
content_of_lem fs p content h = rw (content_of, h) refl

update_same :
    (p q : FilePath) (content : List ℕ) (fs : Files)
    → fs p ≡ some content
    → fs q ≡ update fs p content q
update_same p q content fs h = elim (Bool-cases (bytes_eq p q)) [
  | inl e ↦ rw (update, e) (ap fs (sym (bytes_eq→eq p q e)) ∙ h)
  | inr e ↦ rw (update, e) refl
]

update_twice :
    (p q : FilePath) (content content' : List ℕ) (before between : Files)
    → between q ≡ update before p content q
    → update between p content' q ≡ update before p content' q
update_twice p q content content' before between h = ground arith

pub Holds-self :
    (p : FilePath) (content content' : List ℕ) (fs : Files)
    → fs p ≡ some content
    → content ≡ content'
    → Holds p content' fs fs
Holds-self p content content' fs h e q =
    update_same p q content' fs (h ∙ ap (λ (c : List ℕ). some c) e)

pub Holds-trans :
    (p : FilePath) (content content' : List ℕ) (before between now : Files)
    → Holds p content before between
    → Holds p content' between now
    → Holds p content' before now
Holds-trans p content content' before between now h h' q =
    h' q ∙ update_twice p q content content' before between (h q)

pub overlay-end : (front xs : List ℕ) → overlay front (length front) xs ≡ front ++ xs
overlay-end front xs =
    ap (λ (c : List ℕ). overlay c (length front) xs) (sym (append-nil front))
    ∙ overlay-append front [] [] xs (omega arith) (inr refl)
    ∙ ap (λ (c : List ℕ). front ++ c) (append-nil xs)

-- The new file after one chunk.
pub Holds-write :
    (p : FilePath) (content content' : List ℕ) (before now : Files) (offset : ℕ) (xs : List ℕ)
    → Holds p content before now
    → overlay content offset xs ≡ content'
    → Holds p content' before (update now p (overlay (content_of now p) offset xs))
Holds-write p content content' before now offset xs h e q =
    let there = content_of_lem now p content (Holds-there p content before now h) in
    ap (λ (c : List ℕ). update now p c q) (ap (λ (c : List ℕ). overlay c offset xs) there ∙ e)
    ∙ update_twice p q content content' before now (h q)

pub length-overwrite :
    (xs buffer : List ℕ) → length xs ≤ length buffer → length (overwrite xs buffer) ≡ length buffer
length-overwrite xs buffer h =
    omega (arith, length-append xs (drop (length xs) buffer), length-drop (length xs) buffer)

module _ {U : Type 0} (env : Env U) (link : Link env.udt) where
  open link use {queues.{incoming, outgoing, waits}}

  -- A run that ends well, with the file at `p` holding `content` and no other file touched.
  abbrev pub Fills :
      {A : Type 0}
      → Program (World U) A
      → A
      → FilePath
      → List ℕ
      → List ℕ
      → List ℕ
      → World U
      → Type 0
  Fills m a p content out come w =
      (v : U) × (r : List (ℕ × ℕ)) × (fs : Files) × (m w
        ≡ ok a (record w { net = v; reports = r; files = fs }))
      × Holds p content w.files fs
      × Talk env link out come w.net v

  pub receive_chunks_lem :
      (n : ℕ) (callback : Callback) (reporting : Bool) (total offset : ℕ) (buffer : List ℕ)
      (s : Stream) (front left more : List ℕ) (w : World U)
      → IsUp env link w.sock
      → Healthy env
      → w.files s.path ≡ some front
      → (callback ≡ unchecked → s.good ≡ true)
      → length buffer ≡ env.chunk_size
      → offset ≡ length front
      → total ≡ offset + length left
      → total < 2 ^ 63
      → length left ≤ n
      → incoming w.net ≡ whole_out env n offset left ++ more
      → Enough env link w.net
      → Fills
          (receive_chunks env n callback reporting total buffer s offset)
          tt
          s.path
          (front ++ left)
          (whole_in env n left)
          (whole_out env n offset left)
          w
  unfolding receive_chunks whole_out whole_in
  receive_chunks_lem zero callback reporting total offset buffer s front [] more w up good f g b o t
        m n i k =
      (
        w.net,
        w.reports,
        w.files,
        ground arith,
        Holds-self s.path front (front ++ []) w.files f (sym (append-nil front)),
        (sym (append-nil (outgoing w.net)), refl, omega arith),
      )
  receive_chunks_lem zero callback reporting total offset buffer s front (x ∷ xs) more w up good f g
        b o t m n i k =
      absurd (omega arith)
  receive_chunks_lem (suc n) callback reporting total offset buffer s front [] more w up good f g b
        o t m h i k =
      (
        w.net,
        w.reports,
        w.files,
        ground arith,
        Holds-self s.path front (front ++ []) w.files f (sym (append-nil front)),
        (sym (append-nil (outgoing w.net)), refl, omega arith),
      )
  receive_chunks_lem (suc n) callback reporting total offset buffer s front (x ∷ xs) more w up good
        f g b o t m h i k =
      let now = take env.chunk_size (x ∷ xs) in
      let later = drop env.chunk_size (x ∷ xs) in
      let pos = good.chunk_pos in
      let n₁ = length-take env.chunk_size (x ∷ xs) in
      let n₂ = length-drop env.chunk_size (x ∷ xs) in
      let n₃ = length-append front now in
      let come = whole_out env n (offset + length now) later in
      let whole =
        append_assoc front now later
        ∙ ap (λ (l : List ℕ). front ++ l) (take-append-drop env.chunk_size (x ∷ xs)) in
      let i' = i ∙ append_assoc (chunk_message env offset now) come more in
      let (u, run, talk) =
        receive_file_chunk_lem env link callback now (come ++ more) buffer offset s w up good
          (omega arith) b (omega arith) g i' k in
      let sum : add64 offset (length now) ≡ offset + length now = omega arith in
      let reports' = if reporting then (offset + length now, total) ∷ w.reports else w.reports in
      let fs = written env link w s offset now in
      let mid : Holds s.path (front ++ now) w.files fs =
        Holds-write s.path front (front ++ now) w.files w.files offset now
          (Holds-self s.path front front w.files f refl)
          (ap (λ (k : ℕ). overlay front k now) o ∙ overlay-end front now) in
      let (v, rs, fs', run', holds, talk') =
        receive_chunks_lem n callback reporting total (offset + length now) (overwrite now buffer)
          (after env link s offset now) (front ++ now) later more
          (record w { net = u; reports = reports'; files = fs }) up good
          (Holds-there s.path (front ++ now) w.files fs mid) (λ e. refl)
          (length-overwrite now buffer (omega arith) ∙ b) (omega arith) (omega arith) m
          (omega arith)
          (Talk-left env link (result_message env true) (chunk_message env offset now)
            (come ++ more) w.net u talk i')
          (omega (arith, talk)) in
      (
        v,
        rs,
        fs',
        ground arith,
        Holds-trans s.path (front ++ now) (front ++ (x ∷ xs)) w.files fs fs' mid
            (subst (λ (c : List ℕ). Holds s.path c fs fs') whole holds),
        Talk-trans env link (result_message env true) (whole_in env n later)
            (chunk_message env offset now) come w.net u v talk talk',
      )
