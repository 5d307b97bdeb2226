-- ===== src/Session/Sending.antt =====
-- SendFileChunks of UFT/UFTSession.hpp follows the plan: its loops end, and say what the plan says.
use uft.Prelude.{
  ℕ, zero, suc, ◌+◌, ◌^◌, ◌≤◌, ◌<◌, ◌≡◌, ◌⊎◌, inl, inr, refl, sym, ap, ◌∙◌, arith, Bool, true, List,
  [], ◌∷◌, ◌++◌, append-nil, append_assoc, length, take, drop, length-append, length-take,
  length-drop, take-append-drop, drop-append, drop_all, if◌then◌else◌, ok, Program, leb,
}
use native.Mathlib.Decide.{dec_le}
use uft.World.{World, Env}
use uft.Files.{Files, Stream, content_of, read, seek}
use uft.Session.{add64}
use uft.Session.Sender.{send_whole, send_rest}
use uft.Session.Exchange.{
  Healthy, Enough, Talk, Talk-trans, Talk-left, chunk_message, result_message,
}
use uft.Session.ChunkExchange.{send_file_chunk_lem}
use uft.Session.Plan.{whole_out, whole_in}
use uft.Socket.Delivery.{Link, IsUp}

-- A stream over a file that begins with `front`, which has been read, and goes on with `left`.
pub record Reads (fs : Files) (s : Stream) (front left : List ℕ) : Type 0 where
  pub content_eq : content_of fs s.path ≡ front ++ left
  pub pos_eq : s.pos ≡ length front
  pub good_or_end : (s.good ≡ true) ⊎ (left ≡ [])
  pub small : length front + length left < 2 ^ 63

pub ends_or_goes_on :
    (n : ℕ) (left : List ℕ) → (leb n (length (take n left)) ≡ true) ⊎ (drop n left ≡ [])
ends_or_goes_on n left = elim (dec_le n (length left)) [
  | yes h ↦ inl (ground (arith, length-take n left))
  | no h ↦ inr (drop_all n left (omega arith))
]

module _ {U : Type 0} (env : Env U) where
  abbrev pub next_stream : Stream → List ℕ → Stream
  next_stream s left = record {
    path = s.path;
    pos = s.pos + length (take env.chunk_size left);
    good = leb env.chunk_size (length (take env.chunk_size left));
  }

  pub read_lem :
      (fs : Files) (s : Stream) (front left : List ℕ)
      → Reads fs s front left
      → s.good ≡ true
      → read env.chunk_size fs s ≡ (take env.chunk_size left, next_stream s left)
  read_lem fs s front left r g =
      let at_pos : drop s.pos (content_of fs s.path) ≡ left =
        rw (r.pos_eq, r.content_eq) (drop-append front left) in
      rw (g, at_pos)

  -- The next chunk is read, and the stream stands behind it; it has failed only at the end.
  pub next_stream-Reads :
      (fs : Files) (s : Stream) (front left : List ℕ)
      → Reads fs s front left
      → Reads fs (next_stream s left) (front ++ take env.chunk_size left) (drop env.chunk_size left)
  next_stream-Reads fs s front left r =
      let now = take env.chunk_size left in
      let later = drop env.chunk_size left in
      let whole = take-append-drop env.chunk_size left in
      let size = length-append now later in
      let total = ap length whole in
      record {
        content_eq =
            r.content_eq
            ∙ ap (λ (l : List ℕ). front ++ l) (sym whole)
            ∙ sym (append_assoc front now later);
        pos_eq = omega (arith, length-append front now, r.pos_eq);
        good_or_end = ends_or_goes_on env.chunk_size left;
        small = omega (arith, length-append front now, r.small);
      }

-- A seek to where the stream stands leaves it there.
pub seek_same :
    (fs : Files) (s : Stream) (front left : List ℕ)
    → Reads fs s front left
    → s.good ≡ true
    → seek (length front) s ≡ s
seek_same fs s front left r g = ground (arith, r.pos_eq, r.small)

-- A stream that stands before something is good.
pub Reads-good :
    (fs : Files) (s : Stream) (front : List ℕ) (x : ℕ) (xs : List ℕ)
    → Reads fs s front (x ∷ xs)
    → s.good ≡ true
Reads-good fs s front x xs r = elim r.good_or_end [ inl g ↦ g | inr e ↦ cc ]

module _ {U : Type 0} (env : Env U) (link : Link env.udt) where
  open link use {queues.{incoming, outgoing, waits}}

  -- A run that ends well, having said `out` and taken `come`.
  abbrev pub Runs : {A : Type 0} → Program (World U) A → A → List ℕ → List ℕ → World U → Type 0
  Runs m a out come w =
      (v : U) × (r : List (ℕ × ℕ)) × (m w ≡ ok a (record w { net = v; reports = r }))
      × Talk env link out come w.net v

  pub send_rest_lem :
      (n : ℕ) (reporting : Bool) (total offset : ℕ) (s : Stream) (front left more : List ℕ)
      (w : World U)
      → IsUp env link w.sock
      → Healthy env
      → Reads w.files s front left
      → offset ≡ length front
      → total ≡ offset + length left
      → length left ≤ n
      → incoming w.net ≡ whole_in env n left ++ more
      → Enough env link w.net
      → Runs
          (send_rest env n reporting total s offset)
          tt
          (whole_out env n offset left)
          (whole_in env n left)
          w
  unfolding send_rest whole_out whole_in
  send_rest_lem zero reporting total offset s front [] more w up good r o t n i k =
      (w.net, w.reports, ground (arith), (sym (append-nil (outgoing w.net)), refl, omega arith))
  send_rest_lem zero reporting total offset s front (x ∷ xs) more w up good r o t n i k =
      absurd (omega arith)
  send_rest_lem (suc n) reporting total offset s front [] more w up good r o t h i k =
      (w.net, w.reports, ground (arith), (sym (append-nil (outgoing w.net)), refl, omega arith))
  send_rest_lem (suc n) reporting total offset s front (x ∷ xs) more w up good r o t h i k =
      let now = take env.chunk_size (x ∷ xs) in
      let later = drop env.chunk_size (x ∷ xs) in
      let come = whole_in env n later in
      let pos = good.chunk_pos in
      let bound = r.small in
      let n₁ = length-take env.chunk_size (x ∷ xs) in
      let n₂ = length-drop env.chunk_size (x ∷ xs) in
      let n₃ = length-append front now in
      let taken = read_lem env w.files s front (x ∷ xs) r (Reads-good w.files s front x xs r) in
      let (u, run, talk) =
        send_file_chunk_lem env link now (come ++ more) offset w up good (omega arith)
          (i ∙ append_assoc (result_message env true) come more) k in
      let sum : add64 offset (length now) ≡ offset + length now = omega arith in
      let reports' = if reporting then (offset + length now, total) ∷ w.reports else w.reports in
      let (v, rs, run', talk') =
        send_rest_lem n reporting total (offset + length now) (next_stream env s (x ∷ xs))
          (front ++ now) later more (record w { net = u; reports = reports' }) up good
          (next_stream-Reads env w.files s front (x ∷ xs) r) (omega arith) (omega arith)
          (omega arith)
          (Talk-left env link (chunk_message env offset now) (result_message env true)
            (come ++ more) w.net u talk (i ∙ append_assoc (result_message env true) come more))
          (omega (arith, talk)) in
      (
        v,
        rs,
        ground arith,
        Talk-trans env link (chunk_message env offset now)
            (whole_out env n (offset + length now) later) (result_message env true) come w.net u v
            talk talk',
      )

  pub send_whole_lem :
      (n : ℕ) (reporting : Bool) (total offset : ℕ) (s : Stream) (front left more : List ℕ)
      (w : World U)
      → IsUp env link w.sock
      → Healthy env
      → Reads w.files s front left
      → offset ≡ length front
      → total ≡ offset + length left
      → length left ≤ n
      → incoming w.net ≡ whole_in env n left ++ more
      → Enough env link w.net
      → Runs
          (send_whole env n reporting total s offset)
          tt
          (whole_out env n offset left)
          (whole_in env n left)
          w
  unfolding send_whole whole_out whole_in
  send_whole_lem zero reporting total offset s front [] more w up good r o t n i k =
      (w.net, w.reports, ground (arith), (sym (append-nil (outgoing w.net)), refl, omega arith))
  send_whole_lem zero reporting total offset s front (x ∷ xs) more w up good r o t n i k =
      absurd (omega arith)
  send_whole_lem (suc n) reporting total offset s front [] more w up good r o t h i k =
      (w.net, w.reports, ground (arith), (sym (append-nil (outgoing w.net)), refl, omega arith))
  send_whole_lem (suc n) reporting total offset s front (x ∷ xs) more w up good r o t h i k =
      let now = take env.chunk_size (x ∷ xs) in
      let later = drop env.chunk_size (x ∷ xs) in
      let come = whole_in env n later in
      let pos = good.chunk_pos in
      let bound = r.small in
      let n₁ = length-take env.chunk_size (x ∷ xs) in
      let n₂ = length-drop env.chunk_size (x ∷ xs) in
      let n₃ = length-append front now in
      let here = seek_same w.files s front (x ∷ xs) r (Reads-good w.files s front x xs r) in
      let taken = read_lem env w.files s front (x ∷ xs) r (Reads-good w.files s front x xs r) in
      let (u, run, talk) =
        send_file_chunk_lem env link now (come ++ more) offset w up good (omega arith)
          (i ∙ append_assoc (result_message env true) come more) k in
      let sum : add64 offset (length now) ≡ offset + length now = omega arith in
      let reports' = if reporting then (offset + length now, total) ∷ w.reports else w.reports in
      let (v, rs, run', talk') =
        send_whole_lem n reporting total (offset + length now) (next_stream env s (x ∷ xs))
          (front ++ now) later more (record w { net = u; reports = reports' }) up good
          (next_stream-Reads env w.files s front (x ∷ xs) r) (omega arith) (omega arith)
          (omega arith)
          (Talk-left env link (chunk_message env offset now) (result_message env true)
            (come ++ more) w.net u talk (i ∙ append_assoc (result_message env true) come more))
          (omega (arith, talk)) in
      (
        v,
        rs,
        ground arith,
        Talk-trans env link (chunk_message env offset now)
            (whole_out env n (offset + length now) later) (result_message env true) come w.net u v
            talk talk',
      )
