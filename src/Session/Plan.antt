-- ===== src/Session/Plan.antt =====
-- The conversation of SendFileChunks and ReceiveFileChunks in UFT/UFTSession.hpp as a plan over the
-- two contents: what each side says, and the content that the receiver is left with. `rounds`
-- bounds the chunks; the length of the longer content is enough.
use uft.Prelude.{
  ℕ, zero, suc, ◌+◌, ◌≡◌, refl, sym, ap, ◌∙◌, arith, Bool, true, false, List, [], ◌∷◌, ◌++◌, length,
  take, drop, if◌then◌else◌, length-take, length-drop, length-append, take-append-drop,
  append_assoc, Bool-cases, inl, inr, ◌==◌, ltb, bytes_eq, bytes_eq→eq, ◌||◌, ◌&&◌,
}
use uft.World.{Env}
use uft.Session.Sender.{differs}
use uft.Session.Exchange.{hash_of, chunk_message, hash_message, result_message}

-- Both routines of a transfer ask this of the receiver's file: there is none, or a longer one.
abbrev pub afresh : ℕ → ℕ → ℕ → Bool
afresh size timestamp other = (size == 0 && timestamp == 0) || ltb other size

-- The peer's chunk `old` is not taken for `new`.
abbrev pub stale : List ℕ → List ℕ → Bool
stale new old = differs (length new) (length old) (hash_of new) (hash_of old)

-- Whether the hashes tell the two chunks apart, if they are not the same.
abbrev pub told : List ℕ → List ℕ → Bool
told new old = stale new old || bytes_eq new old

module _ {U : Type 0} (env : Env U) where
  -- Every chunk from `offset` on, and the answers.
  unfoldable pub whole_out : ℕ → ℕ → List ℕ → List ℕ
  whole_out zero offset xs = []
  whole_out (suc rounds) offset [] = []
  whole_out (suc rounds) offset (x ∷ xs) =
      let now = take env.chunk_size (x ∷ xs) in
      chunk_message env offset now
      ++ whole_out rounds (offset + length now) (drop env.chunk_size (x ∷ xs))

  unfoldable pub whole_in : ℕ → List ℕ → List ℕ
  whole_in zero xs = []
  whole_in (suc rounds) [] = []
  whole_in (suc rounds) (x ∷ xs) =
      result_message env true ++ whole_in rounds (drop env.chunk_size (x ∷ xs))

  -- Hash against hash, and the chunk where the peer's is stale, up to the end of `old`.
  unfoldable pub compared_out : ℕ → ℕ → List ℕ → List ℕ → List ℕ
  compared_out zero offset new old = []
  compared_out (suc rounds) offset new [] = []
  compared_out (suc rounds) offset new (y ∷ old) =
      let now = take env.chunk_size new in
      let then_ = take env.chunk_size (y ∷ old) in
      hash_message env offset now
      ++ ((if stale now then_ then chunk_message env offset now else [])
          ++ compared_out rounds (offset + length now) (drop env.chunk_size new)
              (drop env.chunk_size (y ∷ old)))

  unfoldable pub compared_in : ℕ → ℕ → List ℕ → List ℕ → List ℕ
  compared_in zero offset new old = []
  compared_in (suc rounds) offset new [] = []
  compared_in (suc rounds) offset new (y ∷ old) =
      let now = take env.chunk_size new in
      let then_ = take env.chunk_size (y ∷ old) in
      hash_message env offset then_
      ++ ((if stale now then_ then result_message env true else [])
          ++ compared_in rounds (offset + length now) (drop env.chunk_size new)
              (drop env.chunk_size (y ∷ old)))

  -- What the compared part of the receiver's file becomes, and what the sender has beyond it.
  unfoldable pub merged : ℕ → List ℕ → List ℕ → List ℕ
  merged zero new old = []
  merged (suc rounds) new [] = []
  merged (suc rounds) new (y ∷ old) =
      let now = take env.chunk_size new in
      let then_ = take env.chunk_size (y ∷ old) in
      (if stale now then_ then now else then_)
      ++ merged rounds (drop env.chunk_size new) (drop env.chunk_size (y ∷ old))

  unfoldable pub beyond : ℕ → List ℕ → List ℕ → List ℕ
  beyond zero new old = new
  beyond (suc rounds) new [] = new
  beyond (suc rounds) new (y ∷ old) =
      beyond rounds (drop env.chunk_size new) (drop env.chunk_size (y ∷ old))

  -- No chunk of the receiver's is taken for the sender's by its hash alone.
  unfoldable pub tells_apart : ℕ → List ℕ → List ℕ → Bool
  tells_apart zero new old = true
  tells_apart (suc rounds) new [] = true
  tells_apart (suc rounds) new (y ∷ old) =
      told (take env.chunk_size new) (take env.chunk_size (y ∷ old))
      && tells_apart rounds (drop env.chunk_size new) (drop env.chunk_size (y ∷ old))

-- A chunk that is not stale has the size of the peer's.
pub stale-size : (now then_ : List ℕ) → stale now then_ ≡ false → length now ≡ length then_
stale-size now then_ e = ground arith

pub piece-size : (now then_ : List ℕ) → length (if stale now then_ then now else then_) ≡ length now
piece-size now then_ = elim (Bool-cases (stale now then_)) [
  | inl e ↦ rw (e) refl
  | inr e ↦ rw (e) (sym (stale-size now then_ e))
]

told-piece : (new old : List ℕ) → told new old ≡ true → (if stale new old then new else old) ≡ new
told-piece new old h = elim (Bool-cases (stale new old)) [
  | inl e ↦ rw (e) refl
  | inr e ↦
      let same : bytes_eq new old ≡ true = ground arith in rw (e) (sym (bytes_eq→eq new old same))
]

-- What the receiver is left with is the sender's content.
pub merged-beyond :
    {U : Type 0} (env : Env U) (n : ℕ) (new old : List ℕ)
    → tells_apart env n new old ≡ true
    → merged env n new old ++ beyond env n new old ≡ new
unfolding tells_apart merged beyond
merged-beyond env zero new old h = refl
merged-beyond env (suc n) new [] h = refl
merged-beyond env (suc n) new (y ∷ old) h =
    let now = take env.chunk_size new in
    let then_ = take env.chunk_size (y ∷ old) in
    let later = drop env.chunk_size new in
    let older = drop env.chunk_size (y ∷ old) in
    let here : told now then_ ≡ true = ground arith in
    let there : tells_apart env n later older ≡ true = ground arith in
    append_assoc (if stale now then_ then now else then_) (merged env n later older)
      (beyond env n later older)
    ∙ ap (λ (l : List ℕ). (if stale now then_ then now else then_) ++ l)
        (merged-beyond env n later older there)
    ∙ ap (λ (l : List ℕ). l ++ later) (told-piece now then_ here)
    ∙ take-append-drop env.chunk_size new

-- The merged part ends where the sender goes on.
pub length-merged :
    {U : Type 0} (env : Env U) (n : ℕ) (new old : List ℕ)
    → length (merged env n new old) + length (beyond env n new old) ≡ length new
unfolding merged beyond
length-merged env zero new old = omega arith
length-merged env (suc n) new [] = omega arith
length-merged env (suc n) new (y ∷ old) =
    let now = take env.chunk_size new in
    let then_ = take env.chunk_size (y ∷ old) in
    let later = drop env.chunk_size new in
    let older = drop env.chunk_size (y ∷ old) in
    let piece = if stale now then_ then now else then_ in
    omega (
      arith,
      length-append piece (merged env n later older),
      piece-size now then_,
      length-merged env n later older,
      length-take env.chunk_size new,
      length-drop env.chunk_size new,
    )
