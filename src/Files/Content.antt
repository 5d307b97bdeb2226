-- ===== src/Files/Content.antt =====
-- The content of a file after a write.
use uft.Prelude.{
  ℕ, ◌-◌, ◌≤◌, ◌≡◌, ap, arith, some, List, [], ◌++◌, length, drop, replicate, bytes_eq_self,
  length-append, take-append, drop-append, drop-drop, append-nil, drop_all, ◌⊎◌, inl, inr,
}
use uft.Files.{FilePath, Files, update, overlay}

pub update_self : (fs : Files) (p : FilePath) (c : List ℕ) → update fs p c p ≡ some c
update_self fs p c = ground (arith, bytes_eq_self p)

no_gap : (front l : List ℕ) → replicate {A = ℕ} (length front - length (front ++ l)) 0 ≡ []
no_gap front l =
    let e : length front - length (front ++ l) ≡ 0 = omega (arith, length-append front l) in
    ap (λ (k : ℕ). replicate {A = ℕ} k 0) e

drop-past :
    (old rest : List ℕ) (n : ℕ)
    → length old ≤ n
    → (length old ≡ n) ⊎ (rest ≡ [])
    → drop n (old ++ rest) ≡ rest
drop-past old rest n h (inl e) = rw (← e) (drop-append old rest)
drop-past old rest n h (inr e) = rw (e, append-nil) (drop_all n old h)

-- Writing behind `front`, over bytes as many or up to the end, keeps the rest.
pub overlay-append :
    (front old rest xs : List ℕ)
    → length old ≤ length xs
    → (length old ≡ length xs) ⊎ (rest ≡ [])
    → overlay (front ++ (old ++ rest)) (length front) xs ≡ front ++ (xs ++ rest)
overlay-append front old rest xs h d = rw (
  take-append,
  no_gap front (old ++ rest),
  ← drop-drop (length front) (length xs) (front ++ (old ++ rest)),
  drop-append front (old ++ rest),
  drop-past old rest (length xs) h d,
)
