-- ===== src/CmdLineArgs/Parse.antt =====
-- What the constructor of CmdLineArgs in UFT/CmdLineArgs.hpp makes of --key=value arguments.
use uft.Prelude.{
  ℕ, suc, ◌+◌, ◌-◌, ◌≡◌, refl, ap, arith, Bool, true, not, ◌&&◌, List, [], ◌∷◌, ◌++◌, map, length,
  some, ◌==◌, take-append, ◌∙◌, Option, none, bytes_eq, bytes_eq→eq, Bool-cases, inl, inr,
}
use uft.CmdLineArgs.{
  Args, find, try_get_value, emplace, char_at, unquote, scan, parse_arg, parse_args,
}

-- No byte is '='.
abbrev pub plain : List ℕ → Bool
plain [] = true
plain (b ∷ bs) = not (b == 61) && plain bs

abbrev pub plain_pairs : Args → Bool
plain_pairs [] = true
plain_pairs ((name, value) ∷ args) = (plain name && plain value) && plain_pairs args

-- --name=value
abbrev pub render : List ℕ × List ℕ → List ℕ
render (name, value) = 45 ∷ 45 ∷ (name ++ (61 ∷ value))

abbrev pub emplace_all : Args → Args → Args
emplace_all [] args = args
emplace_all ((name, value) ∷ more) args = emplace_all more (emplace name value args)

char_at-length : (xs : List ℕ) → char_at xs (length xs) ≡ 0
unfolding char_at
char_at-length [] = refl
char_at-length (x ∷ xs) = char_at-length xs

-- Quotes stay.
unquote_lem : (value : List ℕ) → unquote value ≡ value
unfolding unquote
unquote_lem value = ground (arith, char_at-length value)

scan-plain :
    (arg : List ℕ) (j : ℕ) (bs : List ℕ) (args : Args)
    → plain bs ≡ true
    → scan arg j bs args ≡ some args
unfolding scan
scan-plain arg j [] args h = refl
scan-plain arg j (b ∷ bs) args h = ground (arith, scan-plain arg (suc j) bs args)

scan-append :
    (arg : List ℕ) (j : ℕ) (name rest : List ℕ) (args : Args)
    → plain name ≡ true
    → scan arg j (name ++ rest) args ≡ scan arg (j + length name) rest args
unfolding scan
scan-append arg j [] rest args h = ap (λ (k : ℕ). scan arg k rest args) (omega arith)
scan-append arg j (b ∷ name) rest args h =
    let e : suc j + length name ≡ j + suc (length name) = omega arith in
    ground (arith, scan-append arg (suc j) name rest args)

scan-equals :
    (name value : List ℕ) (args : Args)
    → plain value ≡ true
    → scan (render (name, value)) (2 + length name) (61 ∷ value) args
      ≡ some (emplace name value args)
unfolding scan
scan-equals name value args h =
    let count : 2 + length name - 2 ≡ length name = omega arith in
    ground (
      arith,
      unquote_lem value,
      take-append name (61 ∷ value),
      scan-plain (render (name, value)) (suc (2 + length name)) value (emplace name value args),
    )

parse_arg-render :
    (name value : List ℕ) (args : Args)
    → plain name ≡ true
    → plain value ≡ true
    → parse_arg (render (name, value)) args ≡ some (emplace name value args)
unfolding parse_arg scan
parse_arg-render name value args h k = ground (
  arith,
  scan-append (render (name, value)) 2 name (61 ∷ value) args,
  scan-equals name value args,
)

-- The constructor of CmdLineArgs on arguments --name=value whose names and values have no '=': it
-- ends well, and the map is what emplacing the pairs in order gives, each value with its quotes,
-- if it has any.
pub parse_args-render :
    (pairs args : Args)
    → plain_pairs pairs ≡ true
    → parse_args (map render pairs) args ≡ some (emplace_all pairs args)
unfolding parse_args
parse_args-render [] args h = refl
parse_args-render ((name, value) ∷ pairs) args h =
    ground
      (arith, parse_arg-render name value args, parse_args-render pairs (emplace name value args))

abbrev or_else : {A : Type 0} → Option A → Option A → Option A
or_else none other = other
or_else (some a) other = some a

find-append :
    (key : List ℕ) (args more : Args)
    → find key (args ++ more) ≡ or_else (find key args) (find key more)
unfolding find
find-append key [] more = refl
find-append key ((name, value) ∷ args) more = let rest = find-append key args more in ground arith

-- An entry that is there already stays.
emplace_step :
    (key name value : List ℕ) (args : Args) (o : Option (List ℕ))
    → find name args ≡ o
    → find key (emplace name value args) ≡ or_else (find key args) (find key ((name, value) ∷ []))
unfolding emplace find
emplace_step key name value args none e =
    let added = find-append key args ((name, value) ∷ []) in ground arith
emplace_step key name value args (some v) e = elim (Bool-cases (bytes_eq key name)) [
  | inl same ↦
      let there = ap (λ (k : List ℕ). find k args) (bytes_eq→eq key name same) ∙ e in ground arith
  | inr other ↦ ground arith
]

find-emplace_all :
    (key : List ℕ) (pairs args : Args)
    → find key (emplace_all pairs args) ≡ or_else (find key args) (find key pairs)
unfolding find
find-emplace_all key [] args = ground arith
find-emplace_all key ((name, value) ∷ pairs) args =
    let rest = find-emplace_all key pairs (emplace name value args) in
    let first = emplace_step key name value args (find name args) refl in ground arith

-- TryGetValue on what the constructor answers.
abbrev pub get_from : {A : Type 0} → (List ℕ → A) → List ℕ → Option Args → Option A
get_from of_string key none = none
get_from of_string key (some args) = try_get_value of_string key args

-- TryGetValue on what the constructor of CmdLineArgs makes of arguments --name=value whose names
-- and values have no '=' finds for every key, whatever type it converts to, what it finds in the
-- list of the pairs: the value of the first that has this name, with its quotes, if it has any.
pub parse_args-try_get_value :
    {A : Type 0} (of_string : List ℕ → A) (key : List ℕ) (pairs : Args)
    → plain_pairs pairs ≡ true
    → get_from of_string key (parse_args (map render pairs) []) ≡ try_get_value of_string key pairs
unfolding try_get_value find
parse_args-try_get_value of_string key pairs h =
    let whole = parse_args-render pairs [] h in
    let found = find-emplace_all key pairs [] in ground arith
