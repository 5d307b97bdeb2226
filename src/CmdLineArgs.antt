-- ===== src/CmdLineArgs.antt =====
-- UFT/CmdLineArgs.hpp: the arguments of a command line as a map. Arguments, keys and values are
-- their bytes; the map is a list of which a key's first entry counts, since emplace keeps it.
pub mod Parse
use uft.Prelude.{
  ℕ, zero, suc, ◌-◌, ◌%◌, ◌^◌, Bool, true, false, ◌&&◌, List, [], ◌∷◌, ◌++◌, length, take, drop,
  Option, none, some, ltb, ◌==◌, bytes_eq, if◌then◌else◌,
}
use uft.Session.{c_string}

abbrev pub Args : Type 0
Args = List (List ℕ × List ℕ)

unfoldable pub find : List ℕ → Args → Option (List ℕ)
find key [] = none
find key ((name, value) ∷ args) = if bytes_eq key name then some value else find key args

unfoldable pub emplace : List ℕ → List ℕ → Args → Args
unfolding find
emplace name value args = elim (find name args) [
  | none ↦ args ++ ((name, value) ∷ [])
  | some v ↦ args
]

-- string[i], which is 0 at the string's length.
unfoldable pub char_at : List ℕ → ℕ → ℕ
char_at [] i = 0
char_at (b ∷ bs) zero = b
char_at (b ∷ bs) (suc i) = char_at bs i

-- The source looks for the closing quote behind the value's last byte.
unfoldable pub unquote : List ℕ → List ℕ
unfolding char_at
unquote value =
    if char_at value 0 == 34 && char_at value (length value) == 34
    then take (length value - 2) (drop 1 value)
    else value

-- The loop over j, at the bytes from j on; `none` where the length j - 2 wraps around, which the
-- constructor of std::string refuses.
unfoldable pub scan : List ℕ → ℕ → List ℕ → Args → Option Args
unfolding unquote emplace
scan arg j [] args = some args
scan arg j (b ∷ bs) args =
    let next = scan arg (suc j) bs in
    if b == 61
    then (if ltb j 2 then none else next (emplace (take (j - 2) (drop 2 arg)) (unquote bs) args))
    else next args

-- An argument of the constructor, and all behind the program's name.
unfoldable pub parse_arg : List ℕ → Args → Option Args
unfolding scan
parse_arg arg args = if ltb (length arg) 2 then some args else scan arg 1 (drop 1 arg) args

unfoldable pub parse_args : List (List ℕ) → Args → Option Args
unfolding parse_arg
parse_args [] args = some args
parse_args (arg ∷ rest) args = elim (parse_arg arg args) [
  | none ↦ none
  | some args' ↦ parse_args rest args'
]

-- TryGetValue, with GetValueFromString as an argument: `none` for false, where the value stays.
unfoldable pub try_get_value : {A : Type 0} → (List ℕ → A) → List ℕ → Args → Option A
unfolding find
try_get_value of_string key args = elim (find key args) [
  | none ↦ none
  | some value ↦ some (of_string value)
]

-- GetValueFromString for std::uint16_t and std::uint32_t, over strtoul with base 10.
abbrev pub to_u16 : (List ℕ → ℕ) → List ℕ → ℕ
to_u16 strtoul string = strtoul (c_string string) % 2 ^ 16

abbrev pub to_u32 : (List ℕ → ℕ) → List ℕ → ℕ
to_u32 strtoul string = strtoul (c_string string) % 2 ^ 32
