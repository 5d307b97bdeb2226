-- ===== src/Prelude/Keeps.antt =====
-- What programs do to the state, whatever they answer: one rule for each way to build a program.
use mathlib.Core.Bool.{Bool, true, false}
use Prim.Native.Nat.{ℕ, zero, suc}
use mathlib.Core.List.{List, [], ◌∷◌}
use mathlib.Core.Option.{Option, none, some}
use uft.Prelude.Tests.{if◌then◌else◌}
use uft.Prelude.Monad.{Code, Outcome, ok, fail, crash, stuck, Program, pure, throw, ◌>>=◌, gets}

-- What holds of the state that a program leaves: `Q` with a value, `P` with an error code. Where it
-- does not end, `S` holds.
abbrev pub After : {W A : Type 0} → Type 0 → (W → Type 0) → (W → Type 0) → Outcome W A → Type 0
After S P Q (ok a w) = Q w
After S P Q (fail c w) = P w
After S P Q crash = Unit
After S P Q stuck = S

-- From a state where `P` holds, `m` ends so.
pub record Leads {W A : Type 0} (S : Type 0) (P Q : W → Type 0) (m : Program W A) : Type 0 where
  pub at : (w : W) → P w → After S P Q (m w)

-- An invariant, of a program that may not end.
abbrev pub Stays : {W A : Type 0} → (W → Type 0) → Outcome W A → Type 0
Stays P o = After Unit P P o

abbrev pub Keeps : {W A : Type 0} → (W → Type 0) → Program W A → Type 0
Keeps P m = Leads Unit P P m

module _ {W A : Type 0} {S : Type 0} {P : W → Type 0} where
  pub Leads-pure : (a : A) → Leads S P P (pure {W = W} a)
  Leads-pure a = record { at = λ w h. h }

  pub Leads-gets : (f : W → A) → Leads S P P (gets f)
  Leads-gets f = record { at = λ w h. h }

module _ {W A : Type 0} {S : Type 0} {P Q : W → Type 0} where
  pub Leads-throw : (c : Code) → Leads S P Q (throw {W = W} {A = A} c)
  Leads-throw c = record { at = λ w h. h }

  pub Leads-crash : Leads {W = W} {A = A} S P Q (λ w. crash)
  Leads-crash = record { at = λ w h. tt }

  pub Leads-stuck : ((w : W) → P w → S) → Leads {W = W} {A = A} S P Q (λ w. stuck)
  Leads-stuck never = record { at = never }

  pub Leads-test :
      (b : Bool) (m n : Program W A)
      → Leads S P Q m
      → Leads S P Q n
      → Leads S P Q (elim b as (λ x. Program W A) [ false ↦ n | true ↦ m ])
  Leads-test true m n km kn = km
  Leads-test false m n km kn = kn

  pub Leads-if :
      (b : Bool) (m n : Program W A)
      → Leads S P Q m
      → Leads S P Q n
      → Leads S P Q (if◌then◌else◌ b m n)
  Leads-if true m n km kn = km
  Leads-if false m n km kn = kn

After-weaken :
    {W A : Type 0} (S : Type 0) (P Q R : W → Type 0) (o : Outcome W A)
    → ((w : W) → R w → Q w)
    → After S P R o
    → After S P Q o
After-weaken S P Q R (ok a w) more h = more w h
After-weaken S P Q R (fail c w) more h = h
After-weaken S P Q R crash more h = h
After-weaken S P Q R stuck more h = h

After-failing :
    {W A : Type 0} (S : Type 0) (P Q R : W → Type 0) (o : Outcome W A)
    → ((w : W) → R w → P w)
    → After S R Q o
    → After S P Q o
After-failing S P Q R (ok a w) more h = h
After-failing S P Q R (fail c w) more h = more w h
After-failing S P Q R crash more h = h
After-failing S P Q R stuck more h = h

module _ {W A : Type 0} {S : Type 0} {P Q R : W → Type 0} where
  pub Leads-weaken : (m : Program W A) → ((w : W) → R w → Q w) → Leads S P R m → Leads S P Q m
  Leads-weaken m more k = record { at = λ w h. After-weaken S P Q R (m w) more (k.at w h) }

module _ {W A B : Type 0} {S : Type 0} {P Q R : W → Type 0} where
  pub After-then :
      (o : Outcome W A) (f : A → Program W B) (w : W)
      → ((w : W) → R w → P w)
      → After S P R o
      → ((a : A) → Leads S R Q (f a))
      → After S P Q (◌>>=◌ (λ _. o) f w)
  After-then (ok a w') f w more h k = After-failing S P Q R (f a w') more ((k a).at w' h)
  After-then (fail c w') f w more h k = h
  After-then crash f w more h k = tt
  After-then stuck f w more h k = h

  -- A first part that leads to what is left to the second.
  pub Leads-then :
      (m : Program W A) (f : A → Program W B)
      → ((w : W) → R w → P w)
      → Leads S P R m
      → ((a : A) → Leads S R Q (f a))
      → Leads S P Q (m >>= f)
  Leads-then m f more km kf = record { at = λ w h. After-then (m w) f w more (km.at w h) kf }

module _ {W A B : Type 0} {S : Type 0} {P Q : W → Type 0} where
  pub Leads-bind :
      (m : Program W A) (f : A → Program W B)
      → Leads S P P m
      → ((a : A) → Leads S P Q (f a))
      → Leads S P Q (m >>= f)
  Leads-bind m f km kf = Leads-then m f (λ w h. h) km kf

module _ {W A B : Type 0} {S : Type 0} {P Q : W → Type 0} where
  pub Leads-case :
      (o : Option A) (m : Program W B) (f : A → Program W B)
      → Leads S P Q m
      → ((a : A) → Leads S P Q (f a))
      → Leads S P Q (elim o as (λ x. Program W B) [ none ↦ m | some a ↦ f a ])
  Leads-case none m f km kf = km
  Leads-case (some a) m f km kf = kf a

module _ {W B : Type 0} {S : Type 0} {P Q : W → Type 0} where
  pub Leads-count :
      (n : ℕ) (m : Program W B) (f : ℕ → Program W B)
      → Leads S P Q m
      → ((k : ℕ) → Leads S P Q (f k))
      → Leads S P Q (elim n as (λ x. Program W B) [ zero ↦ m | suc k ↦ f k ])
  Leads-count zero m f km kf = km
  Leads-count (suc k) m f km kf = kf k

  pub Leads-list :
      {A : Type 0} (l : List A) (m : Program W B) (f : A → List A → Program W B)
      → Leads S P Q m
      → ((x : A) (xs : List A) → Leads S P Q (f x xs))
      → Leads S P Q (elim l as (λ y. Program W B) [ [] ↦ m | x ∷ xs ↦ f x xs ])
  Leads-list [] m f km kf = km
  Leads-list (x ∷ xs) m f km kf = kf x xs

module _ {W B : Type 0} {S : Type 0} {P Q : W → Type 0} where
  -- A test on what a program answers.
  pub Leads-bind-test :
      (m : Program W Bool) (f : Bool → Program W B)
      → Leads S P P m
      → Leads S P Q (f true)
      → Leads S P Q (f false)
      → Leads S P Q (m >>= f)
  Leads-bind-test m f km kt kf =
      Leads-bind m f km λ b. elim b as (λ x. Leads S P Q (f x)) [ true ↦ kt | false ↦ kf ]

module _ {W B : Type 0} {S : Type 0} {P Q : W → Type 0} where
  -- A test of the state itself.
  pub Leads-state-test :
      (t : W → Bool) (m n : Program W B)
      → Leads S P Q m
      → Leads S P Q n
      → Leads S P Q (gets t >>= λ b. elim b as (λ x. Program W B) [ false ↦ n | true ↦ m ])
  Leads-state-test t m n km kn = record { at = λ w h. (Leads-test (t w) m n km kn).at w h }

module _ {W A B : Type 0} {S : Type 0} {P Q : W → Type 0} where
  -- What is read from the state, whatever it is.
  pub Leads-state :
      (t : W → A) (f : A → Program W B) → ((a : A) → Leads S P Q (f a)) → Leads S P Q (gets t >>= f)
  Leads-state t f kf = record { at = λ w h. (kf (t w)).at w h }

pub ruleset leads_rules = (
  Leads-pure, Leads-throw, Leads-gets, Leads-crash, Leads-test, Leads-bind, Leads-case, Leads-count,
  Leads-list, Leads-bind-test,
)
