-- ===== src/Prelude/Monad.antt =====
-- Programs with state, error codes and faults: the monad in which the session code is written.
use mathlib.Core.Bool.{Bool, true, false}

-- UFTSESSION_ERROR_CODES.
pub data Code : Type 0 where
  success remote_error access_denied : Code
  network_api_error network_would_block network_not_connected network_connection_lost : Code
  filesystem_file_not_found filesystem_open_stream_failed : Code

-- A call returns with a value, returns early with an error code, does what C++ leaves undefined,
-- aborts on an assertion or throws what nobody catches (`crash`), or has not ended within the fuel (`stuck`).
pub data Outcome (W : Type 0) (A : Type 0) : Type 0 where
  ok : A → W → Outcome W A
  fail : Code → W → Outcome W A
  crash : Outcome W A
  stuck : Outcome W A

abbrev pub Program : Type 0 → Type 0 → Type 0
Program W A = W → Outcome W A

module _ {W : Type 0} where
  abbrev pub pure : {A : Type 0} → A → Program W A
  pure a w = ok a w

  abbrev pub throw : {A : Type 0} → Code → Program W A
  throw c w = fail c w

  infixl 5 ◌>>=◌ ◌>>◌
  abbrev pub ◌>>=◌ : {A B : Type 0} → Program W A → (A → Program W B) → Program W B
  ◌>>=◌ m f w = elim (m w) [
    | ok a w' ↦ f a w'
    | fail c w' ↦ fail c w'
    | crash ↦ crash
    | stuck ↦ stuck
  ]

  abbrev pub ◌>>◌ : {A B : Type 0} → Program W A → Program W B → Program W B
  m >> k = m >>= λ _. k

  abbrev pub gets : {A : Type 0} → (W → A) → Program W A
  gets f w = ok (f w) w

  abbrev pub modify : (W → W) → Program W (Unit {0})
  modify f w = ok tt (f w)

  -- assert(b): the build keeps assertions.
  abbrev pub assert : Bool → Program W (Unit {0})
  assert true w = ok tt w
  assert false w = crash

  -- `finally m k` runs k on every way out of m, as a destructor does.
  abbrev pub finally : {A : Type 0} → Program W A → (W → W) → Program W A
  finally m k w = elim (m w) [
    | ok a w' ↦ ok a (k w')
    | fail c w' ↦ fail c (k w')
    | crash ↦ crash
    | stuck ↦ stuck
  ]
