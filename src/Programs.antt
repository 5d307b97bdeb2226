-- ===== src/Programs.antt =====
-- UFT/uft_client.cpp and UFT/uft_server.cpp: what the two programs share. What they print is left out.
pub mod UftClient
pub mod UftServer
pub mod Laws
pub mod Exits
pub mod Serving
pub mod SessionExits
pub mod ServerExits
use uft.Prelude.{
  ℕ, zero, suc, Option, none, some, List, ◌⊎◌, inl, Program, Outcome, ok, fail, crash, stuck,
}

-- An exit code: `pos n` is n, and `negsuc n` is -(n + 1).
pub data ℤ : Type 0 where
  pos : ℕ → ℤ
  negsuc : ℕ → ℤ

-- The C library: strtoul with base 10, inet_pton for IPv4 with the s_addr where it answers 1, and ntohl.
pub record Libc : Type 0 where
  pub strtoul : List ℕ → ℕ
  pub inet_pton : List ℕ → Option ℕ
  pub ntohl : ℕ → ℕ

-- main returns early where a TryGetValue answers false.
abbrev pub or_exit : {A B : Type 0} → ℤ → Option A → (A → ℤ ⊎ B) → ℤ ⊎ B
or_exit code none next = inl code
or_exit code (some a) next = next a

-- A call whose error code is only printed.
abbrev pub settle : {W A : Type 0} → Program W A → Program W (Unit {0})
settle m w = elim (m w) [
  | ok a w' ↦ ok tt w'
  | fail c w' ↦ ok tt w'
  | crash ↦ crash
  | stuck ↦ stuck
]
