-- ===== src/BitConverter/Tests.antt =====
-- Runs of UFT/BitConverter.hpp at fixed words.
use uft.Prelude.{◌≡◌, refl}
use uft.BitConverter.{flip16, flip32, flip64}

flip16_runs : flip16 0x1234 ≡ 0x3412
unfolding flip16
flip16_runs = refl

flip32_runs : flip32 0x12345678 ≡ 0x78563412
unfolding flip32
flip32_runs = refl

flip64_runs : flip64 0x0102030405060708 ≡ 0x0807060504030201
unfolding flip64
flip64_runs = refl
