-- ===== src/ByteBuffer/Tests.antt =====
-- Runs of UFT/ByteBuffer.hpp.
use uft.Prelude.{◌≡◌, refl, [], ◌∷◌}
use uft.BitConverter.{store, load, host_to_network32, network_to_host32}
use uft.ByteBuffer.{of_memory, read_bytes, read_u32, got, write_bytes, write_u32, wrote, create}

read_u32_runs :
    read_u32 (of_memory (0 ∷ 0 ∷ 1 ∷ 2 ∷ 9 ∷ []))
    ≡ got 258 (record { buffer = 0 ∷ 0 ∷ 1 ∷ 2 ∷ 9 ∷ []; offset_r = 4; offset_w = 5 })
unfolding read_u32 of_memory read_bytes load network_to_host32
read_u32_runs = refl

write_u32_runs :
    write_u32 258 (create 5)
    ≡ wrote (record { buffer = 0 ∷ 0 ∷ 1 ∷ 2 ∷ 0 ∷ []; offset_r = 0; offset_w = 4 })
unfolding write_u32 create write_bytes store host_to_network32
write_u32_runs = refl
