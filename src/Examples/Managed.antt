-- ===== src/Examples/Managed.antt =====
-- The examples of UFT.DotNET/main.cpp.
use uft.Prelude.{◌+◌, ◌≡◌, refl, arith, false, [], codes, if◌then◌else◌}
use uft.World.{World}
use uft.BitConverter.Order.{big_endian}
use uft.Client.{connect_client}
use uft.DotNet.{Managed, managed_send_reporting, managed_receive_reporting, managed_connect}
use uft.DotNet.Laws.{managed_connect_lem, managed_reporting_leaks}
use uft.Session.Transmit.{send_file, receive_file}
use uft.Socket.{new_context}
use uft.Examples.{Net, env, disk, session}

abbrev fresh : World Net
fresh = record (session [] (disk [] [])) { sock = new_context; refs = 3 }

managed_connect_example :
    managed_connect env (big_endian 4 2130706433) 9000 fresh
    ≡ connect_client env 2130706433 9000 fresh
managed_connect_example =
    managed_connect_lem env 2130706433 9000 fresh (omega arith) (omega arith) refl

abbrev before : Managed Net
before = record { world = fresh; handles = 0 }

abbrev leaked : Managed Net
leaked = record { world = fresh; handles = 2 }

managed_reporting_leaks_example :
    (leaked.handles ≡ before.handles + (if false then 0 else 2))
    × (leaked.handles ≡ before.handles + (if false then 0 else 2))
unfolding managed_send_reporting managed_receive_reporting send_file receive_file
managed_reporting_leaks_example =
    managed_reporting_leaks env (codes "a") (codes "b") false false before leaked leaked refl refl
