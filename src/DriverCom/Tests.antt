-- ===== src/DriverCom/Tests.antt =====
-- The theorems on the list of hooked drivers at a small table.
use irpmon.Common.{List, [], ◌∷◌, All, arith, map, not, ◌==◌}
use irpmon.Kernel.{Pool}
use irpmon.Hook.Enumerate.{ListedDriver, enumerate}
use irpmon.Hook.Enumerate.Bounds.{devices_total, drivers_total}
use irpmon.Hook.Enumerate.Layout.{HaveDevices}
use irpmon.Hook.Enumerate.Tests.{sizes, listed_driver, two}
use irpmon.DriverCom.{hooked_objects_enumerate}
use irpmon.DriverCom.Memory.{Released, hooked_objects-Released}
use irpmon.DriverCom.Snapshot.{Gives, seen_driver, hooked_objects-Gives}

-- A heap that refuses the fourth request, and has the block of the driver's answer.
abbrev heap : Pool
heap = record { grants = λ n b. not (n == 3); asked = 0; live = 1 }

abbrev table : List ListedDriver
table = listed_driver two ∷ listed_driver two ∷ []

hooked_objects-Gives_example :
    Gives heap.grants
      (map seen_driver table)
      (hooked_objects_enumerate 8 sizes.objects_info (enumerate sizes table 512).2 heap)
unfolding drivers_total devices_total HaveDevices All
hooked_objects-Gives_example =
    hooked_objects-Gives 8 sizes table 512 heap (omega arith) (omega arith)
      (omega arith, (omega arith, tt))

hooked_objects-Released_example :
    Released 0 (hooked_objects_enumerate 8 sizes.objects_info (enumerate sizes table 512).2 heap)
unfolding drivers_total devices_total HaveDevices All
hooked_objects-Released_example =
    hooked_objects-Released 8 sizes table 512 heap (λ e. absurd (omega arith)) (omega arith)
      (omega arith) (omega arith, (omega arith, tt)) (omega arith)
