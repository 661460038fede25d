-- ===== src/Circuit/Examples.antt =====
-- The circuit's theorems at concrete clearances, over the scalar field of BLS12-381.
use dzta.Prelude.{◌≡◌, ◌↔◌, ◌≤◌, ◌+◌, ok, true, arith}
use dzta.Interfaces.Witnesses.Zmod.{fr, reduce}
use dzta.Interfaces.Witnesses.Systems.{listed}
use dzta.Circuit.{check_satisfied}
use dzta.Circuit.Synthesis.{assigned}
use dzta.Circuit.Clearance.{check_satisfied-levels_iff}

check_satisfied-levels_iff_example :
    (check_satisfied fr listed
        (assigned (fr.from_u64 5) (reduce 7) (reduce 11) (fr.from_u64 3) (reduce 385))
      ≡ ok true)
    ↔ ((3 ≤ 5)
        × (5 ≤ 3 + 255)
        × (fr.mul (fr.mul (reduce 11) (fr.from_u64 5)) (reduce 7) ≡ reduce 385))
check_satisfied-levels_iff_example =
    check_satisfied-levels_iff fr listed (omega arith) 5 3 (reduce 7) (reduce 11) (reduce 385)
      (omega arith) (omega arith)
