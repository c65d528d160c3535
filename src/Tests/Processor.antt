-- ===== src/Tests/Processor.antt =====
-- The results on ARMv8/Interpreter.cpp and include/Util.hpp.
use nsemu.Common.{
  ◌+◌, ◌-◌, ◌*◌, ◌/◌, ◌%◌, ◌^◌, ◌<◌, ◌≡◌, refl, true, false, not, ◌&&◌, u32, u64, ltb, leb, ◌==◌,
  if◌then◌else◌, ok, arith,
}
use nsemu.Machine.{Arm, IsArm}
use nsemu.Util.{replicate64}
use nsemu.Util.Rounds.{replicate64_lem}
use nsemu.Cpu.{x, w}
use nsemu.Cpu.Alu.{OpType, arithmetic_logic}
use nsemu.Cpu.Arith.{sub_reg}
use nsemu.Cpu.Compare.{Compares, sub_reg-Compares}
use nsemu.Cpu.CompareNarrow.{sub_reg_narrow}
use nsemu.Cpu.Arith.Width.{arithmetic_logic-IsArm}
use nsemu.Cpu.Mul.{umul64, mul2_reg}
use nsemu.Cpu.Mul.Product.{umul64_lem, mul2_reg_lem}
use nsemu.Cpu.Bitfield.{sextract_i64}
use nsemu.Cpu.Bitfield.Extract.{Others, sextract_i64_lem}
use nsemu.Tests.Machines.{test_arm, test_arm-IsArm}

sub_reg-Compares_example :
    (a' : Arm) × (sub_reg 4 1 2 true true test_arm ≡ ok a')
    × (x a' 4 ≡ u64 (x test_arm 1 + 2 ^ 64 - x test_arm 2))
    × Compares (2 ^ 63) (leb (x test_arm 2) (x test_arm 1)) (x test_arm 1) (x test_arm 2) a'.nzcv
sub_reg-Compares_example = sub_reg-Compares 4 1 2 test_arm test_arm-IsArm (ground arith)

sub_reg_narrow_example :
    (a' : Arm) × (sub_reg 4 1 0 true false test_arm ≡ ok a')
    × (x a' 4 ≡ u32 (w test_arm 1 + 2 ^ 32 - w test_arm 0))
    × Compares
        (2 ^ 31)
        (leb (w test_arm 0) (w test_arm 1) && not (w test_arm 0 == 0))
        (w test_arm 1)
        (w test_arm 0)
        a'.nzcv
sub_reg_narrow_example = sub_reg_narrow 4 1 0 test_arm (ground arith)

umul64_lem_example :
    ((umul64 (2 ^ 64 - 1) (2 ^ 64 - 2)).0 ≡ (2 ^ 64 - 1) * (2 ^ 64 - 2) / 2 ^ 64)
    × ((umul64 (2 ^ 64 - 1) (2 ^ 64 - 2)).1 ≡ (2 ^ 64 - 1) * (2 ^ 64 - 2) % 2 ^ 64)
umul64_lem_example = umul64_lem (2 ^ 64 - 1) (2 ^ 64 - 2) (omega arith) (omega arith)

mul2_reg_lem_example :
    ((u : Arm) × (mul2_reg 4 5 1 2 false test_arm ≡ ok u)
      × (x u 4 ≡ x test_arm 1 * x test_arm 2 / 2 ^ 64)
      × (x u 5 ≡ x test_arm 1 * x test_arm 2 % 2 ^ 64))
    × ((s : Arm) × (mul2_reg 4 5 1 2 true test_arm ≡ ok s)
        × (x s 4 ≡ x test_arm 1 * x test_arm 2 % 2 ^ 64)
        × (x s 5 ≡ x test_arm 1 * x test_arm 2 / 2 ^ 64))
mul2_reg_lem_example = mul2_reg_lem 4 5 1 2 test_arm test_arm-IsArm (omega arith)

sextract_i64_lem_example :
    let field = x test_arm 2 / 2 ^ 60 % 2 ^ 4 in
    (a' : Arm) × (sextract_i64 4 2 60 4 true test_arm ≡ ok a')
    × (x a' 4 ≡ (if ltb field (2 ^ (4 - 1)) then field else field + (2 ^ 64 - 2 ^ 4)))
    × Others 4 test_arm a'
sextract_i64_lem_example =
    sextract_i64_lem 4 2 60 4 test_arm test_arm-IsArm (omega arith) (omega arith)

-- An addition, whose result the example names.
abbrev sum_arm : Arm
sum_arm = record test_arm { gpr = λ r. if r == 4 then 12 else test_arm.gpr r }

added : arithmetic_logic 4 7 5 false false OpType.add test_arm ≡ ok sum_arm
unfolding arithmetic_logic
added = refl

arithmetic_logic-IsArm_example : IsArm sum_arm × (false ≡ false → x sum_arm 4 < 2 ^ 32)
arithmetic_logic-IsArm_example =
    arithmetic_logic-IsArm 4 7 5 false false OpType.add test_arm {a' = sum_arm} test_arm-IsArm
      (omega arith) (omega arith) added

replicate64_lem_example : replicate64 0xa5 (2 ^ 3) ≡ ok (0xa5 * ((2 ^ 64 - 1) / (2 ^ (2 ^ 3) - 1)))
replicate64_lem_example = replicate64_lem 3 0xa5 (omega arith) (omega arith)
