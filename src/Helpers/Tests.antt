-- ===== src/Helpers/Tests.antt =====
-- Runs of the arithmetic helpers.
use noc_iq_contracts.Base.{◌≡◌, refl, arith}
use noc_iq_contracts.Helpers.{isqrt_loop, isqrt}
use noc_iq_contracts.Helpers.Root.{IsRoot, isqrt-IsRoot}

isqrt_99 : isqrt 99 ≡ 9
unfolding isqrt isqrt_loop
isqrt_99 = refl

isqrt-IsRoot_example : IsRoot 99 (isqrt 99)
isqrt-IsRoot_example = isqrt-IsRoot 99 (omega arith)
