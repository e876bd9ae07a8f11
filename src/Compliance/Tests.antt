-- ===== src/Compliance/Tests.antt =====
-- Compliance and months on concrete dates.
use noc_iq_contracts.Base.{◌≡◌, refl}
use noc_iq_contracts.Compliance.{start_timestamp}

-- 1 March 2024, after a leap day.
start_of_march : start_timestamp 2024 3 ≡ 1709251200
unfolding start_timestamp
start_of_march = refl
