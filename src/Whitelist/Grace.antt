-- ===== src/Whitelist/Grace.antt =====
-- The grace period of a new service (sla_calculator/src/whitelist.rs).
use noc_iq_contracts.Base.{ℕ, ◌+◌, ◌<◌, ◌≡◌, ltb, some, if◌then◌else◌, ==_refl, arith}
use noc_iq_contracts.Base.Int.{ℤ, pos}
use noc_iq_contracts.Types.{Address, Symbol, u64_mod}
use noc_iq_contracts.AddressMap.{get-set}
use noc_iq_contracts.Effect.{ok}
use noc_iq_contracts.Whitelist.{
  AccessStore, registration, set_grace_period_duration, get_grace_period_duration, register_service,
  evaluate_outage_penalty_with_grace,
}

-- A service that the admin registers keeps the grace period of that time: after a later change of
-- the duration, a penalty of the service is 0 until the period that was stored has passed, and the
-- calculated one from then on, if the end of the period fits in 64 bits.
pub register_service-grace :
    (owner service : Address) (registered changed now duration : ℕ) (outage : Symbol) (penalty : ℤ)
    (s : AccessStore)
    → s.admin ≡ some owner
    → registered + get_grace_period_duration s < u64_mod
    → let t = (register_service owner service registered s).1 in
      let u = (set_grace_period_duration owner duration changed t).1 in
      (get_grace_period_duration u ≡ duration)
      × ((evaluate_outage_penalty_with_grace service outage penalty now u).0
          ≡ ok (if ltb now (registered + get_grace_period_duration s) then pos 0 else penalty))
unfolding register_service set_grace_period_duration evaluate_outage_penalty_with_grace
    get_grace_period_duration
register_service-grace owner service registered changed now duration outage penalty s own fits =
    ground (
      arith,
      ==_refl service,
      get-set service service (registration service registered (get_grace_period_duration s))
          s.registrations,
    )
