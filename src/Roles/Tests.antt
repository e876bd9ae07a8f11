-- ===== src/Roles/Tests.antt =====
-- Handovers of the two roles.
use noc_iq_contracts.Base.{◌≡◌, refl, some, none, arith}
use noc_iq_contracts.Storage.{Storage, ok, err, commit}
use noc_iq_contracts.Fixtures.{at_time, ready}
use noc_iq_contracts.Roles.{propose_admin, accept_admin, propose_operator}
use noc_iq_contracts.Roles.Handover.{outcome, propose_admin-accept_admin}
use noc_iq_contracts.Types.{no_pending_transfer}

abbrev proposed : Storage
proposed = (propose_admin 1 7 (at_time 2000) ready).1

proposes : propose_admin 1 7 (at_time 2000) ready ≡ (ok tt, proposed)
unfolding propose_admin
proposes = refl

-- One second after the window nobody is admitted.
accept_admin_late : (accept_admin 7 (at_time 606801) proposed).0 ≡ err no_pending_transfer
unfolding propose_admin accept_admin
accept_admin_late = refl

propose_admin-accept_admin_example :
    let after = commit proposed (accept_admin 7 (at_time 3000) proposed) in
    ((accept_admin 7 (at_time 3000) proposed).0 ≡ outcome 7 7 2000 3000)
    × (after.admin ≡ some 7)
    × (after.pending_admin ≡ none)
propose_admin-accept_admin_example =
    propose_admin-accept_admin 1 7 7 (at_time 2000) (at_time 3000) ready proposed proposes
      (omega arith) (omega arith)

abbrev invited : Storage
invited = (propose_operator 1 8 (at_time 2000) ready).1

invites : propose_operator 1 8 (at_time 2000) ready ≡ (ok tt, invited)
unfolding propose_operator
invites = refl
