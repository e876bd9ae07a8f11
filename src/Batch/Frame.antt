-- ===== src/Batch/Frame.antt =====
-- The parts of a batch that only read (sla_calculator/src/batch.rs).
use noc_iq_contracts.Base.{refl, List, [], ◌∷◌, arith}
use noc_iq_contracts.Types.{Address, Symbol}
use noc_iq_contracts.Storage.Frame.{Frame}
use noc_iq_contracts.Guards.{check_version, require_operator, require_not_paused}
use noc_iq_contracts.Batch.{BatchRequest, validate_requests, validate_batch, run_batch}

validate_requests-Frame :
    (seen : List Symbol) (reqs : List BatchRequest) → Frame (validate_requests seen reqs)
unfolding validate_requests
validate_requests-Frame seen [] = record { same = λ e s. refl }
validate_requests-Frame seen (req ∷ reqs) =
    let rest = validate_requests-Frame (req.outage_id ∷ seen) reqs in
    record { same = λ e s. ground (arith, rest.same e s) }

pub validate_batch-Frame : (reqs : List BatchRequest) → Frame (validate_batch reqs)
unfolding validate_batch
validate_batch-Frame reqs = record {
  same = λ e s. ground (arith, (validate_requests-Frame [] reqs).same e s);
}

pub run_batch-Frame : (reqs : List BatchRequest) → Frame (run_batch reqs)
unfolding run_batch
run_batch-Frame reqs = record { same = λ e s. ground arith }

pub check_version-Frame : Frame check_version
unfolding check_version
check_version-Frame = record { same = λ e s. ground arith }

pub require_operator-Frame : (c : Address) → Frame (require_operator c)
unfolding require_operator
require_operator-Frame c = record { same = λ e s. ground arith }

pub require_not_paused-Frame : Frame require_not_paused
unfolding require_not_paused
require_not_paused-Frame = record { same = λ e s. ground arith }
