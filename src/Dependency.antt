-- ===== src/Dependency.antt =====
-- Sites that depend on a parent site, and outages that spread to them
-- (sla_calculator/src/dependency_propagation.rs).
pub mod Climb
pub mod Acyclic
pub mod Spread
pub mod Tests
use noc_iq_contracts.Base.{
  ℕ, zero, suc, ◌+◌, ◌%◌, ◌==◌, ◌||◌, not, Bool, true, false, Option, none, some, List, [], ◌∷◌,
  ◌++◌, length, any, str_eq, if◌then◌else◌, unwrap_or,
}
use noc_iq_contracts.Types.{Symbol, lookup, insert, u32_mod}
use noc_iq_contracts.Effect.{
  Outcome, ok, err, panic, Effect, ◌>>=◌, ◌>>◌, return_ok, reads, writes, refuse_if, kept,
}

abbrev pub status_operational : ℕ
status_operational = 0

abbrev pub status_degraded : ℕ
status_degraded = 1

abbrev pub status_down : ℕ
status_down = 2

pub data DependencyError : Type 0 where
  self_dependency cycle_detected : DependencyError

pub data DependencyEvent : Type 0 where
  depend : Symbol → Symbol → DependencyEvent

-- The storage keys; absent maps read as empty ones.
pub record SiteStore : Type 0 where
  pub parent_index : List (Symbol × Symbol)
  pub child_index : List (Symbol × List Symbol)
  pub manual_status_map : List (Symbol × ℕ)
  pub auto_flag_map : List (Symbol × Bool)
  pub events : List DependencyEvent

abbrev pub SiteCall : Type 0 → Type 0
SiteCall A = Effect SiteStore DependencyError A

-- The `while let` loop from `cursor` upwards; `none` means that the fuel ran out.
unfoldable pub ancestry_loop : ℕ → List (Symbol × Symbol) → Symbol → Option Symbol → Option Bool
ancestry_loop fuel parents target none = some false
ancestry_loop zero parents target (some current) = none
ancestry_loop (suc fuel) parents target (some current) =
    let rest = ancestry_loop fuel parents target (lookup current parents) in
    if str_eq current target then some true else rest

-- A climb without a cycle visits each key once, and then a site without a parent.
unfoldable pub ancestry_contains : Symbol → Symbol → SiteStore → Option Bool
ancestry_contains start target s =
    ancestry_loop (length s.parent_index + 2) s.parent_index target (some start)

abbrev pub would_create_cycle : Symbol → Symbol → SiteStore → Option Bool
would_create_cycle parent child s = ancestry_contains parent child s

-- A loop without an end exhausts the budget of the host, which aborts the call.
abbrev pub answered : Option Bool → SiteCall Bool
answered o now s = (elim o [ none ↦ panic | some b ↦ ok b ], s)

abbrev pub children_of : Symbol → SiteStore → List Symbol
children_of parent s = unwrap_or (lookup parent s.child_index) []

abbrev pub parent_of : Symbol → SiteStore → Option Symbol
parent_of child s = lookup child s.parent_index

-- `entries` with the child at the end, unless it stands there already.
abbrev pub with_child : Symbol → List Symbol → List Symbol
with_child child entries =
    if any (λ e. str_eq e child) entries then entries else entries ++ (child ∷ [])

unfoldable pub register_dependency : Symbol → Symbol → SiteCall (Unit {0})
register_dependency parent child = do
  refuse_if (str_eq parent child) self_dependency
  cyclic ← answered (← reads (would_create_cycle parent child))
  refuse_if cyclic cycle_detected
  writes (λ s. record s { parent_index = insert child parent s.parent_index })
  writes (λ s. record s {
    child_index = insert parent (with_child child (children_of parent s)) s.child_index;
  })
  writes (λ s. record s { events = s.events ++ (depend parent child ∷ []) })

abbrev pub manual_status : Symbol → SiteStore → ℕ
manual_status site s = unwrap_or (lookup site s.manual_status_map) status_operational

unfoldable pub report_status : Symbol → ℕ → SiteStore → SiteStore
report_status site status s = record s {
  manual_status_map = insert site status s.manual_status_map;
}

abbrev pub set_auto_flag : Symbol → Bool → SiteStore → SiteStore
set_auto_flag site flagged s = record s { auto_flag_map = insert site flagged s.auto_flag_map }

abbrev pub is_auto_degraded : Symbol → SiteStore → Bool
is_auto_degraded site s = unwrap_or (lookup site s.auto_flag_map) false

unfoldable pub site_status : Symbol → SiteStore → ℕ
site_status site s =
    let reported = manual_status site s in
    if reported == status_down
    then status_down
    else if is_auto_degraded site s
    then status_degraded
    else reported

-- The loop of `propagate_outage` over the children.
unfoldable pub flag_all : List Symbol → ℕ → SiteStore → ℕ × SiteStore
flag_all [] flagged s = (flagged, s)
flag_all (child ∷ rest) flagged s = elim (manual_status child s == status_down) [
  | true ↦ flag_all rest flagged s
  | false ↦ flag_all rest ((flagged + 1) % u32_mod) (set_auto_flag child true s)
]

unfoldable pub propagate_outage : Symbol → SiteStore → ℕ × SiteStore
propagate_outage parent s = flag_all (children_of parent s) 0 s

-- The loop of `clear_outage` over the children.
unfoldable pub clear_all : List Symbol → ℕ → SiteStore → ℕ × SiteStore
clear_all [] cleared s = (cleared, s)
clear_all (child ∷ rest) cleared s = elim (is_auto_degraded child s) [
  | true ↦ clear_all rest ((cleared + 1) % u32_mod) (set_auto_flag child false s)
  | false ↦ clear_all rest cleared s
]

unfoldable pub clear_outage : Symbol → SiteStore → ℕ × SiteStore
clear_outage parent s = clear_all (children_of parent s) 0 s

-- The calls that change the storage.
pub data SiteOrder : Type 0 where
  register_order : Symbol → Symbol → SiteOrder
  status_order : Symbol → ℕ → SiteOrder
  propagate_order clear_order : Symbol → SiteOrder

abbrev pub run_order : ℕ → SiteOrder → SiteStore → SiteStore
run_order now (register_order parent child) s = kept s (register_dependency parent child now s)
run_order now (status_order site status) s = report_status site status s
run_order now (propagate_order parent) s = (propagate_outage parent s).1
run_order now (clear_order parent) s = (clear_outage parent s).1
