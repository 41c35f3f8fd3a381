-- ===== src/Vt/Planbuilder/Kinds.antt =====
-- vt/tabletserver/planbuilder/plan_type.go: the plans and their names.
use cm.Common.{true, ◌≡◌, ◌≢◌, refl, ◌=?◌}
use cm.Vt.Planbuilder.{PlanType, plan_type_string, plan_by_name, plan_named, num_plans}

-- `PlanByName` finds the plan that `String` names, for every plan.
pub plan_by_name-plan_type_string :
    (p : PlanType) → p ≢ num_plans → plan_by_name (plan_type_string p) ≡ (p, true)
unfolding plan_by_name plan_named plan_type_string ◌=?◌
plan_by_name-plan_type_string num_plans h = absurd (h refl)
plan_by_name-plan_type_string p h = refl
