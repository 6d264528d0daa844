-- ===== src/Recovery/Run.antt =====
-- internal/recovery/recovery.go: the deletions of a whole run of `Apply`.
use k8s_recommendation_engin.Prelude.{
  ℕ, ◌≡◌, ◌⊎◌, refl, Bool, true, Option, none, some, List, [], ◌∷◌, ◌==◌, if◌then◌else◌, Bool-cases,
  Option-cases, inl, inr,
}
use k8s_recommendation_engin.Report.{WorkloadReport, Report}
use k8s_recommendation_engin.Profile.{WorkloadSpec, ApplicationProfile, spec_named}
use k8s_recommendation_engin.Recovery.Justified.{IsRecovered, recover_workload-IsRecovered}
use k8s_recommendation_engin.Recovery.{
  Options, World, Effect, Environment, recover_workload, workload_effect, go_on, apply_from, apply,
}

-- The worlds that a run over a report's workloads passes through, each step for a workload of the
-- list that is in an emergency and that the profile names.
pub data IsRun {F : Type 0} (env : Environment) (clock now : ℕ) (options : Options)
    (specs : List WorkloadSpec) (report : Report F)
    : List (WorkloadReport F) → World → World → Type 0 where
  finished :
      (workloads : List (WorkloadReport F)) (world : World)
      → IsRun env clock now options specs report workloads world world
  passed_over :
      (workload : WorkloadReport F) (workloads : List (WorkloadReport F)) (before after : World)
      → IsRun env clock now options specs report workloads before after
      → IsRun env clock now options specs report (workload ∷ workloads) before after
  recovered :
      (workload : WorkloadReport F) (workloads : List (WorkloadReport F)) (spec : WorkloadSpec)
      (before middle after : World)
      → workload.availability.emergency ≡ true
      → spec_named specs workload.name ≡ some spec
      → IsRecovered env clock now options spec.policy.availability_recovery report workload before
          middle
      → IsRun env clock now options specs report workloads middle after
      → IsRun env clock now options specs report (workload ∷ workloads) before after

module _ {F : Type 0} (env : Environment) (clock now : ℕ) (options : Options)
    (specs : List WorkloadSpec) (report : Report F) where
  abbrev effect_of : WorkloadReport F → World → Option Effect
  effect_of workload world = workload_effect env options clock now specs report workload world

  abbrev world_after : List (WorkloadReport F) → World → World
  world_after workloads world = (apply_from env options clock now specs report workloads world).2

  workload_effect-cases :
      (workload : WorkloadReport F) (world : World)
      → (effect_of workload world ≡ none)
        ⊎ ((spec : WorkloadSpec) × (workload.availability.emergency ≡ true)
            × (spec_named specs workload.name ≡ some spec)
            × (effect_of workload world
                ≡ some (
                    recover_workload env options clock now spec.policy.availability_recovery report
                      workload world)))
  unfolding workload_effect
  workload_effect-cases workload world = elim (Bool-cases workload.availability.emergency) [
    | inr calm ↦ inl (simp calm refl)
    | inl urgent ↦ elim (Option-cases (spec_named specs workload.name)) [
      | inl unnamed ↦ inl (simp (urgent, unnamed) refl)
      | inr (spec, named) ↦ inr (spec, urgent, named, simp (urgent, named) refl)
    ]
  ]

  go_on-IsRun :
      (workload : WorkloadReport F) (workloads : List (WorkloadReport F)) (effect : Effect)
      (rest : Bool × List (WorkloadReport F) × World)
      → IsRun env clock now options specs report workloads effect.world rest.2
      → IsRun env clock now options specs report workloads effect.world
          (go_on workload workloads (some effect) rest).2
  unfolding go_on
  go_on-IsRun workload workloads effect rest run = elim (Bool-cases effect.failed) [
    | inl broken ↦ rw broken (finished workloads effect.world)
    | inr fine ↦ rw fine run
  ]

  apply_from-IsRun :
      (workloads : List (WorkloadReport F)) (world : World)
      → IsRun env clock now options specs report workloads world (world_after workloads world)
  unfolding apply_from go_on
  apply_from-IsRun [] world = finished [] world
  apply_from-IsRun (workload ∷ workloads) world = elim (workload_effect-cases workload world) [
    | inl skipped ↦
        rw (skipped, world_after)
          (passed_over workload workloads world (world_after workloads world)
            (apply_from-IsRun workloads world))
    | inr (spec, urgent, named, done) ↦
        let effect =
          recover_workload env options clock now spec.policy.availability_recovery report workload
            world in
        rw (done, world_after)
          (recovered workload workloads spec world effect.world _ urgent named
            (recover_workload-IsRecovered env clock now options spec.policy.availability_recovery
              report workload world)
            (go_on-IsRun workload workloads effect _ (apply_from-IsRun workloads effect.world)))
  ]

-- Every deletion that recovery asks for follows from the report, the profile and the live pod: the
-- worlds from the start of `Apply` to its end, also where it returns an error, are a run in which
-- each workload in an emergency is left alone or loses one pod. That pod needs live recovery to be
-- enabled in the options and in the workload's policy, a failure in the report's list for the workload
-- that has a time and has lasted the grace period, a live pod of the same name, with the same UID if
-- the list names one, that a ReplicaSet of apps/v1 controls and whose container has been failing for
-- the grace period, and a reservation granted for it.
pub apply-IsRun :
    {F : Type 0} (env : Environment) (clock : ℕ) (profile : ApplicationProfile) (report : Report F)
    (options : Options) (world : World)
    → IsRun env clock
        (if options.now == 0 then clock else options.now)
        options
        profile.workloads
        report
        report.workloads
        world
        (apply env clock profile report options world).2
unfolding apply
apply-IsRun env clock profile report options world =
    apply_from-IsRun env clock (if options.now == 0 then clock else options.now) options
      profile.workloads report report.workloads world
