-- ===== src/Budget/Spent.antt =====
-- internal/state/proposal_budget.go: the budgets, measured by the times of the events.
use mathlib.Core.Path.{subst}
use k8s_recommendation_engin.Prelude.{
  ℕ, sym, ap, ◌∙◌, ◌+◌, ◌-◌, ◌*◌, ◌/◌, ◌≤◌, ◌≡◌, refl, arith, String, Bool, true, false, not, ◌&&◌,
  ◌||◌, Option, none, some, List, [], ◌∷◌, str_eq, ltb, leb, ◌==◌, All, map, is_empty, Bool-cases,
  inl, inr, count_by, if◌then◌else◌,
}
use k8s_recommendation_engin.Stamp.{format_nano, parse_stamp, stamp_ge, second, hour}
use k8s_recommendation_engin.Stamp.Order.{format_nano-compare_seconds}
use k8s_recommendation_engin.Stamp.RoundTrip.{parse_stamp-format_nano}
use k8s_recommendation_engin.Report.{PatchPlan, patch_plan_applyable, WorkloadReport, Report}
use k8s_recommendation_engin.Profile.{PolicySpec, WorkloadSpec, ApplicationProfile, spec_named}
use k8s_recommendation_engin.Budget.Increase.{Numerics, availability_recovery_plan}
use k8s_recommendation_engin.Budget.{
  ProposalEvent, ProposalStatus, failed, blocked, pushed, local_commit, patch, created, WorkloadKey,
  same_key, took_effect, key_of, count_proposal_events_since, budget_plan, budget_option,
  budget_workload, apply_proposal_budgets,
}
use k8s_recommendation_engin.Budget.Within.{
  excused, block_reasons-is_empty, is_exhausted, is_overspent, plan_overspends, overspends,
  apply_proposal_budgets-within,
}

-- Each event has the time that its row was written with.
abbrev pub AllTimed : List ProposalEvent → Type 0
AllTimed events = All (λ event. (t : ℕ) × (event.generated_at ≡ format_nano t)) events

-- The proposal was neither blocked nor did it fail.
abbrev pub was_made : ProposalStatus → Bool
was_made failed = false
was_made blocked = false
was_made pushed = true
was_made local_commit = true
was_made patch = true
was_made created = true

-- The time is in a later second than the bound.
abbrev pub is_later : (since : ℕ) → Option ℕ → Bool
is_later since none = false
is_later since (some t) = ltb (since / second) (t / second)

-- A proposal for the workload that was made in a later second than the bound.
abbrev pub is_recent : WorkloadKey → (since : ℕ) → ProposalEvent → Bool
is_recent key since event =
    str_eq event.key.application key.application
    && str_eq event.key.namespace key.namespace
    && str_eq event.key.workload key.workload
    && was_made event.status
    && is_later since (parse_stamp event.generated_at)

abbrev pub reaches : List ProposalEvent → WorkloadKey → (since limit : ℕ) → Bool
reaches events key since limit =
    not (limit == 0) && leb limit (count_by (is_recent key since) events)

-- The proposals of the last hour reach the hourly limit, or those of the last day the daily one.
abbrev pub has_spent : List ProposalEvent → WorkloadKey → (generated_at : ℕ) → PolicySpec → Bool
has_spent events key generated_at policy =
    reaches events key (generated_at - hour) policy.max_proposals_per_hour
    || reaches events key (generated_at - 24 * hour) policy.max_proposals_per_day

-- The time is not in an earlier second than the bound.
abbrev pub is_not_earlier : (since : ℕ) → Option ℕ → Bool
is_not_earlier since none = false
is_not_earlier since (some t) = leb (since / second) (t / second)

-- A proposal for the workload that was made, and not in an earlier second than the bound.
abbrev pub may_be_recent : WorkloadKey → (since : ℕ) → ProposalEvent → Bool
may_be_recent key since event =
    str_eq event.key.application key.application
    && str_eq event.key.namespace key.namespace
    && str_eq event.key.workload key.workload
    && was_made event.status
    && is_not_earlier since (parse_stamp event.generated_at)

abbrev pub may_reach : List ProposalEvent → WorkloadKey → (since limit : ℕ) → Bool
may_reach events key since limit =
    not (limit == 0) && leb limit (count_by (may_be_recent key since) events)

abbrev pub may_have_spent :
    List ProposalEvent → WorkloadKey → (generated_at : ℕ) → PolicySpec → Bool
may_have_spent events key generated_at policy =
    may_reach events key (generated_at - hour) policy.max_proposals_per_hour
    || may_reach events key (generated_at - 24 * hour) policy.max_proposals_per_day

-- A plan that could be proposed before the budgets and cannot after them, although none is spent.
abbrev pub plan_stopped_early :
    List ProposalEvent
    → WorkloadKey
    → (generated_at : ℕ) → Option WorkloadSpec
    → (before after : Option PatchPlan) → Bool
plan_stopped_early events key generated_at none before after = false
plan_stopped_early events key generated_at (some spec) before after =
    patch_plan_applyable before
    && not (patch_plan_applyable after)
    && not (may_have_spent events key generated_at spec.policy)

abbrev pub stopped_early :
    {F : Type 0}
    → List ProposalEvent
    → (application : String) → (generated_at : ℕ) → List WorkloadSpec
    → (before after : WorkloadReport F) → Bool
stopped_early events application generated_at specs before after =
    plan_stopped_early events (key_of application before) generated_at
      (spec_named specs before.name) before.recommendation.patch_plan
      after.recommendation.patch_plan

-- The lists have the same length, and what stands at the same place is related.
abbrev pub AllPairs : {A : Type 0} → (A → A → Type 0) → List A → List A → Type 0
AllPairs P [] [] = Unit
AllPairs P [] (y ∷ ys) = ⊥
AllPairs P (x ∷ xs) [] = ⊥
AllPairs P (x ∷ xs) (y ∷ ys) = P x y × AllPairs P xs ys

-- A plan that would be proposed although a budget is spent and recovery does not excuse it.
abbrev pub plan_exceeds :
    {F Q : Type 0}
    → Numerics F Q
    → List ProposalEvent
    → WorkloadKey
    → (generated_at : ℕ) → Option WorkloadSpec
    → WorkloadReport F
    → Option PatchPlan
    → Bool
plan_exceeds numerics events key generated_at none workload plan = false
plan_exceeds numerics events key generated_at (some spec) workload none = false
plan_exceeds numerics events key generated_at (some spec) workload (some plan) =
    patch_plan_applyable (some plan)
    && not (
        spec.policy.availability_recovery.enabled
        && availability_recovery_plan numerics workload plan)
    && has_spent events key generated_at spec.policy

abbrev pub exceeds_budget :
    {F Q : Type 0}
    → Numerics F Q
    → List ProposalEvent
    → (application : String) → (generated_at : ℕ) → List WorkloadSpec
    → WorkloadReport F
    → Bool
exceeds_budget numerics events application generated_at specs workload =
    str_eq workload.recommendation.mode "propose"
    && plan_exceeds numerics events (key_of application workload) generated_at
        (spec_named specs workload.name) workload workload.recommendation.patch_plan

stamp_ge-later :
    (since t : ℕ)
    → ltb (since / second) (t / second) ≡ true
    → stamp_ge (format_nano t) (format_nano since) ≡ true
stamp_ge-later since t later = ground (
  arith,
  after since t later,
  format_nano-compare_seconds t since (λ e. omega (arith, less since t later, e)),
)
  where
    after : (s t : ℕ) → ltb (s / second) (t / second) ≡ true → ltb t s ≡ false
    after s t h = ground arith

    less : (s t : ℕ) → ltb (s / second) (t / second) ≡ true → s / second + 1 ≤ t / second
    less s t h = ground arith

more :
    (a b : Bool) {n m : ℕ}
    → n ≤ m
    → (a ≡ true → b ≡ true)
    → (if a then 1 else 0) + n ≤ (if b then 1 else 0) + m
more a true h f = ground arith
more false false h f = ground arith
more true false h f = absurd (ground (arith, f refl))

raised :
    (limit n m : ℕ)
    → n ≤ m
    → (not (limit == 0) && leb limit n) ≡ true
    → (not (limit == 0) && leb limit m) ≡ true
raised limit n m le h = ground arith

either :
    (a b c d : Bool)
    → (a ≡ true → c ≡ true)
    → (b ≡ true → d ≡ true)
    → (a || b) ≡ true
    → (c || d) ≡ true
either true b c d f g h = rw (f refl) refl
either false true true d f g h = refl
either false true false d f g h = g refl
either false false c d f g h = absurd (ground arith)

-- An event that is recent is counted by the code, which compares texts.
is_recent-counted :
    (key : WorkloadKey) (since : ℕ) (event : ProposalEvent) (t : ℕ)
    → event.generated_at ≡ format_nano t
    → is_recent key since event ≡ true
    → (same_key key event.key
        && stamp_ge event.generated_at (format_nano since)
        && took_effect event.status)
      ≡ true
is_recent-counted key since event t written recent =
    let later : ltb (since / second) (t / second) ≡ true =
      last (same_key key event.key && was_made event.status) _ (
        subst
          (λ time. (same_key key event.key && was_made event.status && is_later since time) ≡ true)
          (ap parse_stamp written ∙ parse_stamp-format_nano t) recent) in
    both (same_key key event.key) event.status _ _ recent (
      subst (λ text. stamp_ge text (format_nano since) ≡ true) (sym written)
        (stamp_ge-later since t later))
  where
    last : (a b : Bool) → (a && b) ≡ true → b ≡ true
    last true b h = h
    last false b h = absurd (ground arith)

    both :
        (same : Bool) (status : ProposalStatus) (is_now ge : Bool)
        → (same && was_made status && is_now) ≡ true
        → ge ≡ true
        → (same && ge && took_effect status) ≡ true
    both same failed is_now ge h g = ground arith
    both same blocked is_now ge h g = ground arith
    both same pushed is_now ge h g = ground arith
    both same local_commit is_now ge h g = ground arith
    both same patch is_now ge h g = ground arith
    both same created is_now ge h g = ground arith

count_recent-counted :
    (key : WorkloadKey) (since : ℕ) (events : List ProposalEvent)
    → AllTimed events
    → count_by (is_recent key since) events
      ≤ count_proposal_events_since events key (format_nano since)
unfolding count_proposal_events_since
count_recent-counted key since [] timed = omega arith
count_recent-counted key since (event ∷ events) timed =
    let rest = count_recent-counted key since events timed.1 in
    more (is_recent key since event) _ rest (is_recent-counted key since event timed.0.0 timed.0.1)

reaches-is_exhausted :
    (events : List ProposalEvent) (key : WorkloadKey) (since limit : ℕ)
    → AllTimed events
    → reaches events key since limit ≡ true
    → is_exhausted events key since limit ≡ true
reaches-is_exhausted events key since limit timed h =
    raised limit (count_by (is_recent key since) events)
      (count_proposal_events_since events key (format_nano since))
      (count_recent-counted key since events timed) h

has_spent-is_overspent :
    (events : List ProposalEvent) (key : WorkloadKey) (generated_at : ℕ) (policy : PolicySpec)
    → AllTimed events
    → has_spent events key generated_at policy ≡ true
    → is_overspent events key generated_at policy ≡ true
has_spent-is_overspent events key generated_at policy timed h =
    either _ _ _ _
      (reaches-is_exhausted events key (generated_at - hour) policy.max_proposals_per_hour timed)
      (reaches-is_exhausted events key (generated_at - 24 * hour) policy.max_proposals_per_day
        timed)
      h

falls : (a c d : Bool) → (d ≡ true → c ≡ true) → (a && c) ≡ false → (a && d) ≡ false
falls false c d f h = refl
falls true c false f h = refl
falls true c true f h = sym (f refl) ∙ h

module _ {F Q : Type 0} (numerics : Numerics F Q) (events : List ProposalEvent)
    (timed : AllTimed events) where
  plan_exceeds-overspends :
      (key : WorkloadKey) (generated_at : ℕ) (spec : Option WorkloadSpec)
      (workload : WorkloadReport F) (plan : Option PatchPlan)
      → plan_exceeds numerics events key generated_at spec workload plan ≡ true
      → plan_overspends numerics events key generated_at spec workload plan ≡ true
  plan_exceeds-overspends key generated_at none workload plan h = h
  plan_exceeds-overspends key generated_at (some spec) workload none h = h
  plan_exceeds-overspends key generated_at (some spec) workload (some plan) h =
      rises _ _ _ (has_spent-is_overspent events key generated_at spec.policy timed) h
    where
      rises : (a c d : Bool) → (d ≡ true → c ≡ true) → (a && d) ≡ true → (a && c) ≡ true
      rises true c d f h = f h
      rises false c d f h = h

  overspends-exceeds_budget :
      (application : String) (generated_at : ℕ) (specs : List WorkloadSpec)
      (workload : WorkloadReport F)
      → overspends numerics events application generated_at specs workload ≡ false
      → exceeds_budget numerics events application generated_at specs workload ≡ false
  overspends-exceeds_budget application generated_at specs workload h =
      falls (str_eq workload.recommendation.mode "propose") _ _
        (plan_exceeds-overspends (key_of application workload) generated_at
          (spec_named specs workload.name) workload workload.recommendation.patch_plan)
        h

  All-exceeds_budget :
      (application : String) (generated_at : ℕ) (specs : List WorkloadSpec)
      (workloads : List (WorkloadReport F))
      → All
          (λ workload. overspends numerics events application generated_at specs workload ≡ false)
          workloads
      → All
          (λ workload.
            exceeds_budget numerics events application generated_at specs workload ≡ false)
          workloads
  All-exceeds_budget application generated_at specs [] h = tt
  All-exceeds_budget application generated_at specs (workload ∷ workloads) h = (
    overspends-exceeds_budget application generated_at specs workload h.0,
    All-exceeds_budget application generated_at specs workloads h.1,
  )

is_not_earlier-stamp_ge :
    (since t : ℕ)
    → stamp_ge (format_nano t) (format_nano since) ≡ true
    → leb (since / second) (t / second) ≡ true
is_not_earlier-stamp_ge since t ge = elim (Bool-cases (leb (since / second) (t / second))) [
  | inl late ↦ late
  | inr early ↦ absurd (
      true≢false (
        sym ge
        ∙ ground (
          arith,
          before since t early,
          format_nano-compare_seconds t since (λ e. omega (arith, differ since t early, e)),
        )))
]
  where
    true≢false : true ≡ false → ⊥
    true≢false e = ground arith

    before : (s t : ℕ) → leb (s / second) (t / second) ≡ false → ltb t s ≡ true
    before s t h = ground arith

    differ : (s t : ℕ) → leb (s / second) (t / second) ≡ false → t / second + 1 ≤ s / second
    differ s t h = ground arith

-- An event that the code counts is not in an earlier second than the bound.
counted-may_be_recent :
    (key : WorkloadKey) (since : ℕ) (event : ProposalEvent) (t : ℕ)
    → event.generated_at ≡ format_nano t
    → (same_key key event.key
        && stamp_ge event.generated_at (format_nano since)
        && took_effect event.status)
      ≡ true
    → may_be_recent key since event ≡ true
counted-may_be_recent key since event t written counted =
    let ge : stamp_ge event.generated_at (format_nano since) ≡ true =
      middle (same_key key event.key) _ (took_effect event.status) counted in
    both (same_key key event.key) event.status _ _ counted (
      subst (λ time. is_not_earlier since time ≡ true)
        (sym (ap parse_stamp written ∙ parse_stamp-format_nano t))
        (is_not_earlier-stamp_ge since t
          (subst (λ text. stamp_ge text (format_nano since) ≡ true) written ge)))
  where
    middle : (a b c : Bool) → (a && b && c) ≡ true → b ≡ true
    middle true true c h = refl
    middle true false c h = absurd (ground arith)
    middle false b c h = absurd (ground arith)

    both :
        (same : Bool) (status : ProposalStatus) (ge late : Bool)
        → (same && ge && took_effect status) ≡ true
        → late ≡ true
        → (same && was_made status && late) ≡ true
    both same failed ge late h g = ground arith
    both same blocked ge late h g = ground arith
    both same pushed ge late h g = ground arith
    both same local_commit ge late h g = ground arith
    both same patch ge late h g = ground arith
    both same created ge late h g = ground arith

counted-count_by :
    (key : WorkloadKey) (since : ℕ) (events : List ProposalEvent)
    → AllTimed events
    → count_proposal_events_since events key (format_nano since)
      ≤ count_by (may_be_recent key since) events
unfolding count_proposal_events_since
counted-count_by key since [] timed = omega arith
counted-count_by key since (event ∷ events) timed =
    more _ (may_be_recent key since event) (counted-count_by key since events timed.1)
      (counted-may_be_recent key since event timed.0.0 timed.0.1)

may_reach-is_exhausted :
    (events : List ProposalEvent) (key : WorkloadKey) (since limit : ℕ)
    → AllTimed events
    → is_exhausted events key since limit ≡ true
    → may_reach events key since limit ≡ true
may_reach-is_exhausted events key since limit timed h =
    raised limit (count_proposal_events_since events key (format_nano since))
      (count_by (may_be_recent key since) events) (counted-count_by key since events timed) h

may_have_spent-is_overspent :
    (events : List ProposalEvent) (key : WorkloadKey) (generated_at : ℕ) (policy : PolicySpec)
    → AllTimed events
    → is_overspent events key generated_at policy ≡ true
    → may_have_spent events key generated_at policy ≡ true
may_have_spent-is_overspent events key generated_at policy timed h =
    either _ _ _ _
      (may_reach-is_exhausted events key (generated_at - hour) policy.max_proposals_per_hour timed)
      (may_reach-is_exhausted events key (generated_at - 24 * hour) policy.max_proposals_per_day
        timed)
      h

module _ {F Q : Type 0} (numerics : Numerics F Q) (events : List ProposalEvent)
    (timed : AllTimed events) where
  budget_plan-stopped_early :
      (key : WorkloadKey) (generated_at : ℕ) (spec : WorkloadSpec) (workload : WorkloadReport F)
      (plan : PatchPlan)
      → plan_stopped_early events key generated_at
          (some spec)
          (some plan)
          (some (budget_plan numerics events key generated_at spec.policy workload plan))
        ≡ false
  unfolding budget_plan patch_plan_applyable
  budget_plan-stopped_early key generated_at spec workload plan =
      elim (Bool-cases (excused numerics events spec workload plan)) [
        | inl free ↦ simp free (never (patch_plan_applyable (some plan)) _)
        | inr counted ↦ elim (Bool-cases (is_overspent events key generated_at spec.policy)) [
          | inl over ↦
              spent (patch_plan_applyable (some plan)) _ _
                (may_have_spent-is_overspent events key generated_at spec.policy timed over)
          | inr under ↦
              simp (counted, block_reasons-is_empty events key generated_at spec.policy, under)
                (never (patch_plan_applyable (some plan)) _)
        ]
      ]
    where
      never : (a b : Bool) → (a && not a && not b) ≡ false
      never true b = refl
      never false b = refl

      spent : (a b c : Bool) → c ≡ true → (a && b && not c) ≡ false
      spent a b true h = ground arith
      spent a b false h = absurd (ground arith)

  budget_option-stopped_early :
      (key : WorkloadKey) (generated_at : ℕ) (spec : Option WorkloadSpec)
      (workload : WorkloadReport F) (plan : Option PatchPlan)
      → plan_stopped_early events key generated_at spec plan
          (budget_option numerics events key generated_at spec workload plan)
        ≡ false
  unfolding budget_option
  budget_option-stopped_early key generated_at none workload plan = refl
  budget_option-stopped_early key generated_at (some spec) workload none =
      unfold patch_plan_applyable in refl
  budget_option-stopped_early key generated_at (some spec) workload (some plan) =
      elim (Bool-cases (plan.blocked || not (is_empty plan.errors) || is_empty plan.changes)) [
        | inl passed_by ↦ rw passed_by (unfold patch_plan_applyable in ground arith)
        | inr counted ↦ rw counted (budget_plan-stopped_early key generated_at spec workload plan)
      ]

  budget_workload-stopped_early :
      (application : String) (generated_at : ℕ) (specs : List WorkloadSpec)
      (workload : WorkloadReport F)
      → stopped_early events application generated_at specs workload
          (budget_workload numerics events application generated_at specs workload)
        ≡ false
  unfolding budget_workload
  budget_workload-stopped_early application generated_at specs workload =
      elim (Bool-cases (str_eq workload.recommendation.mode "propose")) [
        | inr other ↦ simp other (unchanged (spec_named specs workload.name))
        | inl propose ↦ simp propose (
            budget_option-stopped_early (key_of application workload) generated_at
              (spec_named specs workload.name) workload workload.recommendation.patch_plan)
      ]
    where
      unchanged :
          (spec : Option WorkloadSpec)
          → plan_stopped_early events
              (key_of application workload)
              generated_at
              spec
              workload.recommendation.patch_plan
              workload.recommendation.patch_plan
            ≡ false
      unchanged none = refl
      unchanged (some spec) = same (patch_plan_applyable workload.recommendation.patch_plan) _
        where
          same : (a b : Bool) → (a && not a && not b) ≡ false
          same true b = refl
          same false b = refl

AllPairs-map :
    {A : Type 0} (P : A → A → Type 0) (f : A → A)
    → ((x : A) → P x (f x))
    → (xs : List A) → AllPairs P xs (map f xs)
AllPairs-map P f h [] = tt
AllPairs-map P f h (x ∷ xs) = (h x, AllPairs-map P f h xs)

-- If the rows of the events are written with their times in RFC3339Nano, then after the budgets
--   no workload of the report that is in the mode `propose` and that the profile names has an
--   applyable plan while its proposals that were neither blocked nor failed reach a limit of its
--   policy that is set, of those in a later second than one hour before the report the hourly limit,
--   or of those in a later second than a day before it the daily one, unless recovery is enabled and
--   the plan is one of recovery;
--   and each workload of the report that the profile names keeps an applyable plan applyable, unless
--   its proposals reach such a limit, those in the second of the hour's or the day's start included.
pub apply_proposal_budgets-spent :
    {F Q : Type 0} (numerics : Numerics F Q) (events : List ProposalEvent)
    (profile : ApplicationProfile) (report : Report F)
    → AllTimed events
    → All
        (λ workload.
          exceeds_budget numerics events report.application report.generated_at profile.workloads
            workload
          ≡ false)
        (apply_proposal_budgets numerics events profile report).workloads
      × AllPairs
          (λ before after.
            stopped_early events report.application report.generated_at profile.workloads before
              after
            ≡ false)
          report.workloads
          (apply_proposal_budgets numerics events profile report).workloads
unfolding apply_proposal_budgets
apply_proposal_budgets-spent numerics events profile report timed = (
  All-exceeds_budget numerics events timed report.application report.generated_at profile.workloads
      _ (apply_proposal_budgets-within numerics events profile report),
  AllPairs-map
      (λ before after.
        stopped_early events report.application report.generated_at profile.workloads before after
        ≡ false)
      (λ workload.
        budget_workload numerics events report.application report.generated_at profile.workloads
          workload)
      (budget_workload-stopped_early numerics events timed report.application report.generated_at
        profile.workloads)
      report.workloads,
)
