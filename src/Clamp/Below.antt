-- ===== src/Clamp/Below.antt =====
-- internal/state/sqlite.go: the requests that the clamp leaves.
use mathlib.Core.Path.{subst}
use k8s_recommendation_engin.Prelude.{
  ◌≡◌, refl, sym, ◌∙◌, arith, String, Bool, false, ◌||◌, Option, none, some, [], ◌∷◌, str_eq,
  if◌then◌else◌, Option-cases, inl, inr,
}
use k8s_recommendation_engin.Report.{WorkloadReport, Recommendation, ContainerReport}
use k8s_recommendation_engin.Quantity.{Quantities}
use k8s_recommendation_engin.Clamp.{
  is_above, clamp_request_to_limit, clamp_cpu, clamp_memory,
  clamp_recommendation_requests_to_limits,
}

module _ {Q : Type 0} (quantities : Quantities Q) where
  abbrev pub above_parsed : Option Q → Option Q → Bool
  above_parsed none most = false
  above_parsed (some wanted) none = false
  above_parsed (some wanted) (some most) = is_above (quantities.cmp wanted most)

  -- A request and a limit that are both given, both parse, and stand the wrong way round.
  abbrev pub exceeds : (request limit : String) → Bool
  exceeds request limit =
      if str_eq request "" || str_eq limit ""
      then false
      else above_parsed (quantities.parse request) (quantities.parse limit)

  abbrev pub clamped_or : Option String → String → String
  clamped_or none request = request
  clamped_or (some clamped) request = clamped

  abbrev pub clamped : {F : Type 0} → WorkloadReport F → Recommendation F
  clamped workload = (clamp_recommendation_requests_to_limits quantities workload).recommendation

  clamp_cpu-request :
      {F : Type 0} (answer : Option String) (limit : String) (rec : Recommendation F)
      → (clamp_cpu quantities answer limit rec).recommended_cpu_request
        ≡ clamped_or answer rec.recommended_cpu_request
  clamp_cpu-request none limit rec = refl
  clamp_cpu-request (some text) limit rec = refl

  clamp_memory-cpu :
      {F : Type 0} (answer : Option String) (limit : String) (rec : Recommendation F)
      → (clamp_memory quantities answer limit rec).recommended_cpu_request
        ≡ rec.recommended_cpu_request
  clamp_memory-cpu none limit rec = refl
  clamp_memory-cpu (some text) limit rec = refl

  clamp_memory-of_cpu :
      {F : Type 0} (cpu memory : Option String) (cpu_limit memory_limit : String)
      (rec : Recommendation F)
      → (clamp_memory quantities memory memory_limit
          (clamp_cpu quantities cpu cpu_limit rec)).recommended_memory_request
        ≡ clamped_or memory rec.recommended_memory_request
  clamp_memory-of_cpu none none cpu_limit memory_limit rec = refl
  clamp_memory-of_cpu none (some text) cpu_limit memory_limit rec = refl
  clamp_memory-of_cpu (some text) none cpu_limit memory_limit rec = refl
  clamp_memory-of_cpu (some text) (some other) cpu_limit memory_limit rec = refl

  abbrev cpu_answer : {F : Type 0} → WorkloadReport F → ContainerReport → Option String
  cpu_answer workload container =
      clamp_request_to_limit quantities workload.recommendation.recommended_cpu_request
        container.cpu_limit

  abbrev memory_answer : {F : Type 0} → WorkloadReport F → ContainerReport → Option String
  memory_answer workload container =
      clamp_request_to_limit quantities workload.recommendation.recommended_memory_request
        container.memory_limit

  cpu_of :
      {F : Type 0} (workload : WorkloadReport F) (container : ContainerReport)
      → workload.containers ≡ container ∷ []
      → (clamped workload).recommended_cpu_request
        ≡ clamped_or (cpu_answer workload container) workload.recommendation.recommended_cpu_request
  unfolding clamp_recommendation_requests_to_limits
  cpu_of workload container single = rw single (
      clamp_memory-cpu (memory_answer workload container) container.memory_limit (
        clamp_cpu quantities (cpu_answer workload container) container.cpu_limit
          workload.recommendation)
      ∙ clamp_cpu-request (cpu_answer workload container) container.cpu_limit
          workload.recommendation)

  memory_of :
      {F : Type 0} (workload : WorkloadReport F) (container : ContainerReport)
      → workload.containers ≡ container ∷ []
      → (clamped workload).recommended_memory_request
        ≡ clamped_or
            (memory_answer workload container)
            workload.recommendation.recommended_memory_request
  unfolding clamp_recommendation_requests_to_limits
  memory_of workload container single = rw single (
      clamp_memory-of_cpu (cpu_answer workload container) (memory_answer workload container)
        container.cpu_limit container.memory_limit workload.recommendation)

  module _ (parse-print : (q : Q) → quantities.parse (quantities.print q) ≡ some q)
      (cmp_refl : (q : Q) → is_above (quantities.cmp q q) ≡ false) where
    clamp_request-below :
        (request limit : String)
        → exceeds (clamped_or (clamp_request_to_limit quantities request limit) request) limit
          ≡ false
    unfolding clamp_request_to_limit
    clamp_request-below request limit = elim (Option-cases (quantities.parse limit)) [
      | inl unread ↦ ground (arith, unread)
      | inr (most, read) ↦ ground (arith, read, parse-print most, cmp_refl most)
    ]

    -- After the clamp neither request of a workload with one container exceeds that container's limit,
    -- if printing a quantity and parsing it gives it back and no quantity is greater than itself.
    pub clamp_recommendation-below :
        {F : Type 0} (workload : WorkloadReport F) (container : ContainerReport)
        → workload.containers ≡ container ∷ []
        → (exceeds (clamped workload).recommended_cpu_request container.cpu_limit ≡ false)
          × (exceeds (clamped workload).recommended_memory_request container.memory_limit ≡ false)
    unfolding clamp_recommendation_requests_to_limits
    clamp_recommendation-below workload container single = (
      subst (λ text. exceeds text container.cpu_limit ≡ false)
          (sym (cpu_of workload container single))
          (clamp_request-below workload.recommendation.recommended_cpu_request container.cpu_limit),
      subst (λ text. exceeds text container.memory_limit ≡ false)
          (sym (memory_of workload container single))
          (clamp_request-below workload.recommendation.recommended_memory_request
            container.memory_limit),
    )
