-- ===== src/Examples/Manifests.antt =====
-- Runs of the updates of manifests and of Helm values.
use k8s_recommendation_engin.Prelude.{
  ◌≡◌, refl, Bool, true, false, some, List, [], ◌∷◌, String, str_eq, All,
}
use k8s_recommendation_engin.Report.{PatchChange, PatchPlan}
use k8s_recommendation_engin.Manifest.{
  Node, Content, node, end, item, mapping, sequence, scalar, set_container_request_scalar,
  container_request_scalar, set_replicas, scalar_at, change_at, change_container,
  update_mapping_path, set_mapping_scalar, mapping_value, find_value, replace_value, append_pair,
}
use k8s_recommendation_engin.Manifest.Update.{IsPairs}
use k8s_recommendation_engin.Manifest.Sound.{IsSound, AllSound}
use k8s_recommendation_engin.Manifest.Containers.{
  set_container_request_scalar-sets, set_replicas-sets,
}
use k8s_recommendation_engin.Helm.{
  reads, edited, helm_scalar_at, helm_scalar_node_at, helm_walk, enter, unique_helm_mapping_value,
  unique_from, set_helm_scalar_at,
}
use k8s_recommendation_engin.Helm.Edit.{set_helm_scalar_at-sets}
use k8s_recommendation_engin.Helm.Paths.{helm_paths_overlap, compare_helm_paths}
use k8s_recommendation_engin.Helm.Apply.{
  apply_changes, file_changes, apply_helm_patch_change, merged_helm_patch_changes, merge_of,
  plan_changes, first_refused, sort_changes, insert_change, merge_loop, scan,
}
use k8s_recommendation_engin.Helm.Apply.Merged.{ArePathsApart}
use k8s_recommendation_engin.Helm.Apply.Plans.{
  is_covered, merged_helm_patch_changes-covers, apply_changes-plan_changes,
}

abbrev is_small_int : String → Bool
is_small_int s = str_eq s "2"

abbrev word : String → Node
word s = node scalar "!!str" s "" 0 end

abbrev entry : String → Node → Content → Content
entry key value rest = item (word key) (item value rest)

abbrev block : Content → Node
block content = node mapping "!!map" "" "" 0 content

abbrev deployment : Content → Node
deployment container = block (
    entry "spec"
      (block (
        entry "template"
          (block (
            entry "spec"
              (block (
                entry "containers" (node sequence "!!seq" "" "" 0 (item (block container) end))
                  end))
              end))
          end))
      end)

abbrev web_deployment : Node
web_deployment = deployment (entry "name" (word "web") end)

abbrev fresh_block : Content → Node
fresh_block content = node mapping "" "" "" 0 content

abbrev web_with_cpu : Node
web_with_cpu = deployment (
    entry "name" (word "web") (
      entry "resources"
        (fresh_block (entry "requests" (fresh_block (entry "cpu" (word "100m") end)) end)) end))

web_deployment-IsSound : IsSound web_deployment
unfolding IsSound AllSound IsPairs
web_deployment-IsSound = (
  tt,
  (
    (tt, tt),
    (
      (
        tt,
        (
          (tt, tt),
          (
            (
              tt,
              (
                (tt, tt),
                ((tt, ((tt, tt), ((tt, ((tt, ((tt, tt), ((tt, tt), tt))), tt)), tt))), tt),
              ),
            ),
            tt,
          ),
        ),
      ),
      tt,
    ),
  ),
)

set_cpu :
    set_container_request_scalar is_small_int "web" "cpu" "100m" web_deployment ≡ some web_with_cpu
unfolding set_container_request_scalar change_at change_container update_mapping_path
    set_mapping_scalar mapping_value find_value replace_value append_pair
set_cpu = refl

set_container_request_scalar-sets_example :
    (container_request_scalar web_with_cpu "web" "cpu" ≡ some "100m")
    × ((other : String)
        → str_eq "cpu" other ≡ false
        → container_request_scalar web_with_cpu "web" other
          ≡ container_request_scalar web_deployment "web" other)
    × ((neighbour other : String)
        → str_eq "web" neighbour ≡ false
        → container_request_scalar web_with_cpu neighbour other
          ≡ container_request_scalar web_deployment neighbour other)
set_container_request_scalar-sets_example =
    set_container_request_scalar-sets is_small_int "web" "cpu" "100m" web_deployment web_with_cpu
      web_deployment-IsSound refl set_cpu

set_replicas-sets_example :
    scalar_at (set_replicas is_small_int "2" web_deployment) ("spec" ∷ "replicas" ∷ []) ≡ some "2"
set_replicas-sets_example =
    set_replicas-sets is_small_int "2" web_deployment web_deployment-IsSound refl

abbrev values : String → String → Node
values replicas cpu = block (
    entry "web"
      (block
        (entry "replicas" (node scalar "!!int" replicas "" 0 end) (entry "cpu" (word cpu) end)))
      end)

abbrev replicas_path : List String
replicas_path = "web" ∷ "replicas" ∷ []

abbrev cpu_path : List String
cpu_path = "web" ∷ "cpu" ∷ []

reads_replicas : helm_scalar_at (values "3" "200m") replicas_path ≡ reads "3"
unfolding helm_scalar_at helm_scalar_node_at helm_walk enter unique_helm_mapping_value unique_from
reads_replicas = refl

set_helm_scalar_at-sets_example :
    (new : Node) × (set_helm_scalar_at is_small_int (values "3" "200m") replicas_path "2" false
      ≡ edited new)
    × (helm_scalar_at new replicas_path ≡ reads "2")
    × ((other : List String)
        → helm_paths_overlap replicas_path other ≡ false
        → helm_scalar_at new other ≡ helm_scalar_at (values "3" "200m") other)
set_helm_scalar_at-sets_example =
    set_helm_scalar_at-sets is_small_int (values "3" "200m") replicas_path "3" "2" false
      reads_replicas

abbrev replace_replicas : PatchChange
replace_replicas = record {
  field = "spec.replicas";
  source_path = replicas_path;
  operation = "replace";
  current = "3";
  recommended = "2";
}

abbrev replace_cpu : PatchChange
replace_cpu = record {
  field = "spec.template.spec.containers[name=web].resources.requests.cpu";
  source_path = cpu_path;
  operation = "replace";
  current = "200m";
  recommended = "100m";
}

abbrev helm_plan : PatchPlan
helm_plan = record {
  source_file = "values.yaml";
  source_format = "helmValues";
  resource = "Deployment/shop/web";
  needed = true;
  blocked = false;
  block_reasons = [];
  changes = replace_replicas ∷ replace_cpu ∷ replace_replicas ∷ [];
  diff = "";
  errors = [];
}

merged_plan :
    merged_helm_patch_changes (helm_plan ∷ []) ≡ merge_of (replace_cpu ∷ replace_replicas ∷ [])
unfolding merged_helm_patch_changes first_refused sort_changes insert_change merge_loop scan
    helm_paths_overlap compare_helm_paths
merged_plan = refl

merged_helm_patch_changes-covers_example :
    ArePathsApart (replace_cpu ∷ replace_replicas ∷ [])
    × All
        (λ change. is_covered (replace_cpu ∷ replace_replicas ∷ []) change ≡ true)
        (plan_changes (helm_plan ∷ []))
merged_helm_patch_changes-covers_example =
    merged_helm_patch_changes-covers (helm_plan ∷ []) (replace_cpu ∷ replace_replicas ∷ [])
      merged_plan

applied_plan :
    apply_changes is_small_int (replace_cpu ∷ replace_replicas ∷ []) (values "3" "200m")
    ≡ file_changes (values "2" "100m") (replace_cpu ∷ replace_replicas ∷ [])
unfolding apply_changes apply_helm_patch_change set_helm_scalar_at change_at mapping_value
    find_value replace_value helm_scalar_at helm_scalar_node_at helm_walk enter
    unique_helm_mapping_value unique_from
applied_plan = refl

apply_changes-plan_changes_example :
    All
      (λ change. helm_scalar_at (values "2" "100m") change.source_path ≡ reads change.recommended)
      (plan_changes (helm_plan ∷ []))
apply_changes-plan_changes_example =
    apply_changes-plan_changes is_small_int (helm_plan ∷ []) (replace_cpu ∷ replace_replicas ∷ [])
      (replace_cpu ∷ replace_replicas ∷ []) (values "3" "200m") (values "2" "100m") merged_plan
      applied_plan
