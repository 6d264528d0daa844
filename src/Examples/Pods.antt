-- ===== src/Examples/Pods.antt =====
-- A run of internal/recovery/recovery.go.
use k8s_recommendation_engin.Prelude.{◌*◌, true, false, none, some, [], ◌∷◌, if◌then◌else◌, ◌==◌}
use k8s_recommendation_engin.Stamp.{minute}
use k8s_recommendation_engin.Quantity.{milli_parse}
use k8s_recommendation_engin.Recovery.Live.{LivePod, found}
use k8s_recommendation_engin.Recovery.{Options, World, Environment, apply}
use k8s_recommendation_engin.Recovery.Run.{IsRun, apply-IsRun}
use k8s_recommendation_engin.Examples.{no_text, shop_report, shop_profile}

abbrev live_pod : LivePod
live_pod = record {
  uid = "u1";
  resource_version = "7";
  controller = some (record { api_version = "apps/v1"; kind = "ReplicaSet" });
  deletion_timestamp = none;
  conditions = [];
  container_statuses =
      record {
        name = "app";
        ready = false;
        waiting_reason = none;
        terminated = some (record { exit_code = 1; finished_at = minute });
        last_terminated = none;
      }
      ∷ [];
}

abbrev one_pod : Environment
one_pod = record {
  parse_duration = milli_parse;
  show_time = no_text;
  show_duration = no_text;
  get_pod = λ deletions namespace name. found live_pod;
  delete_pod = λ deletions deletion. none;
}

abbrev live_options : Options
live_options = record { enabled = true; state_db = "state.db"; now = 60 * minute }

abbrev empty_world : World
empty_world = record { events = []; next_id = 1; deletions = [] }

apply-IsRun_example :
    IsRun one_pod 0
      (if live_options.now == 0 then 0 else live_options.now)
      live_options
      shop_profile.workloads
      shop_report
      shop_report.workloads
      empty_world
      (apply one_pod 0 shop_profile shop_report live_options empty_world).2
apply-IsRun_example = apply-IsRun one_pod 0 shop_profile shop_report live_options empty_world
