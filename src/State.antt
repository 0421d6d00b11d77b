-- ===== src/State.antt =====
-- internal/controller/state.go: the states, the annotation keys, and what is read from them.
pub mod Clearing
pub mod Replicas
use k8s_drain_surge.Base.{
  String, ◌≡◌, Bool, true, false, ◌||◌, Option, List, [], ◌∷◌, ◌==◌, if◌then◌else◌,
}
use k8s_drain_surge.Base.Int.{ℤ, int32}
use k8s_drain_surge.Base.Maps.{GoMap, get, erase}
use k8s_drain_surge.Errors.{Error, Result, ok, err, invalid}
use k8s_drain_surge.Strconv.{atoi}
use Prim.Native.String.{◌++◌}

-- The Go type is a string; `other` holds every text that is none of the constants.
pub data DrainState : Type 0 where
  none pending scaled_up ready draining done : DrainState
  other : String → DrainState

-- DrainState(s)
unfoldable pub drain_state : String → DrainState
drain_state s =
    if s == ""
    then DrainState.none
    else if s == "pending"
    then DrainState.pending
    else if s == "scaled-up"
    then DrainState.scaled_up
    else if s == "ready"
    then DrainState.ready
    else if s == "draining"
    then DrainState.draining
    else if s == "done"
    then DrainState.done
    else DrainState.other s

-- string(state)
abbrev pub text : DrainState → String
text DrainState.none = ""
text DrainState.pending = "pending"
text DrainState.scaled_up = "scaled-up"
text DrainState.ready = "ready"
text DrainState.draining = "draining"
text DrainState.done = "done"
text (DrainState.other s) = s

-- state != DrainStateNone && state != DrainStateDone
abbrev pub is_active : DrainState → Bool
is_active DrainState.none = false
is_active DrainState.done = false
is_active _ = true

abbrev pub controller_name : String
controller_name = "k8s-drain-surge"

abbrev pub annotation_enabled : String
annotation_enabled = "k8s-drain-surge.io/enabled"

abbrev pub annotation_drain_state : String
annotation_drain_state = "k8s-drain-surge.io/drain-state"

abbrev pub annotation_original_replicas : String
annotation_original_replicas = "k8s-drain-surge.io/original-replicas"

abbrev pub annotation_drain_node : String
annotation_drain_node = "k8s-drain-surge.io/drain-node"

abbrev pub annotation_drain_start : String
annotation_drain_start = "k8s-drain-surge.io/drain-start"

abbrev pub annotation_hpa_name : String
annotation_hpa_name = "k8s-drain-surge.io/hpa-name"

abbrev pub annotation_hpa_original_min_replicas : String
annotation_hpa_original_min_replicas = "k8s-drain-surge.io/hpa-original-min-replicas"

abbrev pub annotation_restart_surge_state : String
annotation_restart_surge_state = "k8s-drain-surge.io/restart-surge-state"

abbrev pub annotation_restart_surge_start : String
annotation_restart_surge_start = "k8s-drain-surge.io/restart-surge-start"

abbrev pub reason_new_rs_available : String
reason_new_rs_available = "NewReplicaSetAvailable"

abbrev pub drain_annotation_keys : List String
drain_annotation_keys =
    annotation_drain_state ∷ annotation_original_replicas ∷ annotation_drain_node
    ∷ annotation_drain_start ∷ annotation_hpa_name ∷ annotation_hpa_original_min_replicas
    ∷ annotation_restart_surge_state ∷ annotation_restart_surge_start ∷ []

abbrev pub restart_surge_full_keys : List String
restart_surge_full_keys =
    annotation_restart_surge_state ∷ annotation_restart_surge_start ∷ annotation_original_replicas
    ∷ annotation_hpa_name ∷ annotation_hpa_original_min_replicas ∷ []

abbrev pub restart_surge_exclusive_keys : List String
restart_surge_exclusive_keys = annotation_restart_surge_state ∷ annotation_restart_surge_start ∷ []

-- Is the key in the list?
abbrev pub mem_key : List String → String → Bool
mem_key [] k = false
mem_key (key ∷ keys) k = key == k || mem_key keys k

-- for _, key := range keys { delete(annotations, key) }
abbrev pub erase_all : List String → GoMap String → GoMap String
erase_all [] m = m
erase_all (key ∷ keys) m = erase_all keys (erase key m)

unfoldable pub clear_drain_annotations : GoMap String → GoMap String
clear_drain_annotations m = erase_all drain_annotation_keys m

unfoldable pub clear_restart_surge_annotations : GoMap String → GoMap String
clear_restart_surge_annotations m = erase_all restart_surge_full_keys m

unfoldable pub clear_restart_surge_exclusive_annotations : GoMap String → GoMap String
clear_restart_surge_exclusive_annotations m = erase_all restart_surge_exclusive_keys m

-- A missing key reads as "", so the test for it and the test for "" are one.
-- `parse_time` is time.Parse(time.RFC3339, _).
unfoldable pub parse_rfc3339_annotation {ℓ} :
    {Time : Type ℓ} → (String → Option Time) → GoMap String → String → Option Time
parse_rfc3339_annotation parse_time annotations key =
    let s = get annotations key in if s == "" then Option.none else parse_time s

unfoldable pub parse_drain_start {ℓ} :
    {Time : Type ℓ} → (String → Option Time) → GoMap String → Option Time
parse_drain_start parse_time annotations =
    parse_rfc3339_annotation parse_time annotations annotation_drain_start

unfoldable pub parse_restart_surge_start {ℓ} :
    {Time : Type ℓ} → (String → Option Time) → GoMap String → Option Time
parse_restart_surge_start parse_time annotations =
    parse_rfc3339_annotation parse_time annotations annotation_restart_surge_start

abbrev replicas_of : Option ℤ → Result ℤ
replicas_of Option.none = err (invalid annotation_original_replicas)
replicas_of (Option.some n) = ok (int32 n)

unfoldable pub get_original_replicas : GoMap String → Result ℤ
get_original_replicas annotations =
    let s = get annotations annotation_original_replicas in
    if s == "" then err (invalid "annotation not found") else replicas_of (atoi s)

unfoldable pub workload_key : String → String → String
workload_key namespace name = namespace ++ ("/" ++ name)
