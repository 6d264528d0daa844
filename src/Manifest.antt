-- ===== src/Manifest.antt =====
-- internal/analyzer/patch_plan.go: YAML nodes, and what is read from and set in a source manifest.
pub mod Update
pub mod Sound
pub mod Containers
use k8s_recommendation_engin.Prelude.{
  ℕ, zero, suc, ◌+◌, ◌≡◌, refl, Bool, true, false, not, ◌&&◌, ◌||◌, Option, none, some, List, [],
  ◌∷◌, String, str_eq, if◌then◌else◌, contains_text,
}

-- yaml.Node: `alias` nodes are never followed by the source, so what they point to is left out.
pub data NodeKind : Type 0 where
  document : NodeKind
  sequence : NodeKind
  mapping : NodeKind
  scalar : NodeKind
  alias : NodeKind

mutual
  pub data Node : Type 0 where
    node : (kind : NodeKind) (tag value anchor : String) (style : ℕ) (content : Content) → Node

  -- `Content`, a slice of nodes. A mapping has its keys and values in turn.
  pub data Content : Type 0 where
    end : Content
    item : Node → Content → Content

abbrev pub kind_of : Node → NodeKind
kind_of (node kind tag value anchor style content) = kind

abbrev pub value_of : Node → String
value_of (node kind tag value anchor style content) = value

abbrev pub content_of : Node → Content
content_of (node kind tag value anchor style content) = content

abbrev pub is_mapping : NodeKind → Bool
is_mapping mapping = true
is_mapping _ = false

abbrev pub is_sequence : NodeKind → Bool
is_sequence sequence = true
is_sequence _ = false

-- scalarNode; `is_int` is whether strconv.ParseInt reads the text.
abbrev pub scalar_node : (String → Bool) → String → Node
scalar_node is_int value = node scalar (if is_int value then "!!int" else "!!str") value "" 0 end

-- scalarValue
abbrev pub scalar_value : Option Node → String
scalar_value none = ""
scalar_value (some n) = value_of n

-- The loop of mappingValue over the keys and values.
unfoldable pub find_value : String → Content → Option Node
find_value key end = none
find_value key (item k end) = none
find_value key (item k (item v rest)) =
    let later = find_value key rest in if str_eq (value_of k) key then some v else later

-- mappingValue
unfoldable pub mapping_value : Option Node → String → Option Node
unfolding find_value
mapping_value none key = none
mapping_value (some (node kind tag value anchor style content)) key =
    if is_mapping kind then find_value key content else none

-- mappingPath
unfoldable pub mapping_path : Option Node → List String → Option Node
unfolding mapping_value
mapping_path current [] = current
mapping_path current (key ∷ path) = mapping_path (mapping_value current key) path

-- scalarAt
abbrev pub value_at : Option Node → Option String
value_at none = none
value_at (some n) = some (value_of n)

unfoldable pub scalar_at : Node → List String → Option String
unfolding mapping_path
scalar_at doc path = value_at (mapping_path (some doc) path)

abbrev pub with_pair : Node → Node → Option Content → Option Content
with_pair k v none = none
with_pair k v (some rest) = some (item k (item v rest))

-- The loop that puts a value at the first key that is the given one: `none` when there is none.
unfoldable pub replace_value : String → Node → Content → Option Content
replace_value key value end = none
replace_value key value (item k end) = none
replace_value key value (item k (item v rest)) =
    let later = replace_value key value rest in
    if str_eq (value_of k) key then some (item k (item value rest)) else with_pair k v later

-- `append(mapping.Content, key, value)`
unfoldable pub append_pair : Node → Node → Content → Content
append_pair key value end = item key (item value end)
append_pair key value (item n rest) = item n (append_pair key value rest)

abbrev pub with_content : Content → Node → Node
with_content content (node kind tag value anchor style old) =
    node kind tag value anchor style content

abbrev pub or_else : Option Content → Content → Content
or_else none other = other
or_else (some content) other = content

-- setMappingScalar
unfoldable pub set_mapping_scalar : (String → Bool) → String → String → Node → Node
unfolding replace_value append_pair
set_mapping_scalar is_int key value n =
    with_content
      (or_else (replace_value key (scalar_node is_int value) (content_of n))
        (append_pair (scalar_node is_int key) (scalar_node is_int value) (content_of n)))
      n

-- The insertion before the first of the keys that come after, or at the end.
unfoldable pub insert_before : List String → Node → Node → Content → Content
insert_before before_keys key value end = item key (item value end)
insert_before before_keys key value (item k end) = item k (item key (item value end))
insert_before before_keys key value (item k (item v rest)) =
    let later = insert_before before_keys key value rest in
    if contains_text before_keys (value_of k)
    then item key (item value (item k (item v rest)))
    else item k (item v later)

-- setMappingScalarBeforeAny
unfoldable pub set_mapping_scalar_before_any :
    (String → Bool) → List String → String → String → Node → Node
unfolding replace_value insert_before
set_mapping_scalar_before_any is_int before_keys key value n =
    with_content
      (or_else (replace_value key (scalar_node is_int value) (content_of n)) (
        insert_before before_keys (scalar_node is_int key) (scalar_node is_int value)
          (content_of n)))
      n

-- The reset of a value that is no mapping.
abbrev pub as_mapping : Node → Node
as_mapping (node kind tag value anchor style content) =
    if is_mapping kind
    then node kind tag value anchor style content
    else node mapping "!!map" "" anchor style end

-- The value under the key as a mapping: a new one when the key is missing.
abbrev pub child_mapping : Option Node → Node
child_mapping none = node mapping "" "" "" 0 end
child_mapping (some n) = as_mapping n

abbrev pub put_child : (String → Bool) → String → Option Node → Node → Node → Node
put_child is_int key none child n =
    with_content (append_pair (scalar_node is_int key) child (content_of n)) n
put_child is_int key (some found) child n =
    with_content (or_else (replace_value key child (content_of n)) (content_of n)) n

-- ensureMappingPath, and then what its callers do to the mapping that it returns. The source's
-- nodes are shared, so what is done to the last mapping of the path is seen from the first: here
-- each mapping of the path is built again.
unfoldable pub update_mapping_path : (String → Bool) → List String → (Node → Node) → Node → Node
unfolding mapping_value replace_value append_pair
update_mapping_path is_int [] update n = update n
update_mapping_path is_int (key ∷ path) update n =
    let found = mapping_value (some n) key in
    put_child is_int key found (update_mapping_path is_int path update (child_mapping found)) n

abbrev pub after_replicas : List String
after_replicas = "progressDeadlineSeconds" ∷ "selector" ∷ "strategy" ∷ "template" ∷ []

-- setScalarAt(document, value, "spec", "replicas")
unfoldable pub set_replicas : (String → Bool) → String → Node → Node
unfolding update_mapping_path set_mapping_scalar_before_any
set_replicas is_int value doc =
    update_mapping_path is_int ("spec" ∷ [])
      (set_mapping_scalar_before_any is_int after_replicas "replicas" value) doc

abbrev pub containers_path : List String
containers_path = "spec" ∷ "template" ∷ "spec" ∷ "containers" ∷ []

abbrev pub requests_path : List String
requests_path = "resources" ∷ "requests" ∷ []

-- The loop of containerRequestScalar over the containers.
unfoldable pub find_container : String → Content → Option Node
unfolding mapping_value
find_container name end = none
find_container name (item container rest) =
    let later = find_container name rest in
    if str_eq (scalar_value (mapping_value (some container) "name")) name
    then some container
    else later

abbrev pub request_of : Option Node → String → Option String
request_of none resource = none
request_of (some container) resource =
    value_at (mapping_value (mapping_path (some container) requests_path) resource)

abbrev pub container_list : Option Node → Option Content
container_list none = none
container_list (some (node kind tag value anchor style content)) =
    if is_sequence kind then some content else none

abbrev pub request_in : Option Content → String → String → Option String
request_in none name resource = none
request_in (some containers) name resource = request_of (find_container name containers) resource

-- containerRequestScalar
unfoldable pub container_request_scalar : Node → String → String → Option String
unfolding mapping_path find_container
container_request_scalar doc name resource =
    request_in (container_list (mapping_path (some doc) containers_path)) name resource

abbrev pub and_then {ℓ κ} : {A : Type ℓ} {B : Type κ} → Option A → (A → Option B) → Option B
and_then none f = none
and_then (some a) f = f a

-- A node found by mappingPath and changed in place: the nodes of the path are built again, and
-- `none` is a path that leads nowhere or a change that is not made.
unfoldable pub change_at : List String → (Node → Option Node) → Node → Option Node
unfolding mapping_value replace_value
change_at [] change n = change n
change_at (key ∷ path) change n = and_then (mapping_value (some n) key) (λ child.
    and_then (change_at path change child) (λ changed.
      and_then (replace_value key changed (content_of n))
        (λ content. some (with_content content n))))

abbrev pub after_container : Node → Option Content → Option Content
after_container container none = none
after_container container (some rest) = some (item container rest)

-- The loop of setContainerRequestScalar over the containers.
unfoldable pub change_container : String → (Node → Node) → Content → Option Content
unfolding mapping_value
change_container name change end = none
change_container name change (item container rest) =
    let later = change_container name change rest in
    if str_eq (scalar_value (mapping_value (some container) "name")) name
    then some (item (change container) rest)
    else after_container container later

abbrev pub change_containers : String → (Node → Node) → Node → Option Node
change_containers name change (node kind tag value anchor style content) =
    if is_sequence kind
    then and_then (change_container name change content)
        (λ changed. some (node kind tag value anchor style changed))
    else none

-- setContainerRequestScalar; `none` is the result false.
unfoldable pub set_container_request_scalar :
    (String → Bool) → String → String → String → Node → Option Node
unfolding change_at change_container update_mapping_path set_mapping_scalar
set_container_request_scalar is_int name resource value doc =
    change_at containers_path
      (change_containers name
        (update_mapping_path is_int requests_path (set_mapping_scalar is_int resource value)))
      doc

abbrev pub right_workload : String → String → String → Node → Bool
right_workload kind name namespace doc =
    let metadata = mapping_value (some doc) "metadata" in
    let document_namespace = scalar_value (mapping_value metadata "namespace") in
    str_eq (scalar_value (mapping_value (some doc) "kind")) kind
    && str_eq (scalar_value (mapping_value metadata "name")) name
    && (str_eq document_namespace "" || str_eq document_namespace namespace)

-- findWorkloadDocument
unfoldable pub find_workload_document : String → String → String → List Node → Option Node
unfolding mapping_value
find_workload_document kind name namespace [] = none
find_workload_document kind name namespace (doc ∷ docs) =
    let later = find_workload_document kind name namespace docs in
    if right_workload kind name namespace doc then some doc else later
