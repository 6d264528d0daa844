-- ===== src/Helm.antt =====
-- internal/analyzer/patch_plan.go: the scalars of a Helm values file, found by a path of keys and
-- changed in place.
mod Unique
pub mod Edit
pub mod Paths
pub mod Apply
use k8s_recommendation_engin.Prelude.{
  ℕ, Bool, true, false, not, ◌&&◌, ◌||◌, Option, none, some, List, [], ◌∷◌, String, str_eq,
  if◌then◌else◌, is_empty,
}
use k8s_recommendation_engin.Manifest.{
  Node, Content, NodeKind, node, end, item, scalar, alias, mapping, kind_of, value_of, content_of,
  is_mapping, change_at,
}

-- Why a path is refused: one constructor for each error of the source, with what its text names.
pub data HelmFault : Type 0 where
  empty_path : HelmFault
  traverses_anchor : String → HelmFault
  traverses_alias_before : String → HelmFault
  traverses_non_mapping : String → HelmFault
  malformed_mapping : HelmFault
  non_scalar_key : HelmFault
  merge_key : HelmFault
  duplicate_key : String → HelmFault
  selects_anchor : String → String → HelmFault
  traverses_alias_at : String → HelmFault
  no_scalar : HelmFault
  no_value : HelmFault
  value_changed : String → String → HelmFault
  unsupported_field : String → HelmFault
  no_source_path : String → HelmFault
  unsupported_operation : String → String → HelmFault
  paths_overlap : List String → List String → HelmFault

-- The results `(node, true, nil)`, `(nil, false, nil)` and `(nil, false, err)`.
pub data Lookup : Type 0 where
  found : Node → Lookup
  missing : Lookup
  fault : HelmFault → Lookup

abbrev pub tag_of : Node → String
tag_of (node kind tag value anchor style content) = tag

abbrev pub anchor_of : Node → String
anchor_of (node kind tag value anchor style content) = anchor

abbrev pub is_scalar : NodeKind → Bool
is_scalar scalar = true
is_scalar _ = false

abbrev pub is_alias : NodeKind → Bool
is_alias alias = true
is_alias _ = false

abbrev pub is_paired : Content → Bool
is_paired end = true
is_paired (item k end) = false
is_paired (item k (item v rest)) = is_paired rest

abbrev pub found_or_missing : Option Node → Lookup
found_or_missing none = missing
found_or_missing (some n) = found n

-- What the loop does at the key that is looked for: `result` is what it found before.
abbrev pub take_value : String → Option Node → (Option Node → Lookup) → Node → Lookup
take_value key none rest v = rest (some v)
take_value key (some result) rest v = fault (duplicate_key key)

-- The loop of uniqueHelmMappingValue.
unfoldable pub unique_from : String → Content → Option Node → Lookup
unique_from key end result = found_or_missing result
unique_from key (item k end) result = fault malformed_mapping
unique_from key (item k (item v rest)) result =
    let next = unique_from key rest result in
    let taken = take_value key result (unique_from key rest) v in
    if not (is_scalar (kind_of k))
    then fault non_scalar_key
    else if str_eq (value_of k) "<<" || str_eq (tag_of k) "!!merge"
    then fault merge_key
    else if str_eq (value_of k) key
    then taken
    else next

-- uniqueHelmMappingValue
unfoldable pub unique_helm_mapping_value : String → Content → Lookup
unfolding unique_from
unique_helm_mapping_value key content =
    if is_paired content then unique_from key content none else fault malformed_mapping

abbrev pub and_lookup : Lookup → (Node → Lookup) → Lookup
and_lookup (found n) next = next n
and_lookup missing next = missing
and_lookup (fault f) next = fault f

-- What the loop of helmScalarNodeAt asks of the value that it goes on with.
abbrev pub admit : String → Bool → Node → Lookup
admit key is_last next =
    if not (str_eq (anchor_of next) "")
    then fault (selects_anchor (anchor_of next) key)
    else if not is_last && is_alias (kind_of next)
    then fault (traverses_alias_at key)
    else found next

-- The body of the loop of helmScalarNodeAt: the value under the key, or why there is none.
unfoldable pub enter : Node → String → Bool → Lookup
unfolding unique_helm_mapping_value
enter (node kind tag value anchor style content) key is_last =
    if not (str_eq anchor "")
    then fault (traverses_anchor anchor)
    else if is_alias kind
    then fault (traverses_alias_before key)
    else if not (is_mapping kind)
    then fault (traverses_non_mapping key)
    else and_lookup (unique_helm_mapping_value key content) (admit key is_last)

abbrev pub leaf : Node → Lookup
leaf n =
    if not (is_scalar (kind_of n)) || str_eq (tag_of n) "!!null" then fault no_scalar else found n

unfoldable pub helm_walk : List String → Node → Lookup
unfolding enter
helm_walk [] current = leaf current
helm_walk (key ∷ path) current = and_lookup (enter current key (is_empty path)) (helm_walk path)

-- helmScalarNodeAt
unfoldable pub helm_scalar_node_at : Node → List String → Lookup
unfolding helm_walk
helm_scalar_node_at doc path = if is_empty path then fault empty_path else helm_walk path doc

-- helmScalarAt
pub data Reading : Type 0 where
  reads : String → Reading
  reads_none : Reading
  refused : HelmFault → Reading

abbrev pub reading_of : Lookup → Reading
reading_of (found n) = reads (value_of n)
reading_of missing = reads_none
reading_of (fault f) = refused f

unfoldable pub helm_scalar_at : Node → List String → Reading
unfolding helm_scalar_node_at
helm_scalar_at doc path = reading_of (helm_scalar_node_at doc path)

-- The node after the change: its anchor is kept, and its style where it is a string.
abbrev pub replaced : (String → Bool) → String → Bool → Node → Node
replaced is_int value string_value (node kind tag old anchor style content) =
    if string_value || str_eq tag "!!str" || not (is_int value)
    then node scalar "!!str" value anchor style end
    else node scalar "!!int" value anchor 0 end

-- A document after a change, or the error.
pub data Edited : Type 0 where
  edited : Node → Edited
  rejected : HelmFault → Edited

abbrev pub changed_or : Node → Option Node → Node
changed_or doc none = doc
changed_or doc (some new) = new

abbrev pub set_found : (String → Bool) → Node → List String → String → Bool → Lookup → Edited
set_found is_int doc path value string_value (found n) =
    edited
      (changed_or doc (change_at path (λ leaf. some (replaced is_int value string_value leaf)) doc))
set_found is_int doc path value string_value missing = rejected no_value
set_found is_int doc path value string_value (fault f) = rejected f

-- setHelmScalarAt
unfoldable pub set_helm_scalar_at : (String → Bool) → Node → List String → String → Bool → Edited
unfolding helm_scalar_node_at change_at
set_helm_scalar_at is_int doc path value string_value =
    set_found is_int doc path value string_value (helm_scalar_node_at doc path)
