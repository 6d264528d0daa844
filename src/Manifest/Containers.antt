-- ===== src/Manifest/Containers.antt =====
-- Container requests and replicas, set in a manifest and read back.
use mathlib.Core.Path.{subst}
use k8s_recommendation_engin.Prelude.{
  ◌≡◌, refl, sym, ◌∙◌, ap, inl, inr, arith, Bool, true, false, Option, none, some, List, [], ◌∷◌,
  String, str_eq, eq_iff, Bool-cases,
}
use k8s_recommendation_engin.Manifest.{
  Node, Content, NodeKind, node, end, item, mapping, content_of, kind_of, is_mapping, sequence,
  mapping_value, mapping_path, replace_value, with_content, set_mapping_scalar, update_mapping_path,
  set_mapping_scalar_before_any, set_replicas, scalar_at, value_at, after_replicas, find_container,
  change_container, after_container, change_containers, change_at, and_then, scalar_value,
  requests_path, containers_path, request_of, container_list, container_request_scalar,
  set_container_request_scalar,
}
use k8s_recommendation_engin.Manifest.Update.{
  replace_value-sets, set_mapping_scalar-sets, set_mapping_scalar_before_any-sets, put_child-sets,
  some-injective, mapping_value-with_content,
}
use k8s_recommendation_engin.Manifest.Sound.{
  IsSound, AllSound, SoundIf, mapping_value-IsSound, IsPairs-content, update_mapping_path-reaches,
}

and_then-some {ℓ κ} :
    {A : Type ℓ} {B : Type κ} (o : Option A) (f : A → Option B) (b : B)
    → and_then o f ≡ some b
    → (a : A) × (o ≡ some a) × (f a ≡ some b)
and_then-some none f b h = absurd (ground arith)
and_then-some (some a) f b h = (a, refl, h)

mapping_value-is_mapping :
    (n : Node) (key : String) (v : Node)
    → mapping_value (some n) key ≡ some v
    → is_mapping (kind_of n) ≡ true
unfolding mapping_value
mapping_value-is_mapping (node kind tag value anchor style content) key v h =
    elim (Bool-cases (is_mapping kind)) [
      | inl maps ↦ maps
      | inr other ↦ absurd (ground (arith, h, other))
    ]

with_content-mapping_value :
    (key : String) (value n : Node) (content : Content)
    → is_mapping (kind_of n) ≡ true
    → replace_value key value (content_of n) ≡ some content
    → mapping_value (some (with_content content n)) key ≡ some value
with_content-mapping_value key value n content maps h =
    (mapping_value-with_content key value n content maps
      (replace_value-sets key value (content_of n) content h)).0

pub change_at-reaches :
    (path : List String) (change : Node → Option Node) (doc new : Node)
    → change_at path change doc ≡ some new
    → (n : Node) × (m : Node) × (mapping_path (some doc) path ≡ some n)
      × (change n ≡ some m)
      × (mapping_path (some new) path ≡ some m)
unfolding change_at mapping_path
change_at-reaches [] change doc new h = (doc, new, refl, h, refl)
change_at-reaches (key ∷ path) change doc new h =
    let (child, found, h1) = and_then-some (mapping_value (some doc) key) _ new h in
    let (changed, made, h2) = and_then-some (change_at path change child) _ new h1 in
    let (content, put, h3) = and_then-some (replace_value key changed (content_of doc)) _ new h2 in
    let (n, m, there, done, reached) = change_at-reaches path change child changed made in
    (
      n,
      m,
      rw found there,
      done,
      subst (λ r. mapping_path (mapping_value (some r) key) path ≡ some m) (some-injective _ _ h3)
          (rw
            (with_content-mapping_value key changed doc content
              (mapping_value-is_mapping doc key child found) put)
            reached),
    )

-- A change of a container that keeps its name.
abbrev KeepsName : (Node → Node) → Type 0
KeepsName change =
    (n : Node)
    → IsSound n
    → is_mapping (kind_of n) ≡ true
    → mapping_value (some (change n)) "name" ≡ mapping_value (some n) "name"

abbrev container_name : Node → String
container_name container = scalar_value (mapping_value (some container) "name")

named-is_mapping :
    (name : String) (n : Node)
    → str_eq name "" ≡ false
    → str_eq (container_name n) name ≡ true
    → is_mapping (kind_of n) ≡ true
unfolding mapping_value
named-is_mapping name (node kind tag value anchor style content) given same =
    elim (Bool-cases (is_mapping kind)) [
      | inl maps ↦ maps
      | inr other ↦ absurd (
          ground (
            arith,
            given,
            (eq_iff name "").1 (sym ((eq_iff "" name).0 (sym (rw other refl) ∙ same))),
          ))
    ]

-- The container of the name, and where the changed one is found.
abbrev Finds : String → (Node → Node) → Content → Content → Type 0
Finds name change old new =
    (container : Node) × IsSound container
    × (is_mapping (kind_of container) ≡ true)
    × (find_container name old ≡ some container)
    × (find_container name new ≡ some (change container))
    × ((other : String)
        → str_eq name other ≡ false
        → find_container other new ≡ find_container other old)

Finds-here :
    (name : String) (change : Node → Node) (container : Node) (rest : Content)
    → str_eq name "" ≡ false
    → KeepsName change
    → IsSound container
    → str_eq (container_name container) name ≡ true
    → Finds name change (item container rest) (item (change container) rest)
unfolding find_container
Finds-here name change container rest given keeps sound hit =
    let maps = named-is_mapping name container given hit in
    let kept : container_name (change container) ≡ container_name container =
      ap scalar_value (keeps container sound maps) in
    (
      container,
      sound,
      maps,
      rw hit refl,
      rw (kept, hit) refl,
      λ other differ. rw (kept, not_other other differ) refl,
    )
  where
    not_other :
        (other : String)
        → str_eq name other ≡ false
        → str_eq (container_name container) other ≡ false
    not_other other differ =
        ap (λ s. str_eq s other) ((eq_iff (container_name container) name).0 hit) ∙ differ

Finds-later :
    (name : String) (change : Node → Node) (container : Node) (old new : Content)
    → str_eq (container_name container) name ≡ false
    → Finds name change old new
    → Finds name change (item container old) (item container new)
unfolding find_container
Finds-later name change container old new miss (found, sound, maps, before, after, frame) = (
  found,
  sound,
  maps,
  rw miss before,
  rw miss after,
  λ other differ. rw (frame other differ) refl,
)

after_container-some :
    (container : Node) (rest : Option Content) (new : Content)
    → after_container container rest ≡ some new
    → (later : Content) × (rest ≡ some later) × (item container later ≡ new)
after_container-some container none new h = absurd (ground arith)
after_container-some container (some later) new h = (later, refl, some-injective _ _ h)

change_container-Finds :
    (name : String) (change : Node → Node) (old new : Content)
    → str_eq name "" ≡ false
    → KeepsName change
    → AllSound old
    → change_container name change old ≡ some new
    → Finds name change old new
unfolding change_container AllSound
change_container-Finds name change end new given keeps sound h = absurd (ground arith)
change_container-Finds name change (item container rest) new given keeps sound h =
    elim (Bool-cases (str_eq (container_name container) name)) [
      | inl hit ↦
          subst (Finds name change (item container rest))
            (some-injective (item (change container) rest) new (sym (rw hit refl) ∙ h))
            (Finds-here name change container rest given keeps sound.0 hit)
      | inr miss ↦
          let (later, made, same) =
            after_container-some container (change_container name change rest) new
              (sym (rw miss refl) ∙ h) in
          subst (Finds name change (item container rest)) same (
            Finds-later name change container rest later miss
              (change_container-Finds name change rest later given keeps sound.1 made))
    ]

mapping_path-IsSound :
    (path : List String) (found : Option Node) → SoundIf found → SoundIf (mapping_path found path)
unfolding mapping_path mapping_value
mapping_path-IsSound [] found h = h
mapping_path-IsSound (key ∷ path) none h = mapping_path-IsSound path none tt
mapping_path-IsSound (key ∷ path) (some n) h =
    mapping_path-IsSound path (mapping_value (some n) key) (mapping_value-IsSound key n h)

change_containers-Finds :
    (name : String) (change : Node → Node) (n m : Node)
    → str_eq name "" ≡ false
    → KeepsName change
    → IsSound n
    → change_containers name change n ≡ some m
    → (container_list (some n) ≡ some (content_of n))
      × (container_list (some m) ≡ some (content_of m))
      × Finds name change (content_of n) (content_of m)
unfolding IsSound
change_containers-Finds name change (node sequence tag value anchor style content) m given keeps
      sound h =
    let (changed, made, same) = and_then-some (change_container name change content) _ m h in
    subst
      (λ r.
        (some content ≡ some content)
        × (container_list (some r) ≡ some (content_of r))
        × Finds name change content (content_of r))
      (some-injective _ _ same)
      (refl, refl, change_container-Finds name change content changed given keeps sound.1 made)
change_containers-Finds name change (node NodeKind.document tag value anchor style content) m given
      keeps sound h =
    absurd (ground arith)
change_containers-Finds name change (node mapping tag value anchor style content) m given keeps
      sound h =
    absurd (ground arith)
change_containers-Finds name change (node NodeKind.scalar tag value anchor style content) m given
      keeps sound h =
    absurd (ground arith)
change_containers-Finds name change (node NodeKind.alias tag value anchor style content) m given
      keeps sound h =
    absurd (ground arith)

-- The change of one request.
abbrev set_request : (String → Bool) → String → String → Node → Node
set_request is_int resource value =
    update_mapping_path is_int requests_path (set_mapping_scalar is_int resource value)

set_request-KeepsName :
    (is_int : String → Bool) (resource value : String)
    → KeepsName (set_request is_int resource value)
unfolding update_mapping_path
set_request-KeepsName is_int resource value n sound maps =
    (put_child-sets is_int "resources" _ n maps (IsPairs-content n sound maps)).1 "name" refl

set_request-request_of :
    (is_int : String → Bool) (resource value : String) (n : Node)
    → IsSound n
    → is_mapping (kind_of n) ≡ true
    → (request_of (some (set_request is_int resource value n)) resource ≡ some value)
      × ((other : String)
          → str_eq resource other ≡ false
          → request_of (some (set_request is_int resource value n)) other
            ≡ request_of (some n) other)
set_request-request_of is_int resource value n sound maps =
    let (m, m_sound, m_map, reached, held) =
      update_mapping_path-reaches is_int requests_path (set_mapping_scalar is_int resource value) n
        sound maps in
    let (set, frame) =
      set_mapping_scalar-sets is_int resource value m m_map (IsPairs-content m m_sound m_map) in
    (
      rw (reached, set) refl,
      λ other differ. rw reached (ap value_at (frame other differ ∙ held other)),
    )

-- When `setContainerRequestScalar` returns true on a manifest as it is parsed, for a container with
-- a name, `containerRequestScalar` reads the new text, and for the container's other resources and
-- for the containers of other names what it read before.
pub set_container_request_scalar-sets :
    (is_int : String → Bool) (name resource value : String) (doc new : Node)
    → IsSound doc
    → str_eq name "" ≡ false
    → set_container_request_scalar is_int name resource value doc ≡ some new
    → (container_request_scalar new name resource ≡ some value)
      × ((other : String)
          → str_eq resource other ≡ false
          → container_request_scalar new name other ≡ container_request_scalar doc name other)
      × ((neighbour other : String)
          → str_eq name neighbour ≡ false
          → container_request_scalar new neighbour other
            ≡ container_request_scalar doc neighbour other)
unfolding set_container_request_scalar container_request_scalar
set_container_request_scalar-sets is_int name resource value doc new sound given h =
    let (n, m, there, done, reached) = change_at-reaches containers_path _ doc new h in
    let n_sound : IsSound n =
      subst SoundIf there (mapping_path-IsSound containers_path (some doc) sound) in
    let (listed, listed_after, finds) =
      change_containers-Finds name (set_request is_int resource value) n m given
        (set_request-KeepsName is_int resource value) n_sound done in
    let (container, c_sound, c_map, before, after, frame) = finds in
    let (set, others) = set_request-request_of is_int resource value container c_sound c_map in
    (
      rw (reached, listed_after, after) set,
      λ other differ.
          rw (reached, there, listed_after, listed, after, before) (others other differ),
      λ neighbour other differ.
          rw (reached, there, listed_after, listed, frame neighbour differ) refl,
    )

-- After `setScalarAt` of the replicas on a manifest as it is parsed, `scalarAt` reads them.
pub set_replicas-sets :
    (is_int : String → Bool) (value : String) (doc : Node)
    → IsSound doc
    → is_mapping (kind_of doc) ≡ true
    → scalar_at (set_replicas is_int value doc) ("spec" ∷ "replicas" ∷ []) ≡ some value
unfolding set_replicas scalar_at mapping_path
set_replicas-sets is_int value doc sound maps =
    let (m, m_sound, m_map, reached, held) =
      update_mapping_path-reaches is_int ("spec" ∷ [])
        (set_mapping_scalar_before_any is_int after_replicas "replicas" value) doc sound maps in
    rw
      (
        reached,
        (set_mapping_scalar_before_any-sets is_int after_replicas "replicas" value m m_map
            (IsPairs-content m m_sound m_map)).0,
      )
      refl
