-- ===== src/Manifest/Sound.antt =====
-- The mappings of a manifest as it is parsed, and the one that `ensureMappingPath` returns.
use mathlib.Core.Path.{subst}
use k8s_recommendation_engin.Prelude.{
  ◌≡◌, refl, ◌∙◌, inl, inr, Bool, true, false, Option, none, some, List, [], ◌∷◌, String, str_eq,
  Bool-cases,
}
use k8s_recommendation_engin.Manifest.{
  Node, Content, NodeKind, node, end, item, mapping, value_of, content_of, kind_of, is_mapping,
  find_value, mapping_value, mapping_path, child_mapping, update_mapping_path,
}
use k8s_recommendation_engin.Manifest.Update.{IsPairs, put_child-sets}

abbrev pub PairsIf : Bool → Content → Type 0
PairsIf true content = IsPairs content
PairsIf false content = Unit

-- What a YAML parser yields: every mapping has a value for each of its keys.
unfoldable mutual
  pub IsSound : Node → Type 0
  IsSound (node kind tag value anchor style content) =
      PairsIf (is_mapping kind) content × AllSound content

  pub AllSound : Content → Type 0
  AllSound end = Unit
  AllSound (item n rest) = IsSound n × AllSound rest

abbrev pub SoundIf : Option Node → Type 0
SoundIf none = Unit
SoundIf (some n) = IsSound n

find_value-IsSound :
    (key : String) (content : Content) → AllSound content → SoundIf (find_value key content)
unfolding find_value AllSound
find_value-IsSound key end h = tt
find_value-IsSound key (item k end) h = tt
find_value-IsSound key (item k (item v rest)) h = elim (Bool-cases (str_eq (value_of k) key)) [
  | inl hit ↦ rw hit h.1.0
  | inr miss ↦ rw miss (find_value-IsSound key rest h.1.1)
]

pub mapping_value-IsSound :
    (key : String) (n : Node) → IsSound n → SoundIf (mapping_value (some n) key)
unfolding mapping_value IsSound
mapping_value-IsSound key (node kind tag value anchor style content) h =
    elim (Bool-cases (is_mapping kind)) [
      | inl maps ↦ rw maps (find_value-IsSound key content h.1)
      | inr other ↦ rw other tt
    ]

pub IsPairs-content :
    (n : Node) → IsSound n → is_mapping (kind_of n) ≡ true → IsPairs (content_of n)
unfolding IsSound
IsPairs-content (node kind tag value anchor style content) h maps =
    subst (λ b. PairsIf b content) maps h.0

-- The mapping that the next step goes on with: it is sound, and holds what the value held.
child_mapping-IsSound :
    (found : Option Node)
    → SoundIf found
    → IsSound (child_mapping found)
      × (is_mapping (kind_of (child_mapping found)) ≡ true)
      × ((key : String) → mapping_value (some (child_mapping found)) key ≡ mapping_value found key)
unfolding IsSound mapping_value IsPairs AllSound find_value
child_mapping-IsSound none h = ((tt, tt), refl, λ key. refl)
child_mapping-IsSound (some (node mapping tag value anchor style content)) h =
    (h, refl, λ key. refl)
child_mapping-IsSound (some (node NodeKind.document tag value anchor style content)) h =
    ((tt, tt), refl, λ key. refl)
child_mapping-IsSound (some (node NodeKind.sequence tag value anchor style content)) h =
    ((tt, tt), refl, λ key. refl)
child_mapping-IsSound (some (node NodeKind.scalar tag value anchor style content)) h =
    ((tt, tt), refl, λ key. refl)
child_mapping-IsSound (some (node NodeKind.alias tag value anchor style content)) h =
    ((tt, tt), refl, λ key. refl)

mapping_value-mapping_path :
    (path : List String) (left right : Option Node) (key : String)
    → ((step : String) → mapping_value left step ≡ mapping_value right step)
    → mapping_value (mapping_path left path) key ≡ mapping_value (mapping_path right path) key
unfolding mapping_path
mapping_value-mapping_path [] left right key h = h key
mapping_value-mapping_path (step ∷ path) left right key h = rw (h step) refl

-- The mapping that `ensureMappingPath` returns: it holds what stood at the path, and what its
-- callers make of it stands there afterwards.
pub update_mapping_path-reaches :
    (is_int : String → Bool) (path : List String) (update : Node → Node) (n : Node)
    → IsSound n
    → is_mapping (kind_of n) ≡ true
    → (m : Node) × IsSound m
      × (is_mapping (kind_of m) ≡ true)
      × (mapping_path (some (update_mapping_path is_int path update n)) path ≡ some (update m))
      × ((key : String)
          → mapping_value (some m) key ≡ mapping_value (mapping_path (some n) path) key)
unfolding update_mapping_path mapping_path
update_mapping_path-reaches is_int [] update n h maps = (n, h, maps, refl, λ key. refl)
update_mapping_path-reaches is_int (step ∷ path) update n h maps =
    let (sound, is_map, same) =
      child_mapping-IsSound (mapping_value (some n) step) (mapping_value-IsSound step n h) in
    let (m, m_sound, m_map, reached, held) =
      update_mapping_path-reaches is_int path update (child_mapping (mapping_value (some n) step))
        sound is_map in
    (
      m,
      m_sound,
      m_map,
      rw
          ((put_child-sets is_int step
            (update_mapping_path is_int path update (child_mapping (mapping_value (some n) step))) n
            maps (IsPairs-content n h maps)).0)
          reached,
      λ key. held key ∙ mapping_value-mapping_path path _ _ key same,
    )
