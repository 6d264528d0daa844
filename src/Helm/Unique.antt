-- ===== src/Helm/Unique.antt =====
-- `uniqueHelmMappingValue` on a mapping whose value at a key is replaced.
use mathlib.Core.Path.{subst}
use k8s_recommendation_engin.Prelude.{
  ◌≡◌, refl, sym, ◌∙◌, ap, inl, inr, arith, true, false, ◌||◌, Option, none, some, String, str_eq,
  eq_iff, Bool-cases, Option-cases,
}
use k8s_recommendation_engin.Manifest.{
  Node, Content, end, item, kind_of, value_of, find_value, replace_value,
}
use k8s_recommendation_engin.Manifest.Update.{some-injective, with_pair-some, replace_value-none}
use k8s_recommendation_engin.Helm.{
  Lookup, found, missing, fault, tag_of, is_scalar, is_paired, unique_from,
  unique_helm_mapping_value,
}

pub found-injective : (a b : Node) → found a ≡ found b → a ≡ b
found-injective a b h = ap node_of h
  where
    node_of : Lookup → Node
    node_of (found n) = n
    node_of missing = a
    node_of (fault f) = a

-- What stays of a mapping whose value at a key is replaced.
pub data Replaced (key : String) (value : Node) : Content → Content → Type 0 where
  here :
      {k v : Node} {rest : Content}
      → str_eq (value_of k) key ≡ true
      → Replaced key value (item k (item v rest)) (item k (item value rest))
  later :
      {k v : Node} {old new : Content}
      → str_eq (value_of k) key ≡ false
      → Replaced key value old new
      → Replaced key value (item k (item v old)) (item k (item v new))

pub replace_value-Replaced :
    (key : String) (value : Node) (old new : Content)
    → replace_value key value old ≡ some new
    → Replaced key value old new
unfolding replace_value
replace_value-Replaced key value end new h = absurd (ground arith)
replace_value-Replaced key value (item k end) new h = absurd (ground arith)
replace_value-Replaced key value (item k (item v rest)) new h =
    elim (Bool-cases (str_eq (value_of k) key)) [
      | inl hit ↦
          subst (Replaced key value (item k (item v rest)))
            (some-injective (item k (item value rest)) new (sym (rw hit refl) ∙ h)) (here hit)
      | inr miss ↦
          let (last, made, same) =
            with_pair-some k v (replace_value key value rest) new (sym (rw miss refl) ∙ h) in
          subst (Replaced key value (item k (item v rest))) same
            (later miss (replace_value-Replaced key value rest last made))
    ]

is_paired-Replaced :
    {key : String} {value : Node} {old new : Content}
    → Replaced key value old new
    → is_paired new ≡ is_paired old
is_paired-Replaced (here hit) = refl
is_paired-Replaced (later miss r) = is_paired-Replaced r

unique_from-other :
    {key : String} {value : Node} {old new : Content} (other : String) (result : Option Node)
    → str_eq key other ≡ false
    → Replaced key value old new
    → unique_from other new result ≡ unique_from other old result
unfolding unique_from
unique_from-other {key} other result differ (here {k} hit) =
    rw (ap (λ s. str_eq s other) ((eq_iff (value_of k) key).0 hit) ∙ differ) refl
unique_from-other other none differ (later {v} miss r) =
    rw (unique_from-other other none differ r, unique_from-other other (some v) differ r) refl
unique_from-other other (some a) differ (later miss r) =
    rw (unique_from-other other (some a) differ r) refl

unique_from-again :
    (key : String) (a b c : Node) (content : Content)
    → unique_from key content (some a) ≡ found c
    → (a ≡ c) × (unique_from key content (some b) ≡ found b)
unfolding unique_from
unique_from-again key a b c end h = (found-injective a c h, refl)
unique_from-again key a b c (item k end) h = absurd (ground arith)
unique_from-again key a b c (item k (item v rest)) h = elim (Bool-cases (is_scalar (kind_of k))) [
  | inr other ↦ absurd (ground (arith, h, other))
  | inl plain ↦ elim (Bool-cases (str_eq (value_of k) "<<" || str_eq (tag_of k) "!!merge")) [
    | inl merge ↦ absurd (ground (arith, h, plain, merge))
    | inr clean ↦ elim (Bool-cases (str_eq (value_of k) key)) [
      | inl hit ↦ absurd (ground (arith, h, plain, clean, hit))
      | inr miss ↦
          rw (plain, clean, miss)
            (unique_from-again key a b c rest (sym (rw (plain, clean, miss) refl) ∙ h))
    ]
  ]
]

unique_from-Replaced :
    {key : String} {value : Node} {old new : Content} (child : Node)
    → Replaced key value old new
    → unique_from key old none ≡ found child
    → (find_value key old ≡ some child) × (unique_from key new none ≡ found value)
unfolding unique_from find_value
unique_from-Replaced {key} {value} child (here {k} {v} {rest} hit) h =
    elim (Bool-cases (is_scalar (kind_of k))) [
      | inr other ↦ absurd (ground (arith, h, other))
      | inl plain ↦ elim (Bool-cases (str_eq (value_of k) "<<" || str_eq (tag_of k) "!!merge")) [
        | inl merge ↦ absurd (ground (arith, h, plain, merge))
        | inr clean ↦
            let (same, again) =
              unique_from-again key v value child rest (sym (rw (plain, clean, hit) refl) ∙ h) in
            rw (plain, clean, hit) (ap some same, again)
      ]
    ]
unique_from-Replaced {key} child (later {k} {v} {old} miss r) h =
    elim (Bool-cases (is_scalar (kind_of k))) [
      | inr other ↦ absurd (ground (arith, h, other))
      | inl plain ↦ elim (Bool-cases (str_eq (value_of k) "<<" || str_eq (tag_of k) "!!merge")) [
        | inl merge ↦ absurd (ground (arith, h, plain, merge))
        | inr clean ↦
            rw (plain, clean, miss)
              (unique_from-Replaced child r (sym (rw (plain, clean, miss) refl) ∙ h))
      ]
    ]

pub unique-Replaced :
    {key : String} {value : Node} {old new : Content} (child : Node)
    → Replaced key value old new
    → unique_helm_mapping_value key old ≡ found child
    → (find_value key old ≡ some child) × (unique_helm_mapping_value key new ≡ found value)
unfolding unique_helm_mapping_value
unique-Replaced {old} child r h = elim (Bool-cases (is_paired old)) [
  | inl paired ↦
      rw (is_paired-Replaced r, paired) (unique_from-Replaced child r (sym (rw paired refl) ∙ h))
  | inr odd ↦ absurd (ground (arith, h, odd))
]

unique_from-none :
    (key : String) (content : Content) (child : Node)
    → find_value key content ≡ none
    → unique_from key content none ≡ found child
    → ⊥
unfolding unique_from find_value
unique_from-none key end child none_found h = ground arith
unique_from-none key (item k end) child none_found h = ground arith
unique_from-none key (item k (item v rest)) child none_found h =
    elim (Bool-cases (str_eq (value_of k) key)) [
      | inl hit ↦ ground (arith, none_found, hit)
      | inr miss ↦ elim (Bool-cases (is_scalar (kind_of k))) [
        | inr other ↦ ground (arith, h, other)
        | inl plain ↦ elim (Bool-cases (str_eq (value_of k) "<<" || str_eq (tag_of k) "!!merge")) [
          | inl merge ↦ ground (arith, h, plain, merge)
          | inr clean ↦
              unique_from-none key rest child (sym (rw miss refl) ∙ none_found)
                (sym (rw (plain, clean, miss) refl) ∙ h)
        ]
      ]
    ]

-- A value that is found can be replaced.
pub unique-replace_value :
    (key : String) (value : Node) (content : Content) (child : Node)
    → unique_helm_mapping_value key content ≡ found child
    → (new : Content) × (replace_value key value content ≡ some new)
unfolding unique_helm_mapping_value
unique-replace_value key value content child h =
    elim (Option-cases (replace_value key value content)) [
      | inr (new, there) ↦ (new, there)
      | inl lacks ↦ elim (Bool-cases (is_paired content)) [
        | inr odd ↦ absurd (ground (arith, h, odd))
        | inl paired ↦ absurd (
            unique_from-none key content child (replace_value-none key value content lacks)
              (sym (rw paired refl) ∙ h))
      ]
    ]

pub unique-other :
    {key : String} {value : Node} {old new : Content} (other : String)
    → str_eq key other ≡ false
    → Replaced key value old new
    → unique_helm_mapping_value other new ≡ unique_helm_mapping_value other old
unfolding unique_helm_mapping_value
unique-other other differ r = rw (is_paired-Replaced r, unique_from-other other none differ r) refl
