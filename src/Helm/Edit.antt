-- ===== src/Helm/Edit.antt =====
-- Reading back a Helm value that was set.
use mathlib.Core.Path.{subst}
use k8s_recommendation_engin.Prelude.{
  ℕ, ◌≡◌, refl, sym, ◌∙◌, ap, inl, inr, arith, Bool, false, not, ◌&&◌, ◌||◌, some, List, [], ◌∷◌,
  String, str_eq, eq_iff, is_empty, Bool-cases,
}
use k8s_recommendation_engin.Manifest.{
  Node, Content, NodeKind, mapping, scalar, alias, node, kind_of, value_of, content_of, is_mapping,
  with_content, mapping_value, replace_value, change_at,
}
use k8s_recommendation_engin.Helm.Paths.{helm_paths_overlap}
use k8s_recommendation_engin.Helm.{
  Lookup, found, missing, fault, tag_of, anchor_of, is_scalar, is_alias, unique_helm_mapping_value,
  and_lookup, admit, enter, leaf, helm_walk, helm_scalar_node_at, reads, reading_of, helm_scalar_at,
  replaced, edited, set_helm_scalar_at,
}
use k8s_recommendation_engin.Helm.Unique.{
  found-injective, replace_value-Replaced, unique-Replaced, unique-replace_value, unique-other,
}

-- A value that stands for another as far as the steps before it can see.
abbrev AreAlike : Node → Node → Type 0
AreAlike new old =
    (anchor_of new ≡ anchor_of old) × (is_alias (kind_of new) ≡ is_alias (kind_of old))

admit-AreAlike :
    (key : String) (is_last : Bool) (new old child : Node)
    → AreAlike new old
    → admit key is_last old ≡ found child
    → (old ≡ child) × (admit key is_last new ≡ found new)
admit-AreAlike key is_last new old child (anchors, kinds) h =
    elim (Bool-cases (str_eq (anchor_of old) "")) [
      | inr named ↦ absurd (ground (arith, h, named))
      | inl free ↦ elim (Bool-cases (not is_last && is_alias (kind_of old))) [
        | inl other ↦ absurd (ground (arith, h, free, other))
        | inr plain ↦ (
          found-injective old child (sym (rw (free, plain) refl) ∙ h),
          rw (anchors, kinds, free, plain) refl,
        )
      ]
    ]

and_lookup-found :
    (l : Lookup) (next : Node → Lookup) (n : Node)
    → and_lookup l next ≡ found n
    → (m : Node) × (l ≡ found m) × (next m ≡ found n)
and_lookup-found (found m) next n h = (m, refl, h)
and_lookup-found missing next n h = absurd (ground arith)
and_lookup-found (fault f) next n h = absurd (ground arith)

-- A step onto a value: what it asked, and what it gives once the value is replaced.
enter-set :
    (n : Node) (key : String) (is_last : Bool) (child value : Node)
    → enter n key is_last ≡ found child
    → AreAlike value child
    → (content : Content) × (mapping_value (some n) key ≡ some child)
      × (replace_value key value (content_of n) ≡ some content)
      × (enter (with_content content n) key is_last ≡ found value)
      × ((other : String) (last : Bool)
          → str_eq key other ≡ false
          → enter (with_content content n) other last ≡ enter n other last)
unfolding enter mapping_value
enter-set (node kind tag text anchor style old) key is_last child value h alike =
    elim (Bool-cases (str_eq anchor "")) [
      | inr named ↦ absurd (ground (arith, h, named))
      | inl free ↦ elim (Bool-cases (is_alias kind)) [
        | inl other ↦ absurd (ground (arith, h, free, other))
        | inr plain ↦ elim (Bool-cases (is_mapping kind)) [
          | inr flat ↦ absurd (ground (arith, h, free, plain, flat))
          | inl maps ↦
              let (v, unique, admitted) =
                and_lookup-found (unique_helm_mapping_value key old) (admit key is_last) child
                  (sym (rw (free, plain, maps) refl) ∙ h) in
              let same : v ≡ child =
                (admit-AreAlike key is_last v v child (refl, refl) admitted).0 in
              let (content, made) = unique-replace_value key value old v unique in
              let r = replace_value-Replaced key value old content made in
              let (there, again) = unique-Replaced v r unique in
              let passes : admit key is_last value ≡ found value =
                (admit-AreAlike key is_last value v child (subst (AreAlike value) (sym same) alike)
                  admitted).1 in
              (
                content,
                rw (maps, there) (ap some same),
                made,
                rw (free, plain, maps, again) passes,
                λ other last differ. rw (unique-other other differ r) refl,
              )
        ]
      ]
    ]

leaf-found : (n target : Node) → leaf n ≡ found target → n ≡ target
leaf-found n target h =
    elim (Bool-cases (not (is_scalar (kind_of n)) || str_eq (tag_of n) "!!null")) [
      | inl other ↦ absurd (ground (arith, h, other))
      | inr plain ↦ found-injective n target (sym (rw plain refl) ∙ h)
    ]

with_content-AreAlike : (content : Content) (n : Node) → AreAlike (with_content content n) n
with_content-AreAlike content (node kind tag value anchor style old) = (refl, refl)

-- What is done to a scalar that is found: it stays one, without an anchor if it had none.
abbrev IsScalarChange : (Node → Node) → Type 0
IsScalarChange change =
    (n : Node) → leaf n ≡ found n → AreAlike (change n) n × (leaf (change n) ≡ found (change n))

-- A path that parts from a changed one sees nothing of the change.
helm_walk-apart :
    (key : String) (path : List String) (n changed child new : Node)
    → enter n key (is_empty path) ≡ found child
    → enter changed key (is_empty path) ≡ found new
    → ((other : String) (last : Bool)
        → str_eq key other ≡ false
        → enter changed other last ≡ enter n other last)
    → ((other : List String)
        → helm_paths_overlap path other ≡ false
        → helm_walk other new ≡ helm_walk other child)
    → (other : List String) → helm_paths_overlap (key ∷ path) other ≡ false
    → helm_walk other changed ≡ helm_walk other n
unfolding helm_walk helm_paths_overlap
helm_walk-apart key path n changed child new before after others frame [] apart =
    absurd (ground arith)
helm_walk-apart key path n changed child new before after others frame (step ∷ rest) apart =
    elim (Bool-cases (str_eq key step)) [
      | inr differ ↦ rw (others step (is_empty rest) differ) refl
      | inl same ↦
          same_step path rest before after (sym (rw same refl) ∙ apart) frame
            ((eq_iff key step).0 same)
    ]
  where
    same_step :
        (path rest : List String)
        → enter n key (is_empty path) ≡ found child
        → enter changed key (is_empty path) ≡ found new
        → helm_paths_overlap path rest ≡ false
        → ((other : List String)
            → helm_paths_overlap path other ≡ false
            → helm_walk other new ≡ helm_walk other child)
        → key ≡ step
        → helm_walk (step ∷ rest) changed ≡ helm_walk (step ∷ rest) n
    same_step [] rest before after apart frame same = absurd (ground arith)
    same_step (p ∷ ps) [] before after apart frame same = absurd (ground arith)
    same_step (p ∷ ps) (r ∷ rs) before after apart frame same =
        rw
          (
            ap (λ s. enter changed s false) (sym same) ∙ after,
            ap (λ s. enter n s false) (sym same) ∙ before,
          )
          (frame (r ∷ rs) apart)

helm_walk-set :
    (change : Node → Node) (path : List String) (n target : Node)
    → IsScalarChange change
    → helm_walk path n ≡ found target
    → (new : Node) × (change_at path (λ m. some (change m)) n ≡ some new)
      × AreAlike new n
      × (helm_walk path new ≡ found (change target))
      × ((other : List String)
          → helm_paths_overlap path other ≡ false
          → helm_walk other new ≡ helm_walk other n)
unfolding helm_walk change_at helm_paths_overlap
helm_walk-set change [] n target keeps h =
    let same : n ≡ target = leaf-found n target h in
    let (alike, again) = keeps n (subst (λ t. leaf n ≡ found t) (sym same) h) in
    (
      change n,
      refl,
      alike,
      again ∙ ap (λ t. found (change t)) same,
      λ other apart. absurd (ground arith),
    )
helm_walk-set change (key ∷ path) n target keeps h =
    let (child, entered, walked) =
      and_lookup-found (enter n key (is_empty path)) (helm_walk path) target h in
    let (new, changed, alike, reached, frame) =
      helm_walk-set change path child target keeps walked in
    let (content, there, made, enters, others) =
      enter-set n key (is_empty path) child new entered alike in
    (
      with_content content n,
      rw (there, changed, made) refl,
      with_content-AreAlike content n,
      rw enters reached,
      helm_walk-apart key path n (with_content content n) child new entered enters others frame,
    )

is_alias-leaf :
    (kind : NodeKind) (tag value anchor : String) (style : ℕ) (content : Content)
    → leaf (node kind tag value anchor style content)
      ≡ found (node kind tag value anchor style content)
    → false ≡ is_alias kind
is_alias-leaf scalar tag value anchor style content h = refl
is_alias-leaf alias tag value anchor style content h = absurd (ground arith)
is_alias-leaf mapping tag value anchor style content h = refl
is_alias-leaf NodeKind.sequence tag value anchor style content h = refl
is_alias-leaf NodeKind.document tag value anchor style content h = refl

replaced-IsScalarChange :
    (is_int : String → Bool) (value : String) (string_value : Bool)
    → IsScalarChange (replaced is_int value string_value)
replaced-IsScalarChange is_int value string_value (node kind tag old anchor style content) h =
    let plain = is_alias-leaf kind tag old anchor style content h in
    elim (Bool-cases (string_value || str_eq tag "!!str" || not (is_int value))) [
      | inl text ↦ rw text ((refl, plain), refl)
      | inr number ↦ rw number ((refl, plain), refl)
    ]

value_of-replaced :
    (is_int : String → Bool) (value : String) (string_value : Bool) (n : Node)
    → value_of (replaced is_int value string_value n) ≡ value
value_of-replaced is_int value string_value (node kind tag old anchor style content) =
    elim (Bool-cases (string_value || str_eq tag "!!str" || not (is_int value))) [
      | inl text ↦ rw text refl
      | inr number ↦ rw number refl
    ]

reading_of-reads :
    (l : Lookup) (value : String) → reading_of l ≡ reads value → (n : Node) × (l ≡ found n)
reading_of-reads (found n) value h = (n, refl)
reading_of-reads missing value h = absurd (ground arith)
reading_of-reads (fault f) value h = absurd (ground arith)

-- Where `helmScalarAt` reads a value, `setHelmScalarAt` succeeds; afterwards the path reads the new
-- text, and a path of which neither begins with the other reads, or fails, as it did before.
pub set_helm_scalar_at-sets :
    (is_int : String → Bool) (doc : Node) (path : List String) (old value : String)
    (string_value : Bool)
    → helm_scalar_at doc path ≡ reads old
    → (new : Node) × (set_helm_scalar_at is_int doc path value string_value ≡ edited new)
      × (helm_scalar_at new path ≡ reads value)
      × ((other : List String)
          → helm_paths_overlap path other ≡ false
          → helm_scalar_at new other ≡ helm_scalar_at doc other)
unfolding set_helm_scalar_at helm_scalar_at helm_scalar_node_at helm_paths_overlap
set_helm_scalar_at-sets is_int doc [] old value string_value h = absurd (ground arith)
set_helm_scalar_at-sets is_int doc (key ∷ path) old value string_value h =
    let (target, walked) = reading_of-reads (helm_walk (key ∷ path) doc) old h in
    let (new, changed, alike, reached, frame) =
      helm_walk-set (replaced is_int value string_value) (key ∷ path) doc target
        (replaced-IsScalarChange is_int value string_value) walked in
    (
      new,
      rw (walked, changed) refl,
      rw reached (ap reads (value_of-replaced is_int value string_value target)),
      elsewhere new frame,
    )
  where
    elsewhere :
        (new : Node)
        → ((other : List String)
            → helm_paths_overlap (key ∷ path) other ≡ false
            → helm_walk other new ≡ helm_walk other doc)
        → (other : List String) → helm_paths_overlap (key ∷ path) other ≡ false
        → helm_scalar_at new other ≡ helm_scalar_at doc other
    elsewhere new frame [] apart = refl
    elsewhere new frame (step ∷ rest) apart = rw (frame (step ∷ rest) apart) refl
