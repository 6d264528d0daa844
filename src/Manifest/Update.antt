-- ===== src/Manifest/Update.antt =====
-- Reading back what was set in a mapping.
use mathlib.Core.Path.{subst}
use k8s_recommendation_engin.Prelude.{
  ◌≡◌, refl, sym, ◌∙◌, ap, inl, inr, arith, Bool, true, false, Option, none, some, List, String,
  str_eq, eq_iff, if◌then◌else◌, contains_text, Bool-cases, Option-cases,
}
use k8s_recommendation_engin.Manifest.{
  Node, Content, node, end, item, value_of, content_of, kind_of, is_mapping, scalar_node,
  find_value, mapping_value, replace_value, with_pair, append_pair, insert_before, or_else,
  with_content, set_mapping_scalar, set_mapping_scalar_before_any, put_child,
}

-- Keys and values in turn.
unfoldable pub IsPairs : Content → Type 0
IsPairs end = Unit
IsPairs (item k end) = ⊥
IsPairs (item k (item v rest)) = IsPairs rest

-- The first value of the key is the new one, and those of the other keys are as they were.
abbrev pub IsSetTo : String → Node → Content → Content → Type 0
IsSetTo key value old new =
    (find_value key new ≡ some value)
    × ((other : String) → str_eq key other ≡ false → find_value other new ≡ find_value other old)
    × (IsPairs old → IsPairs new)

IsSetTo-pair :
    (key : String) (value k v : Node) (old new : Content)
    → str_eq (value_of k) key ≡ false
    → IsSetTo key value old new
    → IsSetTo key value (item k (item v old)) (item k (item v new))
unfolding find_value IsPairs
IsSetTo-pair key value k v old new miss (found, frame, pairs) =
    (rw miss found, λ other differ. rw (frame other differ) refl, pairs)

-- A new pair before the others, none of which has its key.
IsSetTo-new :
    (is_int : String → Bool) (key : String) (value : Node) (old : Content)
    → IsSetTo key value old (item (scalar_node is_int key) (item value old))
unfolding find_value IsPairs
IsSetTo-new is_int key value old =
    (rw ((eq_iff key key).1 refl) refl, λ other differ. rw differ refl, λ pairs. pairs)

IsSetTo-here :
    (key : String) (value k v : Node) (rest : Content)
    → str_eq (value_of k) key ≡ true
    → IsSetTo key value (item k (item v rest)) (item k (item value rest))
unfolding find_value IsPairs
IsSetTo-here key value k v rest hit =
    (rw hit refl, λ other differ. rw (not_other other differ) refl, λ pairs. pairs)
  where
    not_other : (other : String) → str_eq key other ≡ false → str_eq (value_of k) other ≡ false
    not_other other differ = ap (λ s. str_eq s other) ((eq_iff (value_of k) key).0 hit) ∙ differ

pub some-injective {ℓ} : {A : Type ℓ} (a b : A) → some a ≡ some b → a ≡ b
some-injective {A} a b h = ap value h
  where
    value : Option A → A
    value none = a
    value (some x) = x

pub with_pair-some :
    (k v : Node) (rest : Option Content) (new : Content)
    → with_pair k v rest ≡ some new
    → (later : Content) × (rest ≡ some later) × (item k (item v later) ≡ new)
with_pair-some k v none new h = absurd (ground arith)
with_pair-some k v (some later) new h = (later, refl, some-injective (item k (item v later)) new h)

with_pair-none : (k v : Node) (rest : Option Content) → with_pair k v rest ≡ none → rest ≡ none
with_pair-none k v none h = refl
with_pair-none k v (some later) h = absurd (ground arith)

pub replace_value-sets :
    (key : String) (value : Node) (old new : Content)
    → replace_value key value old ≡ some new
    → IsSetTo key value old new
unfolding replace_value find_value IsPairs
replace_value-sets key value end new h = absurd (ground arith)
replace_value-sets key value (item k end) new h = absurd (ground arith)
replace_value-sets key value (item k (item v rest)) new h =
    elim (Bool-cases (str_eq (value_of k) key)) [
      | inl hit ↦
          subst (IsSetTo key value (item k (item v rest)))
            (some-injective (item k (item value rest)) new (sym (rw hit refl) ∙ h))
            (IsSetTo-here key value k v rest hit)
      | inr miss ↦
          let (later, found, same) =
            with_pair-some k v (replace_value key value rest) new (sym (rw miss refl) ∙ h) in
          subst (IsSetTo key value (item k (item v rest))) same (
            IsSetTo-pair key value k v rest later miss
              (replace_value-sets key value rest later found))
    ]

pub replace_value-none :
    (key : String) (value : Node) (old : Content)
    → replace_value key value old ≡ none
    → find_value key old ≡ none
unfolding replace_value find_value
replace_value-none key value end h = refl
replace_value-none key value (item k end) h = refl
replace_value-none key value (item k (item v rest)) h =
    elim (Bool-cases (str_eq (value_of k) key)) [
      | inl hit ↦ absurd (ground (arith, h, hit))
      | inr miss ↦ rw miss (
          replace_value-none key value rest
            (with_pair-none k v (replace_value key value rest) (sym (rw miss refl) ∙ h)))
    ]

append_pair-sets :
    (is_int : String → Bool) (key : String) (value : Node) (old : Content)
    → IsPairs old
    → find_value key old ≡ none
    → IsSetTo key value old (append_pair (scalar_node is_int key) value old)
unfolding append_pair find_value IsPairs
append_pair-sets is_int key value end pairs h = IsSetTo-new is_int key value end
append_pair-sets is_int key value (item k end) pairs h = absurd pairs
append_pair-sets is_int key value (item k (item v rest)) pairs h =
    elim (Bool-cases (str_eq (value_of k) key)) [
      | inl hit ↦ absurd (ground arith)
      | inr miss ↦
          IsSetTo-pair key value k v rest _ miss
            (append_pair-sets is_int key value rest pairs (ground arith))
    ]

insert_before-sets :
    (is_int : String → Bool) (before_keys : List String) (key : String) (value : Node)
    (old : Content)
    → IsPairs old
    → find_value key old ≡ none
    → IsSetTo key value old (insert_before before_keys (scalar_node is_int key) value old)
unfolding insert_before find_value IsPairs
insert_before-sets is_int before_keys key value end pairs h = IsSetTo-new is_int key value end
insert_before-sets is_int before_keys key value (item k end) pairs h = absurd pairs
insert_before-sets is_int before_keys key value (item k (item v rest)) pairs h =
    elim (Bool-cases (str_eq (value_of k) key)) [
      | inl hit ↦ absurd (ground arith)
      | inr miss ↦ elim (Bool-cases (contains_text before_keys (value_of k))) [
        | inl here ↦ subst placed (sym here) (IsSetTo-new is_int key value (item k (item v rest)))
        | inr later ↦ subst placed (sym later) (
            IsSetTo-pair key value k v rest _ miss
              (insert_before-sets is_int before_keys key value rest pairs (sym (rw miss refl) ∙ h)))
      ]
    ]
  where
    placed : Bool → Type 0
    placed first = IsSetTo key value (item k (item v rest)) (
        if first
        then item (scalar_node is_int key) (item value (item k (item v rest)))
        else item k (item v (insert_before before_keys (scalar_node is_int key) value rest)))

or_else-sets :
    (key : String) (value : Node) (old added : Content)
    → (find_value key old ≡ none → IsSetTo key value old added)
    → IsSetTo key value old (or_else (replace_value key value old) added)
or_else-sets key value old added h = elim (Option-cases (replace_value key value old)) [
  | inl missing ↦
      subst (λ r. IsSetTo key value old (or_else r added)) (sym missing)
        (h (replace_value-none key value old missing))
  | inr (new, there) ↦
      subst (λ r. IsSetTo key value old (or_else r added)) (sym there)
        (replace_value-sets key value old new there)
]

-- mappingValue after a change of the content of a mapping.
pub mapping_value-with_content :
    (key : String) (value n : Node) (content : Content)
    → is_mapping (kind_of n) ≡ true
    → IsSetTo key value (content_of n) content
    → (mapping_value (some (with_content content n)) key ≡ some value)
      × ((other : String)
          → str_eq key other ≡ false
          → mapping_value (some (with_content content n)) other ≡ mapping_value (some n) other)
unfolding mapping_value
mapping_value-with_content key value (node kind tag text anchor style old) content h
      (found, frame, pairs) =
    (rw h found, λ other differ. rw h (frame other differ))

-- After `setMappingScalar` on a mapping, its key has the new text and every other key the value
-- that it had.
pub set_mapping_scalar-sets :
    (is_int : String → Bool) (key value : String) (n : Node)
    → is_mapping (kind_of n) ≡ true
    → IsPairs (content_of n)
    → (mapping_value (some (set_mapping_scalar is_int key value n)) key
        ≡ some (scalar_node is_int value))
      × ((other : String)
          → str_eq key other ≡ false
          → mapping_value (some (set_mapping_scalar is_int key value n)) other
            ≡ mapping_value (some n) other)
unfolding set_mapping_scalar
set_mapping_scalar-sets is_int key value n h pairs =
    mapping_value-with_content key (scalar_node is_int value) n _ h (
      or_else-sets key (scalar_node is_int value) (content_of n) _
        (append_pair-sets is_int key (scalar_node is_int value) (content_of n) pairs))

-- So also where the source keeps the order of the keys that come after the new one.
pub set_mapping_scalar_before_any-sets :
    (is_int : String → Bool) (before_keys : List String) (key value : String) (n : Node)
    → is_mapping (kind_of n) ≡ true
    → IsPairs (content_of n)
    → (mapping_value (some (set_mapping_scalar_before_any is_int before_keys key value n)) key
        ≡ some (scalar_node is_int value))
      × ((other : String)
          → str_eq key other ≡ false
          → mapping_value
              (some (set_mapping_scalar_before_any is_int before_keys key value n))
              other
            ≡ mapping_value (some n) other)
unfolding set_mapping_scalar_before_any
set_mapping_scalar_before_any-sets is_int before_keys key value n h pairs =
    mapping_value-with_content key (scalar_node is_int value) n _ h (
      or_else-sets key (scalar_node is_int value) (content_of n) _
        (insert_before-sets is_int before_keys key (scalar_node is_int value) (content_of n) pairs))

mapping_value-content :
    (key : String) (n : Node)
    → is_mapping (kind_of n) ≡ true
    → mapping_value (some n) key ≡ find_value key (content_of n)
unfolding mapping_value
mapping_value-content key (node kind tag text anchor style content) h = rw h refl

put_child-found :
    (is_int : String → Bool) (key : String) (found : Option Node) (child n : Node)
    → is_mapping (kind_of n) ≡ true
    → IsPairs (content_of n)
    → find_value key (content_of n) ≡ found
    → (mapping_value (some (put_child is_int key found child n)) key ≡ some child)
      × ((other : String)
          → str_eq key other ≡ false
          → mapping_value (some (put_child is_int key found child n)) other
            ≡ mapping_value (some n) other)
put_child-found is_int key none child n h pairs e =
    mapping_value-with_content key child n _ h
      (append_pair-sets is_int key child (content_of n) pairs e)
put_child-found is_int key (some found) child n h pairs e =
    mapping_value-with_content key child n _ h (
      or_else-sets key child (content_of n) (content_of n)
        (λ missing. absurd (some-none found (sym e ∙ missing))))
  where
    some-none : (a : Node) → some a ≡ none → ⊥
    some-none a h = ground arith

pub put_child-sets :
    (is_int : String → Bool) (key : String) (child n : Node)
    → is_mapping (kind_of n) ≡ true
    → IsPairs (content_of n)
    → (mapping_value (some (put_child is_int key (mapping_value (some n) key) child n)) key
        ≡ some child)
      × ((other : String)
          → str_eq key other ≡ false
          → mapping_value (some (put_child is_int key (mapping_value (some n) key) child n)) other
            ≡ mapping_value (some n) other)
put_child-sets is_int key child n h pairs =
    put_child-found is_int key (mapping_value (some n) key) child n h pairs
      (sym (mapping_value-content key n h))
