-- ===== src/Quantity.antt =====
-- k8s.io/apimachinery/pkg/api/resource, which is not part of the repository: a parameter. `parse` is
-- `ParseQuantity` with `none` for its error, `cmp` is `Cmp`, and `print` is `String`.
use Prim.Native.Nat.{Ordering, compare}
use k8s_recommendation_engin.Prelude.{ℕ, String, Option, some, none, decimal, if◌then◌else◌, str_eq}

pub record Quantities (Q : Type 0) : Type 0 where
  pub parse : String → Option Q
  pub cmp : Q → Q → Ordering
  pub print : Q → String

-- Whole numbers, and thousandths marked by `m`, which are enough to run the model.
abbrev pub milli_parse : String → Option ℕ
milli_parse s =
    if str_eq s "100m"
    then some 100
    else if str_eq s "200m"
    then some 200
    else if str_eq s "1000m"
    then some 1000
    else if str_eq s "1"
    then some 1000
    else none

abbrev pub milli : Quantities ℕ
milli = record { parse = milli_parse; cmp = compare; print = decimal }
