-- ===== src/Common/Equality.antt =====
-- `v == w` on Python's values: numbers by what they count, dictionaries up to order.
use mathlib.Core.Bool.{Bool, true, false, ◌&&◌}
use mathlib.Core.Option.{Option, none, some}
use text.Mathlib.Text.{◌==◌ as str_eq}
use ormas_subnet.Common.Tests.{is_some, if◌then◌else◌}
use ormas_subnet.Common.Lists.{subset}
use ormas_subnet.Common.Numbers.{Float, finite, pos, float_eq}
use ormas_subnet.Common.Values.{
  Value, null, boolean, int, float, str, arr, obj, Items, nil, cons, Entries, end, entry, get,
  get_or_null, keys,
}

abbrev number_of : Value → Option Float
number_of (boolean b) = some (finite (pos (if b then 1 else 0)) (pos 0))
number_of (int n) = some (finite n (pos 0))
number_of (float x) = some x
number_of _ = none

abbrev pub equals_float : Option Float → Option Float → Bool
equals_float (some x) (some y) = float_eq x y
equals_float _ _ = false

unfoldable mutual
  pub value_eq : Value → Value → Bool
  value_eq null null = true
  value_eq (str s) (str t) = str_eq s t
  value_eq (arr vs) (arr ws) = items_eq vs ws
  value_eq (obj es) (obj fs) = entries_in es fs && subset (keys fs) (keys es)
  value_eq v w = equals_float (number_of v) (number_of w)

  pub items_eq : Items → Items → Bool
  items_eq nil nil = true
  items_eq (cons v vs) (cons w ws) = value_eq v w && items_eq vs ws
  items_eq _ _ = false

  pub entries_in : Entries → Entries → Bool
  entries_in end fs = true
  entries_in (entry k v es) fs =
      is_some (get k fs) && value_eq v (get_or_null k fs) && entries_in es fs
