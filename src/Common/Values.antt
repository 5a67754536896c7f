-- ===== src/Common/Values.antt =====
-- The values of Python that cross the wire, and dictionaries with text keys.
use Prim.Native.String.{String}
use mathlib.Core.Path.{◌≡◌}
use mathlib.Core.Bool.{Bool, true, false}
use mathlib.Core.Option.{Option, none, some}
use mathlib.Core.List.{List, [], ◌∷◌}
use native.Mathlib.Omega.{arith}
use text.Mathlib.Text.{◌==◌ as str_eq}
use text.Mathlib.TextEquality.{eq_iff}
use ormas_subnet.Common.Tests.{if◌then◌else◌}
use ormas_subnet.Common.Numbers.{ℤ, Float}

mutual
  pub data Value : Type 0 where
    null : Value
    boolean : Bool → Value
    int : ℤ → Value
    float : Float → Value
    str : String → Value
    arr : Items → Value
    obj : Entries → Value

  pub data Items : Type 0 where
    nil : Items
    cons : Value → Items → Items

  pub data Entries : Type 0 where
    end : Entries
    entry : String → Value → Entries → Entries

abbrev pub items : Items → List Value
items nil = []
items (cons v vs) = v ∷ items vs

abbrev pub of_list : List Value → Items
of_list [] = nil
of_list (v ∷ vs) = cons v (of_list vs)

-- `set(d)`, `d.keys()`
abbrev pub keys : Entries → List String
keys end = []
keys (entry k v es) = k ∷ keys es

-- `d.get(k)` with an absent key kept apart from `None`
abbrev pub get : String → Entries → Option Value
get k end = none
get k (entry j v es) = if str_eq k j then some v else get k es

-- `d.get(k)`
abbrev pub get_or_null : String → Entries → Value
get_or_null k es = elim (get k es) [ none ↦ null | some v ↦ v ]

-- `d[k] = v`: a key that is there keeps its place
unfoldable pub put : String → Value → Entries → Entries
put k v end = entry k v end
put k v (entry j w es) = if str_eq k j then entry j v es else entry j w (put k v es)

-- `d.pop(k, None)`
unfoldable pub remove : String → Entries → Entries
remove k end = end
remove k (entry j v es) = let rest = remove k es in if str_eq k j then rest else entry j v rest

pub get-put :
    (k j : String) (v : Value) (es : Entries)
    → get j (put k v es) ≡ (if str_eq j k then some v else get j es)
unfolding put
get-put k j v end = ground (arith, eq_iff j k)
get-put k j v (entry i w es) = ground (arith, eq_iff k i, eq_iff j i, eq_iff j k, get-put k j v es)

pub get-remove :
    (k j : String) (es : Entries) → get j (remove k es) ≡ (if str_eq j k then none else get j es)
unfolding remove
get-remove k j end = ground arith
get-remove k j (entry i w es) =
    ground (arith, eq_iff k i, eq_iff j i, eq_iff j k, get-remove k j es)

-- `isinstance(v, str) and v`
abbrev pub is_text : Value → Bool
is_text (str s) = if str_eq s "" then false else true
is_text _ = false
