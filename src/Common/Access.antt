-- ===== src/Common/Access.antt =====
-- Reading Python's values: truth, `d[k]`, `v[k]` and `v.get(k)`.
use Prim.Native.String.{String}
use mathlib.Core.Bool.{Bool, true, false, not}
use mathlib.Core.Option.{none, some}
use text.Mathlib.Text.{◌==◌ as str_eq}
use ormas_subnet.Common.Numbers.{pos, int_eq, float_eq, finite}
use ormas_subnet.Common.Values.{
  Value, null, boolean, int, float, str, arr, obj, nil, cons, Entries, end, entry, get, get_or_null,
}
use ormas_subnet.Common.Results.{Result, ok, err, key_error, type_error, attribute_error}

-- Python's truth value of a value.
abbrev pub truthy : Value → Bool
truthy null = false
truthy (boolean b) = b
truthy (int n) = not (int_eq n (pos 0))
truthy (float x) = not (float_eq x (finite (pos 0) (pos 0)))
truthy (str s) = not (str_eq s "")
truthy (arr nil) = false
truthy (arr (cons v vs)) = true
truthy (obj end) = false
truthy (obj (entry k v es)) = true

-- `d[k]` on a dictionary
abbrev pub require_key : String → Entries → Result Value
require_key k es = elim (get k es) [ none ↦ err key_error | some v ↦ ok v ]

-- `v[k]`, for a text `k`
abbrev pub index : String → Value → Result Value
index k (obj es) = require_key k es
index k _ = err type_error

-- `v.get(k)`
abbrev pub method_get : String → Value → Result Value
method_get k (obj es) = ok (get_or_null k es)
method_get k _ = err attribute_error

-- `v == s`, for a text `s`
abbrev pub says : String → Value → Bool
says s (str t) = str_eq t s
says s _ = false
