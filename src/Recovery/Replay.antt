-- ===== src/Recovery/Replay.antt =====
-- `completion_for_wire` of ormas_subnet/_recovery.py: the completion that is sent again.
pub mod Laws
use ormas_subnet.Common.{
  ◌≡◌, ℕ, leb, ◌^◌, ◌-◌, ◌+◌, Bool, true, false, not, ◌&&◌, ◌||◌, String, List, [], ◌∷◌, Option,
  none, some, is_some, pos, negsuc, ℤ, Float, is_finite, float_neg, int_eq, int_neg, pos_part,
  neg_part, Value, null, boolean, int, float, str, arr, obj, nil, Entries, keys, get, get_or_null,
  put, remove, same_set, Exc, type_error, overflow_error, recovery_required, Result, ok, err, ◌>>=◌,
  ◌>>◌, guard, str_eq, len, if◌then◌else◌,
}
use ormas_subnet.Recovery.{equals_int, is_str, same_str, hashable}

-- `_LEGACY_FAILURE_CAPTURE_KEYS`
abbrev pub legacy_keys : List String
legacy_keys =
    "status" ∷ "scope_ok" ∷ "file_count" ∷ "changed_paths" ∷ "wall_s" ∷ "failure_class" ∷ "error"
    ∷ []

abbrev pub state_of_class : String → Option String
state_of_class s =
    if str_eq s "public_execution_interrupted"
    then some "aborted"
    else (if str_eq s "base_preflight_non_red" then some "failed" else none)

-- `_LEGACY_PUBLIC_FAILURE_STATES.get(failure_class)`
abbrev pub expected_state : Value → Result (Option String)
expected_state (str s) = ok (state_of_class s)
expected_state v = if hashable v then ok none else err type_error

abbrev pub is_false : Value → Bool
is_false (boolean b) = not b
is_false _ = false

abbrev pub is_zero_int : Value → Bool
is_zero_int (int n) = int_eq n (pos 0)
is_zero_int _ = false

abbrev pub is_empty_list : Value → Bool
is_empty_list (arr nil) = true
is_empty_list _ = false

abbrev pub is_number : Value → Bool
is_number (int n) = true
is_number (float x) = true
is_number _ = false

-- `float(n)` overflows from half a unit below 2 ** 1024 on.
abbrev pub overflows : ℤ → Bool
overflows n = leb (2 ^ 1024 - 2 ^ 970) (pos_part n + neg_part n)

-- `math.isfinite(float(wall_s)) and not float(wall_s) < 0`, for a number
abbrev pub is_duration : Value → Result Bool
is_duration (int n) = if overflows n then err overflow_error else ok (not (int_neg n))
is_duration (float x) = ok (is_finite x && not (float_neg x))
is_duration _ = ok false

abbrev pub is_short_text : Value → Bool
is_short_text (str s) = leb (len s) 500
is_short_text _ = false

abbrev pub is_absent : Value → Bool
is_absent null = true
is_absent _ = false

-- The terminal of a failure of those releases. The `lease_id` of a record is a text.
abbrev pub is_legacy_terminal : Entries → String → Value → Bool
is_legacy_terminal body state (obj terminal) =
    same_str (get_or_null "lease_id" terminal) (get_or_null "lease_id" body)
    && is_str state (get_or_null "verification_state" terminal)
    && is_absent (get_or_null "result_ref" terminal)
    && is_str "" (get_or_null "result_commit" terminal)
is_legacy_terminal body state _ = false

abbrev pub not_canonical : Exc
not_canonical = recovery_required "legacy public failure capture is not canonical"

abbrev pub state_or_refuse : Option String → Result String
state_or_refuse none = err not_canonical
state_or_refuse (some s) = ok s

-- The completion without the diagnostics of its capture.
abbrev pub without_error : Entries → Entries → Entries
without_error completion capture = put "capture" (obj (remove "error" capture)) completion

unfoldable pub project_legacy : Entries → Entries → Entries → Result Entries
project_legacy body completion capture = do
  expected ← expected_state (get_or_null "failure_class" capture)
  guard
      (same_set (keys capture) legacy_keys
        && is_str "failed" (get_or_null "status" capture)
        && is_false (get_or_null "scope_ok" capture)
        && is_zero_int (get_or_null "file_count" capture)
        && is_empty_list (get_or_null "changed_paths" capture)
        && is_number (get_or_null "wall_s" capture))
      not_canonical
  duration ← is_duration (get_or_null "wall_s" capture)
  guard (duration && is_short_text (get_or_null "error" capture)) not_canonical
  state ← state_or_refuse expected
  guard (is_legacy_terminal body state (get_or_null "terminal" completion)) not_canonical
  ok (without_error completion capture)

abbrev pub has_error : Value → Bool
has_error (obj capture) = is_some (get "error" capture)
has_error _ = false

abbrev pub replay_legacy : Entries → Entries → Value → Result Entries
replay_legacy body completion (obj capture) = project_legacy body completion capture
replay_legacy body completion _ = ok completion

-- By the version of the capture.
unfoldable pub replay : Entries → Entries → Result Entries
replay body completion =
    if equals_int 2 (get_or_null "completion_capture_version" body)
    then (if has_error (get_or_null "capture" completion)
        then err (recovery_required "versioned public capture contains local diagnostics")
        else ok completion)
    else if not (has_error (get_or_null "capture" completion))
    then (if equals_int 1 (get_or_null "version" body)
        then err (
            recovery_required "legacy public recovery lacks frozen publication scope authorization")
        else ok completion)
    else replay_legacy body completion (get_or_null "capture" completion)

abbrev pub replay_completion : Entries → Value → Result Entries
replay_completion body (obj completion) = replay body completion
replay_completion body _ = err (recovery_required "public completion recovery record is corrupt")

-- For the record that it is given, or the pending one.
unfoldable pub completion_for_wire : Option Entries → Result Entries
completion_for_wire none = err (recovery_required "public completion recovery record is missing")
completion_for_wire (some body) =
    if is_str "completion" (get_or_null "stage" body)
    then replay_completion body (get_or_null "completion" body)
    else err (recovery_required "public completion recovery record is missing")
