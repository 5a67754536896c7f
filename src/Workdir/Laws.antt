-- ===== src/Workdir/Laws.antt =====
-- What a safe component cannot be.
use ormas_subnet.Common.{
  String, ◌≡◌, ◌≢◌, refl, true, false, Value, str, ok, ◌>>◌, arith, len, ◌≤◌, all_codes, has_code,
  has_code_of_all,
}
use ormas_subnet.Workdir.{
  is_safe_component, require_safe_component, is_component_code, first_is_alnum,
}

-- A path component that stays below its parent directory on POSIX and on Windows.
pub record IsContained (s : String) : Type 0 where
  pub nonempty : s ≢ ""
  pub not_here : s ≢ "."
  pub not_up : s ≢ ".."
  pub no_slash : has_code b'/' s ≡ false
  pub no_backslash : has_code 92 s ≡ false
  pub no_nul : has_code 0 s ≡ false
  pub bounded : len s ≤ 128

component_tests :
    (s : String)
    → is_safe_component s ≡ true
    → (first_is_alnum s ≡ true) × (all_codes is_component_code s ≡ true) × (len s ≤ 128)
unfolding is_safe_component
component_tests s h = ground arith

-- What `require_safe_component` returns is its argument, and a file name: not empty, not "." or
-- "..", of at most 128 characters, with no slash, backslash or NUL in it.
pub require_safe_component-IsContained :
    (v : Value) (name : String) {s : String}
    → require_safe_component v name ≡ ok s
    → (v ≡ str s) × IsContained s
unfolding require_safe_component ◌>>◌
require_safe_component-IsContained (str t) name {s} h =
    let (first, each, short) = component_tests t (ground arith) in
    let same : t ≡ s = ground arith in
    rw (← same) (
      refl,
      record {
        nonempty = λ e. cc (rw e at first);
        not_here = λ e. cc (rw e at first);
        not_up = λ e. cc (rw e at first);
        no_slash = has_code_of_all is_component_code b'/' t each refl;
        no_backslash = has_code_of_all is_component_code 92 t each refl;
        no_nul = has_code_of_all is_component_code 0 t each refl;
        bounded = short;
      },
    )
require_safe_component-IsContained _ name h = cc
