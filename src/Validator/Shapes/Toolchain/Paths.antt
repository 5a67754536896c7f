-- ===== src/Validator/Shapes/Toolchain/Paths.antt =====
-- The paths and requirements of a toolchain of ormas_subnet/validator.py, code point by code point.
use Prim.Native.Char.{code}
use Prim.Native.String.{◌∷◌ as prepend, [] as empty}
use ormas_subnet.Common.{
  ◌≡◌, ◌≢◌, ◌⊎◌, inl, inr, refl, ap, ℕ, ◌==◌, Bool, true, false, not, ◌&&◌, and-eq-true,
  or-eq-false, not-eq-true, Bool-cases, String, List, [], ◌∷◌, Value, str, All, starts_with,
  has_code, any_code, ends_with, is_space, split, elem, str_eq, concat, arith, is_alnum,
  if◌then◌else◌,
}
use ormas_subnet.Workdir.{first_is_alnum}
use ormas_subnet.Validator.Shapes.Toolchain.{
  State, at_name, in_name, at_extra, in_extra, closed, at_operator, after_eq, after_eq_eq,
  after_angle, at_eq, at_version, in_version, failed, advance, run_from, is_requirement,
  before_last_bracket, has_extras, editable_install_path_ok, editable_path, lock_path_ok,
}

-- Every code point of the text has the property.
abbrev pub EachCode : (ℕ → Type 0) → String → Type 0
EachCode P empty = Unit
EachCode P (prepend c s) = P (code c) × EachCode P s

-- The text does not begin with a slash.
abbrev pub IsRelative : String → Type 0
IsRelative empty = Unit
IsRelative (prepend c s) = code c ≢ b'/'

-- The text begins with a bracket.
abbrev pub OpensExtras : String → Type 0
OpensExtras empty = ⊥
OpensExtras (prepend c s) = code c ≡ b'['

-- None of the parts between slashes leads upwards.
abbrev pub StaysBelow : String → Type 0
StaysBelow path = All (λ part. part ≢ "..") (split b'/' path)

not_in : (p : ℕ → Bool) (s : String) → any_code p s ≡ false → EachCode (λ c. p c ≡ false) s
not_in p empty h = tt
not_in p (prepend c s) h =
    let b = or-eq-false (p (code c)) (any_code p s) h in (b.0, not_in p s b.1)

EachCode-map : (P Q : ℕ → Type 0) (s : String) → ((c : ℕ) → P c → Q c) → EachCode P s → EachCode Q s
EachCode-map P Q empty f h = tt
EachCode-map P Q (prepend c s) f h = (f (code c) h.0, EachCode-map P Q s f h.1)

without : (k : ℕ) (s : String) → has_code k s ≡ false → EachCode (λ c. c ≢ k) s
without k s h =
    EachCode-map (λ c. (c == k) ≡ false) (λ c. c ≢ k) s (λ c e. ground arith)
      (not_in (λ c. c == k) s h)

relative : (s : String) → starts_with "/" s ≡ false → IsRelative s
relative empty h = tt
relative (prepend c s) h = ground arith

below : (parts : List String) → elem ".." parts ≡ false → All (λ part. part ≢ "..") parts
below [] h = tt
below (part ∷ parts) h =
    let b = or-eq-false (str_eq ".." part) (elem ".." parts) h in
    (λ e. cc (rw e at b.0), below parts b.1)

named : (s : String) → str_eq s "" ≡ false → s ≢ ""
named s h = λ e. cc (rw e at h)

-- A text with a bracket is what comes before the last one, and what begins with it.
bracket_splits :
    (s : String)
    → has_code b'[' s ≡ true
    → (extras : String) × (concat (before_last_bracket s) extras ≡ s) × OpensExtras extras
unfolding before_last_bracket
bracket_splits empty h = cc h
bracket_splits (prepend c s) h = elim (Bool-cases (has_code b'[' s)) [
  | inl t ↦
      let (extras, joined, opens) = bracket_splits s t in
      rw t (extras, ap (prepend c) joined, opens)
  | inr n ↦
      let here : (code c == b'[') ≡ true = ground arith in
      rw (n, here) (prepend c s, refl, ground arith)
]

-- An editable path of the repository: a path that is not empty and has no ".." among its parts,
-- with extras in brackets after it or none; all of it relative, with no backslash, colon or space.
pub record IsEditable (path : String) : Type 0 where
  pub base : String
  pub extras : String
  pub joined : concat base extras ≡ path
  pub marked : (extras ≡ "") ⊎ OpensExtras extras
  pub nonempty : base ≢ ""
  pub stays_below : StaysBelow base
  pub starts_relative : IsRelative path
  pub no_backslash : EachCode (λ c. c ≢ 92) path
  pub no_colon : EachCode (λ c. c ≢ b':') path
  pub no_space : EachCode (λ c. is_space c ≡ false) path

concat_empty : (s : String) → concat s "" ≡ s
concat_empty empty = refl
concat_empty (prepend c s) = ap (prepend c) (concat_empty s)

-- The base of a path: what comes before its extras, or the path.
abbrev Based : String → Type 0
Based path =
    (base : String) × (extras : String) × (concat base extras ≡ path)
    × ((extras ≡ "") ⊎ OpensExtras extras)
    × (base ≢ "")
    × StaysBelow base

based :
    (path : String)
    → str_eq path "" ≡ false
    → (if has_extras path
        then not (str_eq (before_last_bracket path) "")
          && not (elem ".." (split b'/' (before_last_bracket path)))
        else not (elem ".." (split b'/' path)))
      ≡ true
    → Based path
based path n h = elim (Bool-cases (has_extras path)) [
  | inl t ↦
      let e = and-eq-true (ends_with b']' path) (has_code b'[' path) t in
      let (extras, joined, opens) = bracket_splits path e.1 in
      let base = before_last_bracket path in
      let b = and-eq-true (not (str_eq base "")) (not (elem ".." (split b'/' base))) (rw t at h) in
      (
        base,
        extras,
        joined,
        inr opens,
        named base (not-eq-true _ b.0),
        below (split b'/' base) (not-eq-true _ b.1),
      )
  | inr f ↦ (
    path,
    "",
    concat_empty path,
    inl refl,
    named path n,
    below (split b'/' path) (not-eq-true _ (rw f at h)),
  )
]

pub editable_install_path_ok-IsEditable :
    (path : String) → editable_install_path_ok path ≡ true → IsEditable path
unfolding editable_install_path_ok
editable_install_path_ok-IsEditable path h =
    let (both, tail) = and-eq-true _ _ h in
    let (plain, spaceless) = and-eq-true _ _ both in
    let (three, colon) = or-eq-false _ _ (not-eq-true _ plain) in
    let (two, backslash) = or-eq-false _ _ three in
    let (named_path, slash) = or-eq-false _ _ two in
    let b = based path named_path tail in
    record {
      base = b.0;
      extras = b.1;
      joined = b.2;
      marked = b.3;
      nonempty = b.4;
      stays_below = b.5;
      starts_relative = relative path slash;
      no_backslash = without 92 path backslash;
      no_colon = without b':' path colon;
      no_space = not_in is_space path (not-eq-true _ spaceless);
    }

pub editable_path-IsEditable :
    (v : Value) → editable_path v ≡ true → (path : String) × (v ≡ str path) × IsEditable path
editable_path-IsEditable (str s) h = (s, refl, editable_install_path_ok-IsEditable s h)
editable_path-IsEditable _ h = cc h

-- A lock path of the repository: relative, not empty, with no backslash and no part "..".
pub record IsLockPath (v : Value) : Type 0 where
  pub path : String
  pub path_is : v ≡ str path
  pub nonempty : path ≢ ""
  pub starts_relative : IsRelative path
  pub no_backslash : EachCode (λ c. c ≢ 92) path
  pub stays_below : StaysBelow path

pub lock_path_ok-IsLockPath : (v : Value) → lock_path_ok v ≡ true → IsLockPath v
lock_path_ok-IsLockPath (str s) h =
    let (n, later) = and-eq-true (not (str_eq s "")) _ h in
    let (two, parts) = or-eq-false _ _ (not-eq-true _ later) in
    let (slash, backslash) = or-eq-false _ _ two in
    record {
      path = s;
      path_is = refl;
      nonempty = named s (not-eq-true _ n);
      starts_relative = relative s slash;
      no_backslash = without 92 s backslash;
      stays_below = below (split b'/' s) parts;
    }
lock_path_ok-IsLockPath _ h = cc h

-- A requirement begins with a letter or digit, and has no slash, colon or at sign: it is no option
-- of pip, no path, and no address.
pub record IsName (s : String) : Type 0 where
  pub starts : first_is_alnum s ≡ true
  pub no_slash : EachCode (λ c. c ≢ b'/') s
  pub no_colon : EachCode (λ c. c ≢ b':') s
  pub no_at : EachCode (λ c. c ≢ b'@') s

failed_stays : (s : String) → run_from failed s ≡ false
unfolding run_from advance
failed_stays empty = refl
failed_stays (prepend c s) = failed_stays s

-- A code at which every state fails is in no text that is accepted.
never_accepted :
    (k : ℕ)
    → ((state : State) → advance state k ≡ failed)
    → (state : State) (s : String) → run_from state s ≡ true
    → EachCode (λ c. c ≢ k) s
unfolding run_from
never_accepted k fails state empty h = tt
never_accepted k fails state (prepend c s) h = (
  λ e. cc (failed_stays s, rw (e, fails state) at h),
  never_accepted k fails (advance state (code c)) s h,
)

slash_fails : (state : State) → advance state b'/' ≡ failed
unfolding advance
slash_fails at_name = refl
slash_fails in_name = refl
slash_fails at_extra = refl
slash_fails in_extra = refl
slash_fails closed = refl
slash_fails at_operator = refl
slash_fails after_eq = refl
slash_fails after_eq_eq = refl
slash_fails after_angle = refl
slash_fails at_eq = refl
slash_fails at_version = refl
slash_fails in_version = refl
slash_fails failed = refl

colon_fails : (state : State) → advance state b':' ≡ failed
unfolding advance
colon_fails at_name = refl
colon_fails in_name = refl
colon_fails at_extra = refl
colon_fails in_extra = refl
colon_fails closed = refl
colon_fails at_operator = refl
colon_fails after_eq = refl
colon_fails after_eq_eq = refl
colon_fails after_angle = refl
colon_fails at_eq = refl
colon_fails at_version = refl
colon_fails in_version = refl
colon_fails failed = refl

at_fails : (state : State) → advance state b'@' ≡ failed
unfolding advance
at_fails at_name = refl
at_fails in_name = refl
at_fails at_extra = refl
at_fails in_extra = refl
at_fails closed = refl
at_fails at_operator = refl
at_fails after_eq = refl
at_fails after_eq_eq = refl
at_fails after_angle = refl
at_fails at_eq = refl
at_fails at_version = refl
at_fails in_version = refl
at_fails failed = refl

first_stays : (s : String) → is_requirement s ≡ true → first_is_alnum s ≡ true
unfolding is_requirement run_from advance
first_stays empty h = h
first_stays (prepend c s) h = elim (Bool-cases (is_alnum (code c))) [
  | inl a ↦ a
  | inr n ↦ cc (failed_stays s, rw n at h)
]

pub is_requirement-IsName : (s : String) → is_requirement s ≡ true → IsName s
unfolding is_requirement
is_requirement-IsName s h = record {
  starts = first_stays s h;
  no_slash = never_accepted b'/' slash_fails at_name s h;
  no_colon = never_accepted b':' colon_fails at_name s h;
  no_at = never_accepted b'@' at_fails at_name s h;
}
