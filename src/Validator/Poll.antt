-- ===== src/Validator/Poll.antt =====
-- One poll of `ValidatorDaemon` of ormas_subnet/validator.py (`run_once`), with the attestation of
-- protected stubs (`_attest`, `_token_valid`), the clone that is tried again (`_clone_with_retry`)
-- and the answer (`_sign_and_post`), over what the calls outside do.
pub mod Laws
pub mod Sound
pub mod Clone
pub mod Answered
mod Tests
use ormas_subnet.Common.{
  ℕ, zero, suc, ◌+◌, ◌*◌, ◌-◌, leb, Bool, true, false, not, ◌&&◌, ◌||◌, Option, none, some, String,
  List, [], ◌∷◌, ◌++◌, Value, null, str, arr, obj, int, pos, Entries, get_or_null, truthy, says,
  elem, str_eq, method_get, Result, ok, err, git_error, value_error, attribute_error, Exc, guard,
  ◌>>=◌, ◌>>◌, if◌then◌else◌,
}
use ormas_subnet.Workdir.{assignment_id_or_none, require_safe_component}
use ormas_subnet.Validator.Decide.{is_git_error}
use ormas_subnet.Validator.Review.{
  Calls, Preface, skip, acknowledge, review, preface, signature_message,
}

-- What a poll does that others see, in the order in which it does it.
pub data Event : Type 0 where
  attested : String → Event
  cloned decided : Entries → Event
  -- the text that is signed
  signed : String → Event
  -- the assignment, the decision and the signature
  posted : String → String → String → Event

-- Where a step has got to: the ids that hold a token, the events so far, and what is returned.
pub record Step {ℓ} (A : Type ℓ) : Type ℓ where
  pub tokens : List String
  pub events : List Event
  pub outcome : Result A

-- The world around one poll. Times count an interval of which `second` make a second.
pub record Host : Type 0 where
  pub calls : Calls
  -- `self.protected is not None`, and whether it opens a token for this id
  pub is_protected : Bool
  pub fetch_read_token : String → Bool
  -- the token that is held for this id has not expired
  pub unexpired : String → Bool
  pub list_assignments : Result (List Value)
  -- `_clone` at this attempt: the ids that hold a token after it, and the checkout
  pub clone : Entries → ℕ → List String → List String × Result String
  pub second : ℕ
  -- `time.monotonic()` at the start, after each failed clone and after each pause
  pub started : ℕ
  pub failed_at : ℕ → ℕ
  pub resumed_at : ℕ → ℕ
  pub decide : Entries → String → Result String
  pub sign : String → String
  pub post : String → String → String → Result (Unit {0})

abbrev pub quiet {ℓ} : {A : Type ℓ} → List String → Result A → Step A
quiet tokens r = record { tokens = tokens; events = []; outcome = r }

-- What comes after a step that returned.
unfoldable pub after {ℓ κ} :
    {A : Type ℓ} {B : Type κ}
    → List Event
    → List String
    → Result A
    → (A → List String → Step B)
    → Step B
after events tokens (err e) rest = record { tokens = tokens; events = events; outcome = err e }
after events tokens (ok a) rest =
    let later = rest a tokens in
    record { tokens = later.tokens; events = events ++ later.events; outcome = later.outcome }

-- `DEFAULT_POLL_INTERVAL_S`
abbrev pub poll_interval : ℕ
poll_interval = 15

abbrev pub field_of : String → Value → Value
field_of k (obj es) = get_or_null k es
field_of k _ = null

abbrev pub shorter : Value → ℕ
shorter (int (pos n)) = if leb 1 n && leb n poll_interval then n else poll_interval
shorter _ = poll_interval

-- The seconds for the clone of an assignment, as many as the attempts.
unfoldable pub window_of : Entries → ℕ
window_of assignment =
    shorter
      (field_of "timeout_s" (field_of "policy" (get_or_null "acceptance_contract" assignment)))

module _ (host : Host) where
  -- `_token_valid`
  abbrev pub token_valid : String → List String → Bool
  token_valid id tokens = elem id tokens && host.unexpired id

  -- `_attest`
  abbrev pub attest : String → Result (Unit {0})
  attest id = do
    guard host.is_protected (git_error "protected attestation unavailable")
    guard (host.fetch_read_token id) (git_error "protected attestation refused")

  -- The time for the clone is over after this attempt, or after the pause that follows it.
  abbrev pub is_over : Entries → ℕ → Bool
  is_over assignment n =
      leb (host.started + window_of assignment * host.second) (host.failed_at n + host.second)
      || leb (host.started + window_of assignment * host.second) (host.resumed_at n)

  abbrev pub no_checkout : Entries → List String → Step (Option String)
  no_checkout assignment tokens = record {
    tokens = tokens;
    events = cloned assignment ∷ [];
    outcome = ok none;
  }

  abbrev pub with_event : Event → Step (Option String) → Step (Option String)
  with_event e step = record step { events = e ∷ step.events }

  -- One attempt, and what is done where it was refused.
  abbrev pub attempt :
      Entries
      → List String × Result String
      → (List String → Step (Option String))
      → Step (Option String)
  attempt assignment (tokens, ok path) again = record {
    tokens = tokens;
    events = cloned assignment ∷ [];
    outcome = ok (some path);
  }
  attempt assignment (tokens, err e) again =
      if is_git_error e
      then with_event (cloned assignment) (again tokens)
      else record { tokens = tokens; events = cloned assignment ∷ []; outcome = err e }

  -- The attempts from the n-th on, of which one more than `more` are left.
  unfoldable pub clone_from : ℕ → ℕ → Entries → List String → Step (Option String)
  clone_from zero n assignment tokens =
      attempt assignment (host.clone assignment n tokens) (λ ts. quiet ts (ok none))
  clone_from (suc more) n assignment tokens =
      attempt assignment (host.clone assignment n tokens) (λ ts.
        let later = clone_from more (suc n) assignment ts in
        if is_over assignment n then quiet ts (ok none) else later)

  -- `_clone_with_retry`
  unfoldable pub clone_with_retry : Entries → List String → Step (Option String)
  clone_with_retry assignment tokens = clone_from (window_of assignment - 1) 0 assignment tokens

  -- `_sign_and_post`
  unfoldable pub sign_and_post : Entries → String → String → List String → Step (Unit {0})
  sign_and_post assignment digest decision tokens =
      after [] tokens
        (require_safe_component (get_or_null "assignment_id" assignment) "assignment_id")
        λ id ts. after [] ts (signature_message host.calls assignment digest decision) λ message us.
          let signature = host.sign message in
          after (signed message ∷ posted id decision signature ∷ []) us
            (host.post id decision signature) λ done vs. quiet vs (ok tt)

  -- `self._protected_tokens.pop(assignment_id, None)`
  abbrev pub drop_token : Value → List String → List String
  drop_token id [] = []
  drop_token id (t ∷ ts) = let rest = drop_token id ts in if says t id then rest else t ∷ rest

  abbrev pub finish : Entries → String → String → List String → Step Bool
  finish assignment digest decision tokens =
      let answer = sign_and_post assignment digest decision tokens in
      after answer.events answer.tokens answer.outcome
        λ done ts. quiet (drop_token (get_or_null "assignment_id" assignment) ts) (ok true)

  -- The decision on a checkout, or "error" without one.
  abbrev pub decide_checkout : Entries → String → Option String → List String → Step Bool
  decide_checkout assignment digest none tokens = finish assignment digest "error" tokens
  decide_checkout assignment digest (some path) tokens =
      after (decided assignment ∷ []) tokens (host.decide assignment path)
        λ decision ts. finish assignment digest decision ts

  abbrev pub answer : Entries → List String → Preface → Step Bool
  answer assignment tokens skip = quiet tokens (ok true)
  answer assignment tokens (acknowledge digest) = finish assignment digest "error" tokens
  answer assignment tokens (review digest) =
      let checkout = clone_with_retry assignment tokens in
      after checkout.events checkout.tokens checkout.outcome
        λ path ts. decide_checkout assignment digest path ts

  -- `run_once` from the gate on
  unfoldable pub answer_assignment : Entries → List String → Step Bool
  answer_assignment assignment tokens =
      after [] tokens (preface host.calls assignment) λ p ts. answer assignment ts p

  -- A row that this checker may look at. A row that is no dictionary has no method `get`.
  abbrev pub is_mine : Value → Result Bool
  is_mine row =
      if host.is_protected
      then (do level ← method_get "service_level" row; ok (says "protected" level))
      else (do required ← method_get "attestation_required" row; ok (not (truthy required)))

  unfoldable pub mine : List Value → Result (List Value)
  mine [] = ok []
  mine (row ∷ rows) = do
    keep ← is_mine row
    rest ← mine rows
    ok (if keep then row ∷ rest else rest)

  -- A stub whose attestation is refused does not block the rows after it.
  abbrev pub attest_then :
      String → List String → (List String → Bool → Step Bool) → Bool → Result (Unit {0}) → Step Bool
  attest_then id tokens rest was (ok done) =
      let later = rest (id ∷ tokens) true in
      record { tokens = later.tokens; events = attested id ∷ later.events; outcome = later.outcome }
  attest_then id tokens rest was (err e) =
      if is_git_error e then rest tokens was else quiet tokens (err e)

  abbrev pub attest_row : String → List String → (List String → Bool → Step Bool) → Bool → Step Bool
  attest_row id tokens rest was =
      if token_valid id tokens then rest tokens was else attest_then id tokens rest was (attest id)

  -- The row at hand: passed over, answered, or attested.
  abbrev pub select_id :
      Option String → Entries → List String → (List String → Bool → Step Bool) → Bool → Step Bool
  select_id none row tokens rest was = rest tokens was
  select_id (some id) row tokens rest was =
      if truthy (get_or_null "attestation_required" row)
      then attest_row id tokens rest was
      else answer_assignment row tokens

  abbrev pub select_row : Value → List String → (List String → Bool → Step Bool) → Bool → Step Bool
  select_row (obj row) tokens rest was =
      select_id (assignment_id_or_none (get_or_null "assignment_id" row)) row tokens rest was
  select_row _ tokens rest was = rest tokens was

  -- The rows in order, up to the first that is answered.
  unfoldable pub select : List Value → List String → Bool → Step Bool
  select [] tokens was = quiet tokens (ok was)
  select (row ∷ rows) tokens was = select_row row tokens (λ ts now. select rows ts now) was

  -- `run_once`
  unfoldable pub run_once : List String → Step Bool
  run_once tokens =
      after [] tokens host.list_assignments
        λ rows ts. after [] ts (mine rows) λ kept us. select kept us false
