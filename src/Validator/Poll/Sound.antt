-- ===== src/Validator/Poll/Sound.antt =====
-- What one poll of ormas_subnet/validator.py attests, signs and posts, over all the rows.
use ormas_subnet.Common.{
  Bool, true, false, Option, none, some, String, List, [], ◌∷◌, Value, obj, Entries, get_or_null,
  truthy, Result, ok, err, guard_passed, arith, if_holds, Ensures, Ensures-then, Ensures-guard,
}
use ormas_subnet.Workdir.{assignment_id_or_none}
use ormas_subnet.Validator.Decide.{is_git_error}
use ormas_subnet.Validator.Poll.{
  Host, Step, attested, quiet, attest, attest_then, token_valid, select_id, select_row, select,
  mine, run_once,
}
use ormas_subnet.Validator.Poll.Laws.{
  IsSound, Justified, quiet-IsSound, after-IsSound, answer_assignment-IsSound,
}

module _ (host : Host) where
  -- A token that was opened.
  attest-opened : (id : String) → Ensures (λ u. Justified host (attested id)) (attest host id)
  attest-opened id =
      Ensures-then (λ u. Justified host (attested id)) _ _
        λ g. Ensures-guard (Justified host (attested id)) _ _ λ t. (guard_passed _ _ g, t)

  attest_then-IsSound :
      (id : String) (tokens : List String) (rest : List String → Bool → Step Bool) (was : Bool)
      (r : Result (Unit {0}))
      → Ensures (λ u. Justified host (attested id)) r
      → ((ts : List String) (now : Bool) → IsSound host 1 (rest ts now))
      → IsSound host 1 (attest_then host id tokens rest was r)
  attest_then-IsSound id tokens rest was (ok done) o h =
      let later = h (id ∷ tokens) true in
      record { justified = (o, later.justified); few = later.few }
  attest_then-IsSound id tokens rest was (err e) o h =
      if_holds (IsSound host 1) (is_git_error e) (rest tokens was) (quiet tokens (err e))
        (λ t. h tokens was) (λ f. quiet-IsSound host 1 tokens (err e))

  select_id-IsSound :
      (o : Option String) (row : Entries) (tokens : List String)
      (rest : List String → Bool → Step Bool) (was : Bool)
      → ((ts : List String) (now : Bool) → IsSound host 1 (rest ts now))
      → IsSound host 1 (select_id host o row tokens rest was)
  select_id-IsSound none row tokens rest was h = h tokens was
  select_id-IsSound (some id) row tokens rest was h =
      if_holds (IsSound host 1) (truthy (get_or_null "attestation_required" row)) _ _
        (λ t.
          if_holds (IsSound host 1) (token_valid host id tokens) _ _ (λ v. h tokens was)
            (λ n. attest_then-IsSound id tokens rest was (attest host id) (attest-opened id) h))
        (λ n. answer_assignment-IsSound host row tokens)

  select_row-IsSound :
      (row : Value) (tokens : List String) (rest : List String → Bool → Step Bool) (was : Bool)
      → ((ts : List String) (now : Bool) → IsSound host 1 (rest ts now))
      → IsSound host 1 (select_row host row tokens rest was)
  select_row-IsSound (obj row) tokens rest was h =
      select_id-IsSound (assignment_id_or_none (get_or_null "assignment_id" row)) row tokens rest
        was h
  select_row-IsSound _ tokens rest was h = h tokens was

  select-IsSound :
      (rows : List Value) (tokens : List String) (was : Bool)
      → IsSound host 1 (select host rows tokens was)
  unfolding select
  select-IsSound [] tokens was = quiet-IsSound host 1 tokens (ok was)
  select-IsSound (row ∷ rows) tokens was =
      select_row-IsSound row tokens (λ ts now. select host rows ts now) was
        λ ts now. select-IsSound rows ts now

  -- One poll posts at most one decision, and every event of it is justified. A token is opened
  -- by a protected checker only. A repository is cloned, or a checkout decided on, for an assignment
  -- that the gate passes for review. What is signed is the message of an assignment that the gate
  -- gives a digest, and what is posted carries the signature of its own message: the decision is
  -- "error", or it is what the review of a checkout of that assignment returned.
  pub run_once-IsSound : (tokens : List String) → IsSound host 1 (run_once host tokens)
  unfolding run_once
  run_once-IsSound tokens =
      after-IsSound host 0 1 [] tokens host.list_assignments _ tt (omega arith) λ rows e.
        after-IsSound host 0 1 [] tokens (mine host rows) _ tt (omega arith)
          λ kept k. select-IsSound kept tokens false
