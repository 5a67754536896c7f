-- ===== src/Recovery/Replay/Laws.antt =====
-- What is sent again carries no local diagnostics, and is otherwise what was frozen.
use ormas_subnet.Common.{
  ◌≡◌, ◌⊎◌, inl, inr, refl, Bool, true, false, String, some, Value, null, str, obj, Entries, get,
  get_or_null, put, remove, get-put, get-remove, Exc, ok, err, Ensures, Ensures-bind, Ensures-then,
  Ensures-eq-ok, Ensures-map, boolean, int, float, arr, if_holds, str_eq, if◌then◌else◌, Bool-cases,
}
use ormas_subnet.Recovery.{equals_int, is_str}
use ormas_subnet.Recovery.Replay.{
  without_error, project_legacy, has_error, replay_legacy, replay, replay_completion,
  completion_for_wire,
}

-- No diagnostics in the capture, every other field as it was frozen, and the capture itself too
-- but for the diagnostics.
pub record IsReplay (frozen sent : Entries) : Type 0 where
  pub clean : has_error (get_or_null "capture" sent) ≡ false
  pub kept : (k : String) → str_eq k "capture" ≡ false → get k sent ≡ get k frozen
  pub captured :
      (sent ≡ frozen)
      ⊎ ((capture : Entries) × (get_or_null "capture" frozen ≡ obj capture)
          × (get_or_null "capture" sent ≡ obj (remove "error" capture)))

same-IsReplay :
    (frozen : Entries) → has_error (get_or_null "capture" frozen) ≡ false → IsReplay frozen frozen
same-IsReplay frozen h = record { clean = h; kept = λ k n. refl; captured = inl refl }

capture_of_put : (v : Value) (es : Entries) → get_or_null "capture" (put "capture" v es) ≡ v
capture_of_put v es = rw (get_or_null, get-put "capture" "capture" v es) refl

without_error-IsReplay :
    (frozen capture : Entries)
    → get_or_null "capture" frozen ≡ obj capture
    → IsReplay frozen (without_error frozen capture)
without_error-IsReplay frozen capture e =
    let put_is = capture_of_put (obj (remove "error" capture)) frozen in
    record {
      clean = rw (put_is, get-remove "error" "error" capture) refl;
      kept = λ k n. rw (get-put "capture" k (obj (remove "error" capture)) frozen, n) refl;
      captured = inr (capture, e, put_is);
    }

project_legacy-IsReplay :
    (body frozen capture : Entries)
    → get_or_null "capture" frozen ≡ obj capture
    → Ensures (IsReplay frozen) (project_legacy body frozen capture)
unfolding project_legacy
project_legacy-IsReplay body frozen capture e = Ensures-bind _ _ _ λ expected e1.
    Ensures-then _ _ _ λ g1. Ensures-bind _ _ _ λ duration e2. Ensures-then _ _ _ λ g2.
      Ensures-bind _ _ _
        λ state e3. Ensures-then _ _ _ λ g3. without_error-IsReplay frozen capture e

same_or_refused :
    (frozen : Entries) (b : Bool) (e : Exc)
    → (b ≡ true → has_error (get_or_null "capture" frozen) ≡ false)
    → Ensures (IsReplay frozen) (if b then ok frozen else err e)
same_or_refused frozen true e h = same-IsReplay frozen (h refl)
same_or_refused frozen false e h = tt

replay_legacy-IsReplay :
    (body frozen : Entries) (capture : Value)
    → get_or_null "capture" frozen ≡ capture
    → has_error capture ≡ true
    → Ensures (IsReplay frozen) (replay_legacy body frozen capture)
replay_legacy-IsReplay body frozen (obj capture) e h = project_legacy-IsReplay body frozen capture e
replay_legacy-IsReplay body frozen null e h = cc h
replay_legacy-IsReplay body frozen (boolean b) e h = cc h
replay_legacy-IsReplay body frozen (int n) e h = cc h
replay_legacy-IsReplay body frozen (float x) e h = cc h
replay_legacy-IsReplay body frozen (str s) e h = cc h
replay_legacy-IsReplay body frozen (arr vs) e h = cc h

replay-IsReplay : (body frozen : Entries) → Ensures (IsReplay frozen) (replay body frozen)
unfolding replay
replay-IsReplay body frozen = elim (Bool-cases (has_error (get_or_null "capture" frozen))) [
  | inl bad ↦ rw bad (
      if_holds (Ensures (IsReplay frozen))
        (equals_int 2 (get_or_null "completion_capture_version" body)) _ _ (λ v. tt)
        (λ v. replay_legacy-IsReplay body frozen (get_or_null "capture" frozen) refl bad))
  | inr good ↦ rw good (
      if_holds (Ensures (IsReplay frozen))
        (equals_int 2 (get_or_null "completion_capture_version" body)) _ _
        (λ v. same-IsReplay frozen good)
        (λ v.
          if_holds (Ensures (IsReplay frozen)) (equals_int 1 (get_or_null "version" body)) _ _
            (λ w. tt) (λ w. same-IsReplay frozen good)))
]

replay_completion-IsReplay :
    (body : Entries) (v : Value)
    → Ensures
        (λ sent. (frozen : Entries) × (v ≡ obj frozen) × IsReplay frozen sent)
        (replay_completion body v)
replay_completion-IsReplay body (obj frozen) =
    Ensures-map (IsReplay frozen) _ (replay body frozen) (replay-IsReplay body frozen)
      λ sent r. (frozen, refl, r)
replay_completion-IsReplay body null = tt
replay_completion-IsReplay body (boolean b) = tt
replay_completion-IsReplay body (int n) = tt
replay_completion-IsReplay body (float x) = tt
replay_completion-IsReplay body (str s) = tt
replay_completion-IsReplay body (arr vs) = tt

-- What a journal record sends again is the completion that was frozen in it, except that a
-- capture loses its diagnostics, and it never carries any.
pub completion_for_wire-IsReplay :
    (body : Entries) {sent : Entries}
    → completion_for_wire (some body) ≡ ok sent
    → (frozen : Entries) × (get_or_null "completion" body ≡ obj frozen) × IsReplay frozen sent
unfolding completion_for_wire
completion_for_wire-IsReplay body h =
    Ensures-eq-ok
      (λ sent.
        (frozen : Entries) × (get_or_null "completion" body ≡ obj frozen) × IsReplay frozen sent)
      _
      (if_holds
        (Ensures (λ sent.
          (frozen : Entries) × (get_or_null "completion" body ≡ obj frozen) × IsReplay frozen sent))
        (is_str "completion" (get_or_null "stage" body)) _ _
        (λ s. replay_completion-IsReplay body (get_or_null "completion" body)) (λ s. tt))
      h
