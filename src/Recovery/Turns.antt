-- ===== src/Recovery/Turns.antt =====
-- The journal as a machine of turns: no lease, then a lease in its stages, then no lease.
pub mod Stages
pub mod Refines
use ormas_subnet.Common.{
  ◌≡◌, ◌≢◌, refl, sym, ap, ◌∙◌, subst, ◌⊎◌, inl, inr, Bool, true, false, not, ◌&&◌, is_some, pos,
  String, List, [], ◌∷◌, Option, Option-cases, none, some, Value, null, boolean, int, float, str,
  arr, obj, Entries, get, get_or_null, put, get-put, Exc, Result, ok, err, Ensures, Ensures-bind,
  Ensures-then, Ensures-eq-ok, Ensures-map, guard_passed, Bool-cases, str_eq, if◌then◌else◌,
  if_holds, ◌>>=◌, ◌>>◌,
}
use ormas_subnet.Recovery.{
  Codec, Owner, File, found, read_file, read, save, check_body, need, need_of, parsed_or_corrupt,
  dictionary,
}
use ormas_subnet.Recovery.Journal.{
  Disk, Lease, Draft, Written, Built, Attempt, absent, present, new_body, begin, with_artifact,
  attempt_of, written_over, build_on, claimed_body, checkpoint_artifact, completion_of, versioned,
  frozen_body, refreeze, freeze, acknowledge, is_stage_named, is_null,
}
use ormas_subnet.Recovery.Leases.{
  Action, begins, checkpoints, freezes, acknowledges, act, disk_after, disk_or, Opens, Closes,
  begin-Opens, acknowledge-Closes, present-ok,
}

-- The record that a file carries, and what stands under the pending path.
abbrev pub Carries : File → Entries → Type 0
Carries file body =
    (envelope : Entries) × (file.parsed ≡ some (obj envelope))
    × (get "record" envelope ≡ some (obj body))

abbrev pub Shows : Option File → Option Entries → Type 0
Shows o none = o ≡ none
Shows o (some body) = (file : File) × (o ≡ some file) × Carries file body

abbrev pub stage_of : Entries → Value
stage_of body = get_or_null "stage" body

-- The same task, lease, packet and base commit.
pub record IsSameLease (a b : Entries) : Type 0 where
  pub task : get_or_null "task_id" a ≡ get_or_null "task_id" b
  pub lease : get_or_null "lease_id" a ≡ get_or_null "lease_id" b
  pub packet : get_or_null "packet_hash" a ≡ get_or_null "packet_hash" b
  pub base : get_or_null "base_commit" a ≡ get_or_null "base_commit" b

-- The turns of the machine.
pub data Turn : Option Entries → Option Entries → Type 0 where
  opens : {b : Entries} → stage_of b ≡ str "claimed" → Turn none (some b)
  publishes :
      {a b : Entries}
      → is_stage_named "claimed" a ≡ true
      → stage_of b ≡ str "artifact"
      → IsSameLease a b
      → Turn (some a) (some b)
  completes :
      {a b : Entries}
      → is_stage_named "completion" a ≡ false
      → stage_of b ≡ str "completion"
      → IsSameLease a b
      → Turn (some a) (some b)
  closes : {a : Entries} → Turn (some a) none

-- From one disk to another, the pending file is as it was, or the machine takes a turn.
abbrev pub IsTurn : Disk → Disk → Type 0
IsTurn before after =
    (after.pending ≡ before.pending)
    ⊎ ((a : Option Entries) × (b : Option Entries) × Shows before.pending a
        × Shows after.pending b
        × Turn a b)

pub save-Carries :
    (codec : Codec) (body : Entries) → Ensures (λ file. Carries file body) (save codec body)
unfolding save
save-Carries codec body =
    Ensures-bind _ _ _
      λ text e1. Ensures-bind _ _ _ λ raw e2. Ensures-then _ _ _ λ g. (_, refl, refl)

check_body-same :
    (owner : Owner) (body : Entries) → Ensures (λ out. out ≡ body) (check_body owner body)
unfolding check_body
check_body-same owner body = Ensures-bind _ _ _ λ v1 e1. Ensures-then _ _ _ λ g1.
    Ensures-then _ _ _ λ g2. Ensures-bind _ _ _ λ v2 e2. Ensures-then _ _ _ λ g3.
      Ensures-bind _ _ _ λ v3 e3. Ensures-then _ _ _ λ g4. Ensures-then _ _ _ λ g5.
        Ensures-bind _ _ _ λ v4 e4. Ensures-then _ _ _ λ g6. Ensures-then _ _ _ λ g7.
          Ensures-bind _ _ _ λ v5 e5. Ensures-then _ _ _ λ g8. Ensures-bind _ _ _ λ v6 e6.
            Ensures-then _ _ _ λ g9. Ensures-bind _ _ _ λ v7 e7. Ensures-then _ _ _ λ g10.
              Ensures-bind _ _ _ λ v8 e8.
                Ensures-then _ _ _ λ g11. Ensures-then _ _ _ λ g12. Ensures-then _ _ _ λ g13. refl

need-get : (k : String) (es : Entries) → Ensures (λ v. get k es ≡ some v) (need k es)
need-get k es = elim (Option-cases (get k es)) [
  | inl n ↦ rw (need, n) tt
  | inr (v, e) ↦ rw (need, e) refl
]

parsed-some : (o : Option Value) {v : Value} → parsed_or_corrupt o ≡ ok v → o ≡ some v
parsed-some none h = cc h
parsed-some (some w) h = cc h

dictionary-obj : (v : Value) {es : Entries} → dictionary v ≡ ok es → v ≡ obj es
dictionary-obj (obj fs) h = cc h
dictionary-obj _ h = cc h

record_of :
    (v : Value) {raw : Value}
    → need_of "record" v ≡ ok raw
    → (es : Entries) × ((v ≡ obj es) × (get "record" es ≡ some raw))
record_of (obj es) {raw} h =
    (es, (refl, Ensures-eq-ok (λ w. get "record" es ≡ some w) _ (need-get "record" es) h))
record_of _ h = cc h

read_file-Carries :
    (codec : Codec) (owner : Owner) (file : File)
    → Ensures (λ body. Carries file body) (read_file codec owner file)
unfolding read_file
read_file-Carries codec owner file = Ensures-then _ _ _ λ g1. Ensures-bind _ _ _ λ envelope e1.
    Ensures-bind _ _ _ λ raw e2. Ensures-bind _ _ _ λ body e3. Ensures-bind _ _ _ λ declared e4.
      Ensures-bind _ _ _ λ text e5. Ensures-then _ _ _ λ g2.
        let (es, (is, at)) = record_of envelope e2 in
        Ensures-map (λ out. out ≡ body) (λ out. Carries file out) _ (check_body-same owner body)
          λ out same. (
            es,
            parsed-some file.parsed e1 ∙ ap some is,
            at ∙ ap some (dictionary-obj raw e3 ∙ ap obj (sym same)),
          )

found-some : (r : Result Entries) {body : Entries} → found r ≡ ok (some body) → r ≡ ok body
found-some (ok b) h = cc h
found-some (err e) h = cc h

pub read-Shows :
    (codec : Codec) (owner : Owner) (o : Option File) {body : Entries}
    → read codec owner o ≡ ok (some body)
    → Shows o (some body)
unfolding read
read-Shows codec owner none h = cc h
read-Shows codec owner (some file) h = (
  file,
  refl,
  Ensures-eq-ok (λ b. Carries file b) _ (read_file-Carries codec owner file) (found-some _ h),
)
