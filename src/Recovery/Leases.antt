-- ===== src/Recovery/Leases.antt =====
-- The journal and the leases of the gateway: one at a time, and none twice.
pub mod History
pub mod Once
use ormas_subnet.Common.{
  ◌≡◌, refl, sym, ap, ◌∙◌, subst, is_ok, is_ok-false, Bool, true, false, not, ◌&&◌, String, List,
  [], ◌∷◌, Option, none, some, is_some, Value, null, str, obj, Entries, get, get_or_null, Exc,
  Result, ok, err, Ensures, Ensures-bind, Ensures-then, Ensures-eq-ok, Ensures-map, if_holds, guard,
  guard_passed, arith, Bool-cases, inl, inr, str_eq, eq_iff, if◌then◌else◌, ◌>>=◌, ◌>>◌, is_text,
  recovery_required, leb,
}
use ormas_subnet.Recovery.{
  Codec, Owner, File, found, read_file, read, save, is_task_id, mismatch, check_body,
}
use ormas_subnet.Recovery.Journal.{
  Disk, Lease, Draft, Written, absent, present, history_path, lease_names, not_acknowledged,
  new_body, begin, Built, Attempt, attempt_of, written_over, with_artifact, build_on, claimed_body,
  checkpoint_artifact, completion_of, frozen_body, is_stage_named, refreeze, freeze, store,
  acknowledge,
}

absent-ok : (e : Exc) (o : Option Entries) → absent e o ≡ ok tt → o ≡ none
absent-ok e none h = refl
absent-ok e (some body) h = cc h

not_acknowledged-ok :
    (draft : Draft) (o : Option Entries) → not_acknowledged draft o ≡ ok tt → o ≡ none
not_acknowledged-ok draft none h = refl
not_acknowledged-ok draft (some previous) h = ground arith

pub present-ok :
    (e : Exc) (o : Option Entries) {body : Entries} → present e o ≡ ok body → o ≡ some body
present-ok e none h = cc h
present-ok e (some b) h = cc h

-- What a claim that is journaled rests on.
pub record Opens (codec : Codec) (owner : Owner) (disk : Disk) (lease : Lease) (draft : Draft)
    (w : Written) : Type 0 where
  pub path : String
  pub idle : read codec owner disk.pending ≡ ok none
  pub path_is : history_path codec draft.task_id lease.lease_id ≡ ok path
  pub unseen : read codec owner (disk.history path) ≡ ok none
  pub named : is_task_id draft.task_id ≡ true
  pub file : File
  pub saved : save codec w.body ≡ ok file
  pub body_is : w.body ≡ new_body owner lease draft
  pub disk_is : w.disk ≡ record disk { pending = some file }

pub begin-Opens :
    (codec : Codec) (owner : Owner) (disk : Disk) (lease : Lease) (draft : Draft)
    → Ensures (Opens codec owner disk lease draft) (begin codec owner disk lease draft)
unfolding begin
begin-Opens codec owner disk lease draft = Ensures-then _ _ _ λ g1. Ensures-then _ _ _ λ g2.
    Ensures-bind _ _ _ λ current e1. Ensures-then _ _ _ λ g3. Ensures-bind _ _ _ λ path e2.
      Ensures-bind _ _ _ λ previous e3. Ensures-then _ _ _ λ g4. Ensures-bind _ _ _ λ file e4.
        record {
          path = path;
          idle = e1 ∙ ap ok (absent-ok _ current g3);
          path_is = e2;
          unseen = e3 ∙ ap ok (not_acknowledged-ok draft previous g4);
          named = guard_passed _ _ g1;
          file = file;
          saved = e4;
          body_is = refl;
          disk_is = refl;
        }

-- An acknowledged record moves to its place in the history.
pub record Closes (codec : Codec) (owner : Owner) (disk : Disk) (after : Disk) : Type 0 where
  pub body : Entries
  pub path : String
  pub pending_is : read codec owner disk.pending ≡ ok (some body)
  pub path_is :
      history_path codec (get_or_null "task_id" body) (get_or_null "lease_id" body) ≡ ok path
  pub after_is :
      after ≡ record disk { pending = none; history = store path disk.pending disk.history }

pub acknowledge-Closes :
    (codec : Codec) (owner : Owner) (disk : Disk)
    → Ensures (Closes codec owner disk) (acknowledge codec owner disk)
unfolding acknowledge
acknowledge-Closes codec owner disk = Ensures-bind _ _ _ λ current e1. Ensures-bind _ _ _ λ body e2.
    Ensures-bind _ _ _ λ path e3. record {
      body = body;
      path = path;
      pending_is = e1 ∙ ap ok (present-ok _ current e2);
      path_is = e3;
      after_is = refl;
    }

-- What a miner may do with its journal; an operation that raises leaves what it had written.
pub data Action : Type 0 where
  begins : Lease → Draft → Action
  checkpoints : Result Built → Value → Value → Action
  freezes : Entries → Entries → Entries → Action
  acknowledges : Action

abbrev pub disk_after : Disk → Result Written → Disk
disk_after disk (ok w) = w.disk
disk_after disk (err e) = disk

abbrev pub disk_or : Disk → Result Disk → Disk
disk_or disk (ok d) = d
disk_or disk (err e) = disk

unfoldable pub act : Codec → Owner → Disk → Action → Disk
act codec owner disk (begins lease draft) = disk_after disk (begin codec owner disk lease draft)
act codec owner disk (checkpoints build result capture) =
    (checkpoint_artifact codec owner disk build result capture).disk
act codec owner disk (freezes receipt terminal capture) =
    disk_after disk (freeze codec owner disk receipt terminal capture)
act codec owner disk acknowledges = disk_or disk (acknowledge codec owner disk)

unfoldable pub run : Codec → Owner → Disk → List Action → Disk
run codec owner disk [] = disk
run codec owner disk (a ∷ actions) = run codec owner (act codec owner disk a) actions
