-- ===== src/Recovery/Journal.antt =====
-- The operations of the recovery journal of ormas_subnet/_recovery.py on what is on disk.
use ormas_subnet.Common.{
  ℕ, Bool, true, false, not, ◌&&◌, String, [], ◌∷◌, Option, none, some, is_some, pos, Value, null,
  int, str, boolean, arr, obj, Entries, end, entry, of_list, get, get_or_null, put, Exc, key_error,
  recovery_required, Result, ok, err, ◌>>=◌, ◌>>◌, guard, str_eq, if◌then◌else◌,
}
use ormas_subnet.Recovery.{Codec, Owner, File, mismatch, is_str, is_task_id, same_str, read, save}

-- The artifact file: its size and the SHA-256 of its bytes, as they are.
pub record Artifact : Type 0 where
  pub size : ℕ
  pub digest : String

-- `pending.json`, `artifact.bin` and the acknowledged records by file name.
pub record Disk : Type 0 where
  pub pending : Option File
  pub artifact : Option Artifact
  pub history : String → Option File

pub record Lease : Type 0 where
  -- `getattr(lease, "task_id", None)`
  pub task_id : Value
  pub lease_id : Value
  pub offer_kind : Value
  pub wire : Entries

pub record Draft : Type 0 where
  pub task_id : Value
  pub work_packet_sha256 : Value
  pub base_commit : Value
  pub repo_url : Value
  pub work_packet : Entries

-- The disk after an operation that returned, with the record that it returns.
pub record Written : Type 0 where
  pub disk : Disk
  pub body : Entries

abbrev pub absent : Exc → Option Entries → Result (Unit {0})
absent e none = ok tt
absent e (some body) = err e

abbrev pub present : Exc → Option Entries → Result Entries
present e none = err e
present e (some body) = ok body

-- `_history`
unfoldable pub history_path : Codec → Value → Value → Result String
history_path codec task lease = do
  text ← codec.encoded (arr (of_list (task ∷ lease ∷ [])))
  ok (codec.sha256 text)

abbrev pub lease_names : Value → Value → Bool
lease_names null task = true
lease_names v task = is_task_id v && same_str v task

-- A record under the same name: the lease was acknowledged, or its packet changed.
abbrev pub not_acknowledged : Draft → Option Entries → Result (Unit {0})
not_acknowledged draft none = ok tt
not_acknowledged draft (some previous) =
    if same_str (get_or_null "packet_hash" previous) draft.work_packet_sha256
    then err (recovery_required "gateway re-served an acknowledged public lease")
    else err (recovery_required "repeated public lease changed its packet")

abbrev pub new_body : Owner → Lease → Draft → Entries
new_body owner lease draft = entry "version" (int (pos 2)) (
    entry "gateway" (str owner.namespace) (
      entry "runner_id" (str owner.runner_id) (
        entry "task_id" draft.task_id (
          entry "lease_id" lease.lease_id (
            entry "packet_hash" draft.work_packet_sha256 (
              entry "base_commit" draft.base_commit (
                entry "repo_url" draft.repo_url (
                  entry "work_packet" (obj draft.work_packet) (
                    entry "stage" (str "claimed") (
                      entry "completion_capture_version" (int (pos 2)) (
                        if is_str "limit" lease.offer_kind
                        then entry "lease" (obj lease.wire) end
                        else end)))))))))))

unfoldable pub begin : Codec → Owner → Disk → Lease → Draft → Result Written
begin codec owner disk lease draft = do
  guard (is_task_id draft.task_id) mismatch
  guard (lease_names lease.task_id draft.task_id) mismatch
  current ← read codec owner disk.pending
  absent (recovery_required "public recovery must finish before a new claim") current
  path ← history_path codec draft.task_id lease.lease_id
  previous ← read codec owner (disk.history path)
  not_acknowledged draft previous
  file ← save codec (new_body owner lease draft)
  ok (record { disk = record disk { pending = some file }; body = new_body owner lease draft })

-- What the builder wrote, and the length, digest and tree that it returned.
pub record Built : Type 0 where
  pub artifact : Artifact
  pub length : Value
  pub digest : Value
  pub tree_sha : Value

abbrev pub is_true : Value → Bool
is_true (boolean b) = b
is_true _ = false

abbrev pub scope_passed : Value → Bool
scope_passed (obj capture) = is_true (get_or_null "scope_ok" capture)
scope_passed _ = false

abbrev pub is_stage_named : String → Entries → Bool
is_stage_named s body = is_str s (get_or_null "stage" body)

abbrev pub with_artifact : Entries → Built → Value → Value → Entries
with_artifact body built result capture = put "tree_sha" built.tree_sha (
    put "artifact_sha256" built.digest (
      put "artifact_length" built.length
        (put "capture" capture (put "result" result (put "stage" (str "artifact") body)))))

abbrev pub written_over : Disk → Entries → Result File → Result Written
written_over disk body (ok file) =
    ok (record { disk = record disk { pending = some file }; body = body })
written_over disk body (err e) = err e

-- `checkpoint_artifact` up to the replacement of the artifact file, which a later failure of
-- `save` does not undo.
unfoldable pub claimed_body : Codec → Owner → Disk → Value → Result Entries
claimed_body codec owner disk capture = do
  guard (scope_passed capture) (recovery_required "public artifact requires passing frozen scope")
  current ← read codec owner disk.pending
  body ← present (recovery_required "public artifact checkpoint has no claimed lease") current
  guard (is_stage_named "claimed" body)
      (recovery_required "public artifact checkpoint has no claimed lease")
  ok body

-- The disk that is left, and the record or the exception.
pub record Attempt : Type 0 where
  pub disk : Disk
  pub result : Result Entries

abbrev pub attempt_of : Disk → Result Written → Attempt
attempt_of disk (ok w) = record { disk = w.disk; result = ok w.body }
attempt_of disk (err e) = record { disk = disk; result = err e }

abbrev pub build_on : Codec → Disk → Result Built → Value → Value → Result Entries → Attempt
build_on codec disk build result capture (err e) = record { disk = disk; result = err e }
build_on codec disk (err e) result capture (ok body) = record { disk = disk; result = err e }
build_on codec disk (ok built) result capture (ok body) =
    attempt_of (record disk { artifact = some built.artifact })
      (written_over (record disk { artifact = some built.artifact })
        (with_artifact body built result capture)
        (save codec (with_artifact body built result capture)))

unfoldable pub checkpoint_artifact : Codec → Owner → Disk → Result Built → Value → Value → Attempt
checkpoint_artifact codec owner disk build result capture =
    build_on codec disk build result capture (claimed_body codec owner disk capture)

abbrev pub completion_of : Entries → Entries → Entries → Value
completion_of receipt terminal capture = obj (
    entry "receipt" (obj receipt)
      (entry "terminal" (obj terminal) (entry "capture" (obj capture) end)))

abbrev pub is_null : Value → Bool
is_null null = true
is_null _ = false

-- The capture version is set where it is missing and the capture carries no diagnostics.
abbrev pub versioned : Entries → Entries → Entries
versioned capture body =
    if is_null (get_or_null "completion_capture_version" body)
      && not (is_some (get "error" capture))
    then put "completion_capture_version" (int (pos 2)) body
    else body

abbrev pub frozen_body : Entries → Entries → Value → Entries
frozen_body capture body completion =
    put "completion" completion (put "stage" (str "completion") (versioned capture body))

abbrev pub key_or_raise : Option Value → Result Value
key_or_raise none = err key_error
key_or_raise (some v) = ok v

-- A record that is frozen stays as it is, and only for the same completion.
unfoldable pub refreeze : Codec → Disk → Entries → Value → Result Written
refreeze codec disk body completion = do
  stored ← key_or_raise (get "completion" body)
  old ← codec.encoded stored
  new ← codec.encoded completion
  guard (str_eq old new) (recovery_required "ambiguous public completion cannot be replaced")
  ok (record { disk = disk; body = body })

unfoldable pub freeze : Codec → Owner → Disk → Entries → Entries → Entries → Result Written
freeze codec owner disk receipt terminal capture = do
  current ← read codec owner disk.pending
  body ← present (recovery_required "public completion has no claimed lease") current
  if is_stage_named "completion" body
      then refreeze codec disk body (completion_of receipt terminal capture)
      else written_over disk (frozen_body capture body (completion_of receipt terminal capture))
          (save codec (frozen_body capture body (completion_of receipt terminal capture)))

abbrev pub store : String → Option File → (String → Option File) → String → Option File
store path file history name = if str_eq name path then file else history name

unfoldable pub acknowledge : Codec → Owner → Disk → Result Disk
acknowledge codec owner disk = do
  current ← read codec owner disk.pending
  body ← present (recovery_required "public recovery acknowledgement has no record") current
  path ← history_path codec (get_or_null "task_id" body) (get_or_null "lease_id" body)
  ok (record disk { pending = none; history = store path disk.pending disk.history })
