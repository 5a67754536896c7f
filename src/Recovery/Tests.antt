-- ===== src/Recovery/Tests.antt =====
-- The journal with a concrete codec, and one lease from its claim to its acknowledgement.
use Prim.Native.String.{◌++◌ as append}
use ormas_subnet.Common.{
  pos, boolean, null, int, obj, put, remove, ◌≡◌, refl, String, [], ◌∷◌, Option, none, some, is_ok,
  true, false, Value, str, arr, nil, cons, Entries, end, entry, Result, ok, ◌>>=◌, ◌>>◌,
  get_or_null,
}
use ormas_subnet.Workdir.{is_safe_component}
use ormas_subnet.Recovery.{Codec, Owner, File, read, read_file, check_body, save, envelope_of}
use ormas_subnet.Recovery.Journal.{
  Disk, Lease, Draft, history_path, new_body, begin, acknowledge, store,
}
use ormas_subnet.Recovery.Leases.{begins, acknowledges, act, run}
use ormas_subnet.Recovery.Turns.{IsTurn}
use ormas_subnet.Recovery.Turns.Refines.{act-IsTurn}
use ormas_subnet.Recovery.Leases.Once.{begin_needs_idle, acknowledged_never_begins}
use ormas_subnet.Recovery.Replay.{completion_for_wire, replay, project_legacy}
use ormas_subnet.Recovery.Replay.Laws.{IsReplay, completion_for_wire-IsReplay}
use ormas_subnet.Recovery.Roundtrip.{begin_is_pending}

abbrev text_of_value : Value → Result String
text_of_value (arr (cons (str a) (cons (str b) nil))) = ok (append a (append "/" b))
text_of_value _ = ok "{}"

abbrev hash_of : String → String
hash_of s = append "#" s

abbrev codec : Codec
codec = record { encoded = text_of_value; sha256 = hash_of }

abbrev owner : Owner
owner = record { namespace = "gateway"; runner_id = "runner" }

abbrev lease : Lease
lease = record {
  task_id = str "t1";
  lease_id = str "l1";
  offer_kind = str "limit";
  wire = entry "task_id" (str "t1") end;
}

abbrev draft : Draft
draft = record {
  task_id = str "t1";
  work_packet_sha256 = str "aa";
  base_commit = str "bb";
  repo_url = str "https://example.invalid/r";
  work_packet = end;
}

abbrev no_file : String → Option File
no_file name = none

abbrev empty_disk : Disk
empty_disk = record { pending = none; artifact = none; history = no_file }

abbrev body : Entries
body = new_body owner lease draft

abbrev file : File
file = record {
  is_regular = true;
  is_shared = false;
  is_foreign = false;
  size = 2;
  parsed = some (envelope_of codec body "{}");
}

abbrev claimed_disk : Disk
claimed_disk = record empty_disk { pending = some file }

abbrev done_disk : Disk
done_disk = record empty_disk { history = store "#t1/l1" (some file) no_file }

begun : begin codec owner empty_disk lease draft ≡ ok (record { disk = claimed_disk; body = body })
unfolding begin read history_path save is_safe_component ◌>>=◌ ◌>>◌
begun = refl

pending_body : read codec owner claimed_disk.pending ≡ ok (some body)
unfolding read read_file check_body is_safe_component ◌>>=◌ ◌>>◌
pending_body = refl

acknowledged : acknowledge codec owner claimed_disk ≡ ok done_disk
unfolding acknowledge history_path read read_file check_body is_safe_component ◌>>=◌ ◌>>◌
acknowledged = refl

lease_path :
    history_path codec (get_or_null "task_id" body) (get_or_null "lease_id" body) ≡ ok "#t1/l1"
unfolding history_path ◌>>=◌
lease_path = refl

begin_is_pending_example :
    (read codec owner claimed_disk.pending ≡ ok (some body))
    × (body ≡ new_body owner lease draft)
    × (read codec owner empty_disk.pending ≡ ok none)
begin_is_pending_example =
    begin_is_pending codec owner empty_disk lease draft
      (record { disk = claimed_disk; body = body }) refl refl refl refl begun

begin_needs_idle_example : is_ok (begin codec owner claimed_disk lease draft) ≡ false
begin_needs_idle_example = begin_needs_idle codec owner claimed_disk lease draft refl

acknowledged_never_begins_example :
    is_ok (
      begin codec owner
        (run codec owner done_disk (begins lease draft ∷ acknowledges ∷ []))
        lease
        draft)
    ≡ false
acknowledged_never_begins_example =
    acknowledged_never_begins codec owner claimed_disk done_disk body "#t1/l1" acknowledged
      pending_body lease_path (begins lease draft ∷ acknowledges ∷ []) lease draft refl refl

-- A completion of an older release, whose capture holds the text of an exception.
abbrev old_capture : Entries
old_capture = entry "status" (str "failed") (
    entry "scope_ok" (boolean false) (
      entry "file_count" (int (pos 0)) (
        entry "changed_paths" (arr nil) (
          entry "wall_s" (int (pos 7)) (
            entry "failure_class" (str "base_preflight_non_red")
              (entry "error" (str "Traceback") end))))))

abbrev old_terminal : Entries
old_terminal = entry "lease_id" (str "l1") (
    entry "verification_state" (str "failed")
      (entry "result_ref" null (entry "result_commit" (str "") end)))

abbrev old_body : Entries
old_body = entry "version" (int (pos 1)) (
    entry "lease_id" (str "l1") (
      entry "stage" (str "completion") (
        entry "completion"
          (obj (entry "terminal" (obj old_terminal) (entry "capture" (obj old_capture) end))) end)))

abbrev old_sent : Entries
old_sent =
    entry "terminal" (obj old_terminal) (entry "capture" (obj (remove "error" old_capture)) end)

old_is_projected : completion_for_wire (some old_body) ≡ ok old_sent
unfolding completion_for_wire replay project_legacy put ◌>>=◌ ◌>>◌
old_is_projected = refl

completion_for_wire-IsReplay_example :
    (frozen : Entries) × (get_or_null "completion" old_body ≡ obj frozen) × IsReplay frozen old_sent
completion_for_wire-IsReplay_example = completion_for_wire-IsReplay old_body old_is_projected

act-IsTurn_example : IsTurn empty_disk (act codec owner empty_disk (begins lease draft))
act-IsTurn_example = act-IsTurn codec owner empty_disk (begins lease draft)
