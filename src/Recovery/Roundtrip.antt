-- ===== src/Recovery/Roundtrip.antt =====
-- What the journal writes, it reads.
use ormas_subnet.Common.{
  ◌≡◌, refl, boolean, int, float, arr, ap, true, false, String, none, some, Value, null, str, obj,
  Entries, get_or_null, ok, Ensures, Ensures-bind, Ensures-then, Ensures-eq-ok, guard_passed, arith,
  Bool-cases, inl, inr, str_eq, eq_iff, eq_refl, ◌>>=◌, ◌>>◌, is_text, leb, len,
}
use ormas_subnet.Workdir.{is_safe_component}
use ormas_subnet.Recovery.{
  Codec, Owner, File, read_file, read, save, is_task_id, check_body, max_record, envelope_of,
  is_str, same_str,
}
use ormas_subnet.Recovery.Journal.{Disk, Lease, Draft, Written, new_body, begin}
use ormas_subnet.Recovery.Leases.{Opens, begin-Opens}

-- A file that was saved: the text of its record, and its size.
record IsSaved (codec : Codec) (body : Entries) (file : File) : Type 0 where
  pub text : String
  pub text_is : codec.encoded (obj body) ≡ ok text
  pub raw : String
  pub bounded : leb (len raw) max_record ≡ true
  pub file_is : file ≡ record {
    is_regular = true;
    is_shared = false;
    is_foreign = false;
    size = len raw;
    parsed = some (envelope_of codec body text);
  }

save-IsSaved : (codec : Codec) (body : Entries) → Ensures (IsSaved codec body) (save codec body)
unfolding save
save-IsSaved codec body = Ensures-bind _ _ _ λ text e1. Ensures-bind _ _ _ λ raw e2.
    Ensures-then _ _ _ λ g. record {
      text = text;
      text_is = e1;
      raw = raw;
      bounded = guard_passed _ _ g;
      file_is = refl;
    }

-- A record that is saved is read back as it was, if it has the owner's identity.
pub read-save :
    (codec : Codec) (owner : Owner) (body : Entries) (file : File)
    → save codec body ≡ ok file
    → check_body owner body ≡ ok body
    → read codec owner (some file) ≡ ok (some body)
unfolding read read_file ◌>>=◌ ◌>>◌
read-save codec owner body file s c =
    let i = Ensures-eq-ok (IsSaved codec body) _ (save-IsSaved codec body) s in
    rw (i.file_is) (rw (i.bounded, i.text_is, eq_refl (codec.sha256 i.text), c) refl)

empty_is_no_component : (s : String) → is_safe_component s ≡ true → s ≡ "" → true ≡ false
unfolding is_safe_component
empty_is_no_component s h e = ground (arith, ap is_safe_component e)

nonempty_component : (s : String) → is_safe_component s ≡ true → str_eq s "" ≡ false
nonempty_component s h = elim (Bool-cases (str_eq s "")) [
  | inl e ↦ cc (empty_is_no_component s h ((eq_iff s "").0 e))
  | inr n ↦ n
]

is_task_id-is_text : (v : Value) → is_task_id v ≡ true → is_text v ≡ true
is_task_id-is_text (str s) h = rw (nonempty_component s h) refl
is_task_id-is_text null h = cc h
is_task_id-is_text (boolean b) h = cc h
is_task_id-is_text (int n) h = cc h
is_task_id-is_text (float x) h = cc h
is_task_id-is_text (arr vs) h = cc h
is_task_id-is_text (obj es) h = cc h

is_task_id-same : (v w : Value) → is_task_id v ≡ true → w ≡ v → same_str w v ≡ true
is_task_id-same (str s) w h e = rw (e, eq_refl s) refl
is_task_id-same null w h e = cc h
is_task_id-same (boolean b) w h e = cc h
is_task_id-same (int n) w h e = cc h
is_task_id-same (float x) w h e = cc h
is_task_id-same (arr vs) w h e = cc h
is_task_id-same (obj es) w h e = cc h

check_body-new_body :
    (owner : Owner) (lease : Lease) (draft : Draft)
    → is_task_id draft.task_id ≡ true
    → get_or_null "task_id" lease.wire ≡ draft.task_id
    → is_text lease.lease_id ≡ true
    → is_text draft.work_packet_sha256 ≡ true
    → is_text draft.base_commit ≡ true
    → check_body owner (new_body owner lease draft) ≡ ok (new_body owner lease draft)
unfolding check_body ◌>>=◌ ◌>>◌
check_body-new_body owner lease draft t w l p b =
    let text = is_task_id-is_text draft.task_id t in
    let same = is_task_id-same draft.task_id (get_or_null "task_id" lease.wire) t w in
    elim (Bool-cases (is_str "limit" lease.offer_kind)) [
      | inl o ↦
          rw (o, eq_refl owner.namespace, eq_refl owner.runner_id, text, l, p, b, t, same) refl
      | inr o ↦ rw (o, eq_refl owner.namespace, eq_refl owner.runner_id, text, l, p, b, t) refl
    ]

-- A claim that is journaled is the pending record from then on: where the lease id, the packet hash
-- and the base commit are texts that are not empty, and the wire form of the lease names the task,
-- the journal reads back the very record that it wrote, and no record was pending before.
pub begin_is_pending :
    (codec : Codec) (owner : Owner) (disk : Disk) (lease : Lease) (draft : Draft) (w : Written)
    → get_or_null "task_id" lease.wire ≡ draft.task_id
    → is_text lease.lease_id ≡ true
    → is_text draft.work_packet_sha256 ≡ true
    → is_text draft.base_commit ≡ true
    → begin codec owner disk lease draft ≡ ok w
    → (read codec owner w.disk.pending ≡ ok (some w.body))
      × (w.body ≡ new_body owner lease draft)
      × (read codec owner disk.pending ≡ ok none)
begin_is_pending codec owner disk lease draft w n l p b eq =
    let o =
      Ensures-eq-ok (Opens codec owner disk lease draft) _
        (begin-Opens codec owner disk lease draft) eq in
    let valid : (check_body owner w.body ≡ ok w.body) =
      rw (o.body_is) (check_body-new_body owner lease draft o.named n l p b) in
    (rw (o.disk_is) (read-save codec owner w.body o.file o.saved valid), o.body_is, o.idle)
