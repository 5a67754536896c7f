-- ===== src/Recovery/Leases/Once.antt =====
-- One lease at a time, and an acknowledged one never again.
use ormas_subnet.Common.{
  ◌≡◌, sym, ap, ◌∙◌, subst, is_ok, is_ok-false, ok_injective, true, false, String, List, Option,
  some, is_some, Entries, get_or_null, ok, Ensures-eq-ok, if_holds, arith, if_holds, str_eq, eq_iff,
}
use ormas_subnet.Recovery.{Codec, Owner, File, read}
use ormas_subnet.Recovery.Journal.{Disk, Lease, Draft, history_path, begin, store, acknowledge}
use ormas_subnet.Recovery.Leases.{Opens, begin-Opens, Closes, acknowledge-Closes, Action, run}
use ormas_subnet.Recovery.Leases.History.{Stands, run-Stands, read-some, read-is_some}

-- While the record under the name of the lease stands, the journal refuses the lease.
begin_refused :
    (codec : Codec) (owner : Owner) (disk : Disk) (lease : Lease) (draft : Draft) (path : String)
    → history_path codec draft.task_id lease.lease_id ≡ ok path
    → Stands path disk
    → is_ok (begin codec owner disk lease draft) ≡ false
begin_refused codec owner disk lease draft path p s =
    is_ok-false (Opens codec owner disk lease draft) (begin codec owner disk lease draft)
      (begin-Opens codec owner disk lease draft)
      λ w o.
        read-some codec owner (disk.history o.path) (rw (ok_injective (sym o.path_is ∙ p)) s)
          o.unseen

-- While a lease is pending, or a record is that cannot be read, no other one is begun.
pub begin_needs_idle :
    (codec : Codec) (owner : Owner) (disk : Disk) (lease : Lease) (draft : Draft)
    → is_some disk.pending ≡ true
    → is_ok (begin codec owner disk lease draft) ≡ false
begin_needs_idle codec owner disk lease draft s =
    is_ok-false (Opens codec owner disk lease draft) (begin codec owner disk lease draft)
      (begin-Opens codec owner disk lease draft) λ w o. read-some codec owner disk.pending s o.idle

stored_here :
    (path name : String) (file : Option File) (history : String → Option File)
    → path ≡ name
    → is_some file ≡ true
    → is_some (store path file history name) ≡ true
stored_here path name file history e f =
    if_holds (λ o. is_some o ≡ true) (str_eq name path) file (history name) (λ t. f)
      λ t. ground (arith, eq_iff name path)

acknowledged-Stands :
    (codec : Codec) (owner : Owner) (disk after : Disk) (body : Entries) (path : String)
    → acknowledge codec owner disk ≡ ok after
    → read codec owner disk.pending ≡ ok (some body)
    → history_path codec (get_or_null "task_id" body) (get_or_null "lease_id" body) ≡ ok path
    → Stands path after
acknowledged-Stands codec owner disk after body path k r p =
    let c = Ensures-eq-ok (Closes codec owner disk) _ (acknowledge-Closes codec owner disk) k in
    let same : (c.body ≡ body) = cc (c.pending_is, r) in
    let there = read-is_some codec owner disk.pending body r in
    let here : (c.path ≡ path) = ok_injective (
      sym c.path_is
      ∙ (ap (λ b. history_path codec (get_or_null "task_id" b) (get_or_null "lease_id" b)) same
          ∙ p)) in
    subst (Stands path) (sym c.after_is)
      (stored_here c.path path disk.pending disk.history here there)

-- Once a lease is acknowledged, the journal refuses every later claim of the same task and lease,
-- whatever was done with it in between.
pub acknowledged_never_begins :
    (codec : Codec) (owner : Owner) (disk after : Disk) (body : Entries) (path : String)
    → acknowledge codec owner disk ≡ ok after
    → read codec owner disk.pending ≡ ok (some body)
    → history_path codec (get_or_null "task_id" body) (get_or_null "lease_id" body) ≡ ok path
    → (actions : List Action) (lease : Lease) (draft : Draft)
    → draft.task_id ≡ get_or_null "task_id" body
    → lease.lease_id ≡ get_or_null "lease_id" body
    → is_ok (begin codec owner (run codec owner after actions) lease draft) ≡ false
acknowledged_never_begins codec owner disk after body path k r p actions lease draft t l =
    begin_refused codec owner (run codec owner after actions) lease draft path (rw (t, l) p) (
      run-Stands codec owner after actions path
        (acknowledged-Stands codec owner disk after body path k r p))
