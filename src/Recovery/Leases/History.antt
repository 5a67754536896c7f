-- ===== src/Recovery/Leases/History.antt =====
-- The history of the journal only grows.
use ormas_subnet.Common.{
  ◌≡◌, refl, sym, ap, subst, true, false, String, List, [], ◌∷◌, Option, none, some, is_some, Value,
  Entries, Result, ok, err, Ensures, Ensures-bind, Ensures-then, Ensures-map, if_holds, str_eq,
}
use ormas_subnet.Recovery.{Codec, Owner, File, found, read_file, read, save}
use ormas_subnet.Recovery.Journal.{
  Disk, Lease, Draft, Written, begin, Built, attempt_of, written_over, with_artifact, build_on,
  claimed_body, checkpoint_artifact, completion_of, is_stage_named, refreeze, freeze, store,
  acknowledge,
}
use ormas_subnet.Recovery.Leases.{
  Opens, begin-Opens, Closes, acknowledge-Closes, Action, begins, checkpoints, freezes,
  acknowledges, disk_after, disk_or, act, run,
}

-- A record stands under the name.
abbrev pub Stands : String → Disk → Type 0
Stands path disk = is_some (disk.history path) ≡ true

abbrev KeepsHistory : Disk → Written → Type 0
KeepsHistory disk w = w.disk.history ≡ disk.history

disk_after-history :
    (disk : Disk) (r : Result Written)
    → Ensures (KeepsHistory disk) r
    → (disk_after disk r).history ≡ disk.history
disk_after-history disk (ok w) h = h
disk_after-history disk (err e) h = refl

written_over-history :
    (disk : Disk) (body : Entries) (r : Result File)
    → Ensures (KeepsHistory disk) (written_over disk body r)
written_over-history disk body (ok file) = refl
written_over-history disk body (err e) = tt

refreeze-history :
    (codec : Codec) (disk : Disk) (body : Entries) (completion : Value)
    → Ensures (KeepsHistory disk) (refreeze codec disk body completion)
unfolding refreeze
refreeze-history codec disk body completion = Ensures-bind _ _ _ λ stored e1.
    Ensures-bind _ _ _ λ old e2. Ensures-bind _ _ _ λ new e3. Ensures-then _ _ _ λ g. refl

freeze-history :
    (codec : Codec) (owner : Owner) (disk : Disk) (receipt terminal capture : Entries)
    → Ensures (KeepsHistory disk) (freeze codec owner disk receipt terminal capture)
unfolding freeze
freeze-history codec owner disk receipt terminal capture = Ensures-bind _ _ _ λ current e1.
    Ensures-bind _ _ _ λ body e2.
      if_holds (Ensures (KeepsHistory disk)) (is_stage_named "completion" body) _ _
        (λ t. refreeze-history codec disk body (completion_of receipt terminal capture))
        (λ t. written_over-history disk _ (save codec _))

begin-history :
    (codec : Codec) (owner : Owner) (disk : Disk) (lease : Lease) (draft : Draft)
    → Ensures (KeepsHistory disk) (begin codec owner disk lease draft)
begin-history codec owner disk lease draft =
    Ensures-map (Opens codec owner disk lease draft) (KeepsHistory disk)
      (begin codec owner disk lease draft) (begin-Opens codec owner disk lease draft)
      λ w o. ap (λ d. d.history) o.disk_is

build_on-history :
    (codec : Codec) (disk : Disk) (build : Result Built) (result capture : Value)
    (r : Result Entries)
    → (build_on codec disk build result capture r).disk.history ≡ disk.history
build_on-history codec disk build result capture (err e) = refl
build_on-history codec disk (err e) result capture (ok body) = refl
build_on-history codec disk (ok built) result capture (ok body) =
    elim (save codec (with_artifact body built result capture))
      as (λ r.
        (attempt_of (record disk { artifact = some built.artifact })
          (written_over (record disk { artifact = some built.artifact })
            (with_artifact body built result capture) r)).disk.history
        ≡ disk.history) [ ok file ↦ refl | err e ↦ refl ]

pub read-is_some :
    (codec : Codec) (owner : Owner) (file : Option File) (body : Entries)
    → read codec owner file ≡ ok (some body)
    → is_some file ≡ true
unfolding read
read-is_some codec owner none body h = cc h
read-is_some codec owner (some file) body h = refl

found-some : (r : Result Entries) → found r ≡ ok none → true ≡ false
found-some (ok body) h = cc h
found-some (err e) h = cc h

pub read-some :
    (codec : Codec) (owner : Owner) (file : Option File)
    → is_some file ≡ true
    → read codec owner file ≡ ok none
    → true ≡ false
unfolding read
read-some codec owner none s h = sym s
read-some codec owner (some file) s h = found-some (read_file codec owner file) h

store-Stands :
    (path name : String) (file : Option File) (history : String → Option File)
    → is_some file ≡ true
    → is_some (history name) ≡ true
    → is_some (store path file history name) ≡ true
store-Stands path name file history f h =
    if_holds (λ o. is_some o ≡ true) (str_eq name path) file (history name) (λ t. f) (λ t. h)

acknowledge-Stands :
    (codec : Codec) (owner : Owner) (disk : Disk) (name : String)
    → Stands name disk
    → Ensures (Stands name) (acknowledge codec owner disk)
acknowledge-Stands codec owner disk name s =
    Ensures-map (Closes codec owner disk) (Stands name) (acknowledge codec owner disk)
      (acknowledge-Closes codec owner disk)
      λ after c. subst (Stands name) (sym c.after_is) (
        store-Stands c.path name disk.pending disk.history
          (read-is_some codec owner disk.pending c.body c.pending_is) s)

disk_or-Stands :
    (name : String) (disk : Disk) (r : Result Disk)
    → Stands name disk
    → Ensures (Stands name) r
    → Stands name (disk_or disk r)
disk_or-Stands name disk (ok d) s h = h
disk_or-Stands name disk (err e) s h = s

act-Stands :
    (codec : Codec) (owner : Owner) (disk : Disk) (action : Action) (name : String)
    → Stands name disk
    → Stands name (act codec owner disk action)
unfolding act checkpoint_artifact
act-Stands codec owner disk (begins lease draft) name s =
    rw (disk_after-history disk _ (begin-history codec owner disk lease draft)) s
act-Stands codec owner disk (checkpoints build result capture) name s =
    rw (build_on-history codec disk build result capture (claimed_body codec owner disk capture)) s
act-Stands codec owner disk (freezes receipt terminal capture) name s =
    rw (disk_after-history disk _ (freeze-history codec owner disk receipt terminal capture)) s
act-Stands codec owner disk acknowledges name s =
    disk_or-Stands name disk (acknowledge codec owner disk) s
      (acknowledge-Stands codec owner disk name s)

pub run-Stands :
    (codec : Codec) (owner : Owner) (disk : Disk) (actions : List Action) (name : String)
    → Stands name disk
    → Stands name (run codec owner disk actions)
unfolding run
run-Stands codec owner disk [] name s = s
run-Stands codec owner disk (a ∷ actions) name s =
    run-Stands codec owner (act codec owner disk a) actions name
      (act-Stands codec owner disk a name s)
