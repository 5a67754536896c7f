-- ===== src/Recovery/Turns/Refines.antt =====
-- Every operation of the journal is a turn, or leaves the pending file as it is.
use ormas_subnet.Common.{
  ◌≡◌, ◌≢◌, refl, sym, ap, ◌∙◌, subst, inl, inr, true, false, Option, none, some, Value, Entries,
  Result, ok, err, Ensures, Ensures-bind, Ensures-then, Ensures-eq-ok, Ensures-map, guard_passed,
  if_holds,
}
use ormas_subnet.Recovery.{Codec, Owner, File, found, read_file, read, save}
use ormas_subnet.Recovery.Journal.{
  Disk, Lease, Draft, Written, Built, begin, with_artifact, attempt_of, written_over, build_on,
  claimed_body, checkpoint_artifact, completion_of, frozen_body, refreeze, freeze, acknowledge,
  is_stage_named,
}
use ormas_subnet.Recovery.Leases.{
  Action, begins, checkpoints, freezes, acknowledges, act, disk_after, disk_or, Opens, Closes,
  begin-Opens, acknowledge-Closes, present-ok,
}
use ormas_subnet.Recovery.Turns.{
  Carries, Shows, stage_of, Turn, opens, publishes, completes, closes, IsTurn, save-Carries,
  read-Shows,
}
use ormas_subnet.Recovery.Turns.Stages.{
  with_artifact-IsSameLease, with_artifact-stage, frozen_body-IsSameLease, frozen_body-stage,
}

found-none : (r : Result Entries) → found r ≢ ok none
found-none (ok b) h = cc h
found-none (err e) h = cc h

module _ (codec : Codec) (owner : Owner) (disk : Disk) where
  read-none : (o : Option File) → read codec owner o ≡ ok none → o ≡ none
  unfolding read
  read-none none h = refl
  read-none (some file) h = elim (found-none (read_file codec owner file) h) [ ]

  disk_after-IsTurn :
      (r : Result Written) → Ensures (λ w. IsTurn disk w.disk) r → IsTurn disk (disk_after disk r)
  disk_after-IsTurn (ok w) h = h
  disk_after-IsTurn (err e) h = inl refl

  disk_or-IsTurn : (r : Result Disk) → Ensures (IsTurn disk) r → IsTurn disk (disk_or disk r)
  disk_or-IsTurn (ok d) h = h
  disk_or-IsTurn (err e) h = inl refl

  begins-IsTurn :
      (lease : Lease) (draft : Draft)
      → IsTurn disk (disk_after disk (begin codec owner disk lease draft))
  begins-IsTurn lease draft = disk_after-IsTurn _ (
      Ensures-map (Opens codec owner disk lease draft) (λ w. IsTurn disk w.disk) _
        (begin-Opens codec owner disk lease draft)
        λ w o.
          let carried =
            Ensures-eq-ok (λ file. Carries file w.body) _ (save-Carries codec w.body) o.saved in
          subst (IsTurn disk) (sym o.disk_is) (
            inr (
              none,
              some w.body,
              read-none disk.pending o.idle,
              (o.file, refl, carried),
              opens (ap stage_of o.body_is),
            )))

  claimed_body-Ensures :
      (capture : Value)
      → Ensures
          (λ body.
            (read codec owner disk.pending ≡ ok (some body))
            × (is_stage_named "claimed" body ≡ true))
          (claimed_body codec owner disk capture)
  unfolding claimed_body
  claimed_body-Ensures capture = Ensures-then _ _ _ λ g1. Ensures-bind _ _ _ λ current e1.
      Ensures-bind _ _ _ λ body e2.
        Ensures-then _ _ _ λ g2. (e1 ∙ ap ok (present-ok _ current e2), guard_passed _ _ g2)

  -- A record that is written over the pending one.
  replaced-IsTurn :
      (before : Disk) (a b : Entries) (r : Result File)
      → before.pending ≡ disk.pending
      → Shows disk.pending (some a)
      → Turn (some a) (some b)
      → Ensures (λ file. Carries file b) r
      → IsTurn disk (attempt_of before (written_over before b r)).disk
  replaced-IsTurn before a b (ok file) same s t c = inr (some a, some b, s, (file, refl, c), t)
  replaced-IsTurn before a b (err e) same s t c = inl same

  build_on-IsTurn :
      (build : Result Built) (result capture : Value) (r : Result Entries)
      → Ensures
          (λ body.
            (read codec owner disk.pending ≡ ok (some body))
            × (is_stage_named "claimed" body ≡ true))
          r
      → IsTurn disk (build_on codec disk build result capture r).disk
  build_on-IsTurn build result capture (err e) h = inl refl
  build_on-IsTurn (err e) result capture (ok body) h = inl refl
  build_on-IsTurn (ok built) result capture (ok body) h =
      replaced-IsTurn (record disk { artifact = some built.artifact }) body
        (with_artifact body built result capture)
        (save codec (with_artifact body built result capture)) refl
        (read-Shows codec owner disk.pending h.0)
        (publishes h.1 (with_artifact-stage body built result capture)
          (with_artifact-IsSameLease body built result capture))
        (save-Carries codec (with_artifact body built result capture))

  checkpoints-IsTurn :
      (build : Result Built) (result capture : Value)
      → IsTurn disk (checkpoint_artifact codec owner disk build result capture).disk
  unfolding checkpoint_artifact
  checkpoints-IsTurn build result capture =
      build_on-IsTurn build result capture (claimed_body codec owner disk capture)
        (claimed_body-Ensures capture)

  refreeze-IsTurn :
      (body : Entries) (completion : Value)
      → Ensures (λ w. IsTurn disk w.disk) (refreeze codec disk body completion)
  unfolding refreeze
  refreeze-IsTurn body completion = Ensures-bind _ _ _ λ stored e1.
      Ensures-bind _ _ _ λ old e2. Ensures-bind _ _ _ λ new e3. Ensures-then _ _ _ λ g. inl refl

  frozen-IsTurn :
      (body : Entries) (capture : Entries) (completion : Value) (r : Result File)
      → read codec owner disk.pending ≡ ok (some body)
      → is_stage_named "completion" body ≡ false
      → Ensures (λ file. Carries file (frozen_body capture body completion)) r
      → Ensures
          (λ w. IsTurn disk w.disk)
          (written_over disk (frozen_body capture body completion) r)
  frozen-IsTurn body capture completion (ok file) e n c = inr (
    some body,
    some (frozen_body capture body completion),
    read-Shows codec owner disk.pending e,
    (file, refl, c),
    completes n (frozen_body-stage capture body completion)
        (frozen_body-IsSameLease capture body completion),
  )
  frozen-IsTurn body capture completion (err e) r n c = tt

  freezes-IsTurn :
      (receipt terminal capture : Entries)
      → IsTurn disk (disk_after disk (freeze codec owner disk receipt terminal capture))
  unfolding freeze
  freezes-IsTurn receipt terminal capture = disk_after-IsTurn _ (
      Ensures-bind _ _ _ λ current e1. Ensures-bind _ _ _ λ body e2.
        let completion = completion_of receipt terminal capture in
        if_holds (Ensures (λ w. IsTurn disk w.disk)) (is_stage_named "completion" body) _ _
          (λ t. refreeze-IsTurn body completion)
          (λ n.
            frozen-IsTurn body capture completion _ (e1 ∙ ap ok (present-ok _ current e2)) n
              (save-Carries codec (frozen_body capture body completion))))

  acknowledges-IsTurn : IsTurn disk (disk_or disk (acknowledge codec owner disk))
  acknowledges-IsTurn = disk_or-IsTurn _ (
      Ensures-map (Closes codec owner disk) (IsTurn disk) _ (acknowledge-Closes codec owner disk)
        λ after c.
          subst (IsTurn disk) (sym c.after_is) (
            inr
              (some c.body, none, read-Shows codec owner disk.pending c.pending_is, refl, closes)))

  -- The journal refines a machine that holds one lease at a time. Whatever a miner does with it,
  -- also where it raises, the pending file stays as it is, or the machine takes a turn that the file
  -- shows: from no lease to one that is claimed; from a claimed one to its artifact; from one that
  -- is not completed to its completion; or from any to none. A lease that goes on keeps its task,
  -- its name, its packet and its base commit.
  pub act-IsTurn : (action : Action) → IsTurn disk (act codec owner disk action)
  unfolding act
  act-IsTurn (begins lease draft) = begins-IsTurn lease draft
  act-IsTurn (checkpoints build result capture) = checkpoints-IsTurn build result capture
  act-IsTurn (freezes receipt terminal capture) = freezes-IsTurn receipt terminal capture
  act-IsTurn acknowledges = acknowledges-IsTurn
