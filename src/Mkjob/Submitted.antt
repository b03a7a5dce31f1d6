-- ===== src/Mkjob/Submitted.antt =====
-- The submission of a job in which nothing fails but `fclose`.
use job.File.Moves.Renamed.{
  HoldsIts, no_file, in_place, refused, renamed, LockOf, LockAfter, repath-Repathed,
}
use job.File.Moves.{Fs, Handle, err_ok, set_name, repath, is_ok, is_run}
use job.File.Object.Disks.{Disk, in_file, store}
use job.File.Object.Stored.{HasText, stored_parts, store-HasText, store_good}
use job.File.Object.{JobFile}
use job.File.{is_empty, name, PathAttrs, pend}
use job.Mkjob.Arrival.{Faultless, repath_succeeds, store_new_place}
use job.Mkjob.Pending.{none-HoldsIts, set_name_own}
use job.Mkjob.Storing.{set_name_other, store_new_handle}
use job.Mkjob.Submit.{
  Run, submitted, SubmitFaults, is_stored, in_pend, move_job, half_stored, with_disk, submit,
}
use job.Multipart.Load.{c_str}
use job.Multipart.Print.{to_string}
use job.Prelude.{
  ℕ, false, List, [], ◌∷◌, ◌++◌, Option, none, some, Bytes, ◌≡◌, ◌≢◌, inl, inr, some_injective,
  refl, ap, subst, sym, ◌∙◌,
}
use mathlib.Core.Bool.{false≢true}

-- The job's file has left `from` and stands at `to` with the text, nobody has it locked, and the object
-- has no file open. The
-- disks in `earlier` were before the file was written.
pub record HasArrived (earlier : List Disk) (from to text : Bytes) (r : Run) : Type 0 where
  pub first : Disk
  pub last : Disk
  pub disks_are : r.disks ≡ earlier ++ (first ∷ (last ∷ []))
  pub ended : r.end ≡ submitted
  pub there : HasText to text last
  pub gone : last.fs.names from ≡ none
  pub unlocked : last.fs.locked there.inode ≡ none
  pub closed : r.job.handle.lockfd ≡ none

with_disk-HasArrived :
    (d : Disk) (earlier : List Disk) (from to text : Bytes) (r : Run)
    → HasArrived earlier from to text r
    → HasArrived (d ∷ earlier) from to text (with_disk d r)
with_disk-HasArrived d earlier from to text r h = record {
  first = h.first;
  last = h.last;
  disks_are = ap (λ (l : List Disk). d ∷ l) h.disks_are;
  ended = h.ended;
  there = h.there;
  gone = h.gone;
  unlocked = h.unlocked;
  closed = h.closed;
}

module _ (w : SubmitFaults) (jobdir text : Bytes) (d : Disk) (f : JobFile)
    (pending : f.handle.path.state ≡ pend) (open_free : HoldsIts d.fs f.handle)
    (named : is_empty f.handle.oldnam ≡ false) (there : HasText f.handle.oldnam text d)
    (apart : f.handle.oldnam ≢ name jobdir f.handle.path) (shut : f.handle.lockfd ≡ none)
    (succeeds : (repath w.in_repath jobdir d.fs f.handle).1.error ≡ err_ok) where
  abbrev moved : Fs × Handle
  moved = repath w.in_repath jobdir d.fs f.handle

  arrived :
      (i : ℕ)
      → d.fs.names f.handle.oldnam ≡ some i
      → moved.0.names
        ≡ set_name f.handle.oldnam none (set_name (name jobdir f.handle.path) (some i) d.fs.names)
      → LockAfter (is_run f.handle.path.state) d.fs f.handle moved
      → HasArrived [] f.handle.oldnam (name jobdir f.handle.path) text (move_job w jobdir d f)
  unfolding move_job is_ok is_run
  arrived i n m l = rw succeeds (record {
    first = d;
    last = record d { fs = moved.0 };
    disks_are = refl;
    ended = refl;
    there = record {
      inode = there.inode;
      named =
          ap (λ (g : Bytes → Option ℕ). g (name jobdir f.handle.path)) m
          ∙ set_name_other f.handle.oldnam (name jobdir f.handle.path) none
              (set_name (name jobdir f.handle.path) (some i) d.fs.names) apart
          ∙ set_name_own (name jobdir f.handle.path) (some i) d.fs.names
          ∙ sym n
          ∙ there.named;
      content_is = there.content_is;
    };
    gone =
        ap (λ (g : Bytes → Option ℕ). g f.handle.oldnam) m
        ∙ set_name_own f.handle.oldnam none
            (set_name (name jobdir f.handle.path) (some i) d.fs.names);
    unlocked =
        (let (s, (j, free, its)) = after in
          subst (λ k. moved.0.locked k ≡ none) (the_inode j its) free);
    closed = after.0;
  })
    where
      after : LockAfter (is_run pend) d.fs f.handle moved
      after = subst (λ s. LockAfter (is_run s) d.fs f.handle moved) pending l

      the_inode : (j : ℕ) → LockOf d.fs f.handle j → j ≡ there.inode
      the_inode j (inl e) = (let bad : none ≡ some j = sym shut ∙ e in cc)
      the_inode j (inr (e, k)) = some_injective (sym k ∙ there.named)

  move_job-HasArrived :
      HasArrived [] f.handle.oldnam (name jobdir f.handle.path) text (move_job w jobdir d f)
  move_job-HasArrived = elim (repath-Repathed w.in_repath jobdir d.fs f.handle open_free) [
    | no_file e r ↦ absurd (false≢true (sym named ∙ e))
    | in_place e r ↦ absurd (apart e)
    | refused k n o ↦ absurd (k succeeds)
    | renamed i n e o m l ↦ arrived i n m l
  ]

-- If no other system call fails, a new job ends up in `pend`: `mkjob` says that it is submitted, after it has
-- opened and written the file in `hold`, its name in `pend` leads to its text, or, since `mkjob` does not
-- look at the result of `fclose`, to what that has left of it; its name in `hold` is gone, and nobody has
-- it locked. Nothing had its name in `hold` before, and the new inode was not locked.
pub submit-HasArrived :
    (w : SubmitFaults) (jobdir uuid : Bytes) (d : Disk) (f : JobFile)
    → Faultless w.in_repath
    → w.in_text.create_fails ≡ false
    → w.in_text.written ≡ none
    → w.in_text.stat_fails ≡ false
    → w.in_text.chown_fails ≡ false
    → f.handle.oldnam ≡ []
    → f.handle.lockfd ≡ none
    → d.fs.names (name jobdir f.handle.path) ≡ none
    → d.fs.locked d.fresh ≡ none
    → is_empty (name jobdir f.handle.path) ≡ false
    → name jobdir f.handle.path ≢ name jobdir (in_pend f).handle.path
    → HasArrived
        (half_stored w.in_store w.in_text jobdir d f ∷ [])
        (name jobdir f.handle.path)
        (name jobdir (in_pend f).handle.path)
        (in_file w.in_text.flushed (c_str (to_string uuid (stored_parts f)).1))
        (submit w jobdir uuid d f)
unfolding submit is_stored
submit-HasArrived w jobdir uuid d f g c e s o new unlocked absent free named apart =
    let text = in_file w.in_text.flushed (c_str (to_string uuid (stored_parts f)).1) in
    let (d1, f1, x) = store w.in_store w.in_text jobdir uuid d f in
    let (path_is, lock_is, name_is) = store_new_handle w.in_store w.in_text jobdir uuid d f new in
    let (good, no_error, h) = store_good w.in_store w.in_text jobdir uuid d f c e s o in
    let (n, l) = store_new_place w.in_store w.in_text jobdir uuid d f new c absent in
    let there = store-HasText w.in_store w.in_text jobdir uuid d f c e in
    let new_path = λ (q : PathAttrs). name jobdir (record q { state = pend }) in
    let h1 = (in_pend f1).handle in
    let lockfd = lock_is ∙ unlocked in
    let differ : h1.oldnam ≢ name jobdir h1.path =
      λ k. apart (sym name_is ∙ k ∙ ap new_path path_is) in
    let full : is_empty h1.oldnam ≡ false = ap is_empty name_is ∙ named in
    let succeeds =
      repath_succeeds w.in_repath jobdir d1.fs h1 d.fresh g full differ lockfd
        (ap d1.fs.names name_is ∙ n) (ap (λ (k : ℕ → Option ℕ). k d.fresh) l ∙ free) in
    let arrived =
      move_job-HasArrived w jobdir text d1 (in_pend f1) refl (none-HoldsIts d1.fs h1 lockfd) full
        there differ lockfd succeeds in
    let from = name jobdir f.handle.path in
    let to = name jobdir (in_pend f).handle.path in
    let run = move_job w jobdir d1 (in_pend f1) in
    rw (ap is_stored good) (
      with_disk-HasArrived (half_stored w.in_store w.in_text jobdir d f) [] from to text run (
        subst (λ q. HasArrived [] q to text run) name_is
          (subst (λ q. HasArrived [] h1.oldnam (new_path q) text run) path_is arrived)))
