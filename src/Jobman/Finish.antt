-- ===== src/Jobman/Finish.antt =====
-- `try_done`, the callback for the end of a job's process, on the disk: what it makes of the job is in
-- Retry.
use job.File.Moves.{Faults, Handle, unlock}
use job.File.Moves.Owner.{OwnsIts, Free, unlock-Free}
use job.File.Object.Disks.{Disk, StoreFaults, FileLoaded, loaded, no_file, bad_line, load, store}
use job.File.Object.Locks.{store-OwnsIts}
use job.File.Object.{JobFile}
use job.File.{name}
use job.Jobman.Retry.{Job, try_done}
use job.Jobman.Run.Released.{IsFrom, load_inode-IsFrom}
use job.Prelude.{ℕ, Bool, true, false, Bytes, ◌≡◌, refl, ◌∙◌}

-- What the calls answer: the current time, and as `tim2str` prints it; those in `store`.
pub record EndCalls : Type 0 where
  pub now : ℕ
  pub end_time : Bytes
  pub in_store : Faults
  pub in_text : StoreFaults
  pub uuid : Bytes

-- The part of the object that `try_done` reads and changes.
unfoldable pub job_of : JobFile → Job
job_of f = record {
  path = f.handle.path;
  try_count = f.try_count;
  try_limit = f.header.try_limit;
  closed = f.parts.closed;
  sections = f.parts.sections;
}

unfoldable pub with_job : Job → JobFile → JobFile
with_job j f = record f {
  handle = record (f.handle) { path = j.path };
  try_count = j.try_count;
  header = record (f.header) { try_limit = j.try_limit };
  parts = record (f.parts) { closed = j.closed; sections = j.sections };
}

-- The disk, and whether the object is deleted, which closes its file.
pub record Finished : Type 0 where
  pub disk : Disk
  pub deleted : Bool

-- From `load` on. A job that cannot be loaded is neither stored nor deleted.
unfoldable pub finish_loaded : EndCalls → Bytes → ℕ → ℕ → Disk → FileLoaded → Finished
unfolding store unlock job_of with_job try_done
finish_loaded w jobdir xsig xstat d (loaded f) =
    let j = try_done w.now w.end_time xsig xstat (job_of f) in
    let (d', f', e) = store w.in_store w.in_text jobdir w.uuid d (with_job j f) in
    record { disk = record d' { fs = (unlock d'.fs f'.handle).0 }; deleted = true }
finish_loaded w jobdir xsig xstat d no_file = record { disk = d; deleted = false }
finish_loaded w jobdir xsig xstat d (bad_line e n) = record { disk = d; deleted = false }

unfoldable pub finish : EndCalls → Bytes → ℕ → ℕ → Disk → JobFile → Finished
unfolding finish_loaded load
finish w jobdir xsig xstat d f = finish_loaded w jobdir xsig xstat d (load jobdir d f)

-- The object is deleted and has no lock where the job could be loaded; the disk is as it was, with its
-- locks, where it could not.
abbrev pub IsFinished : ℕ → Disk → FileLoaded → Finished → Type 0
IsFinished me d (loaded f) r = (r.deleted ≡ true) × Free me r.disk.fs
IsFinished me d no_file r = (r.deleted ≡ false) × (r.disk ≡ d)
IsFinished me d (bad_line b n) r = (r.deleted ≡ false) × (r.disk ≡ d)

module _ (w : EndCalls) (jobdir : Bytes) (xsig xstat me : ℕ) (d : Disk) (h : Handle)
    (v : OwnsIts me (d.fs, h)) where
  finish_loaded-IsFinished :
      (l : FileLoaded) → IsFrom h l → IsFinished me d l (finish_loaded w jobdir xsig xstat d l)
  unfolding finish_loaded with_job
  finish_loaded-IsFinished (loaded f) (m, fd, _) =
      let j = try_done w.now w.end_time xsig xstat (job_of f) in
      let (d', f', e) = store w.in_store w.in_text jobdir w.uuid d (with_job j f) in
      (
        refl,
        (unlock-Free me d'.fs f'.handle (
            store-OwnsIts w.in_store w.in_text jobdir w.uuid d (with_job j f) me
              (record { me_is = m ∙ v.me_is; own = λ i l. fd ∙ v.own i l }))).0,
      )
  finish_loaded-IsFinished no_file _ = (refl, refl)
  finish_loaded-IsFinished (bad_line b n) _ = (refl, refl)

-- Where the job can be loaded, the callback deletes the object and gives up the job's lock on the disk,
-- whether or not it can store the job; where the job cannot be loaded it does neither, and the disk
-- keeps the lock of a job whose process has ended. The object has no lock but that of its open file.
pub finish-IsFinished :
    (w : EndCalls) (jobdir : Bytes) (xsig xstat : ℕ) (d : Disk) (f : JobFile)
    → OwnsIts f.handle.me (d.fs, f.handle)
    → IsFinished f.handle.me d (load jobdir d f) (finish w jobdir xsig xstat d f)
unfolding finish load
finish-IsFinished w jobdir xsig xstat d f v =
    finish_loaded-IsFinished w jobdir xsig xstat f.handle.me d f.handle v (load jobdir d f) (
      load_inode-IsFrom d
        (record f { handle = record (f.handle) { oldnam = name jobdir f.handle.path } })
        (d.fs.names (name jobdir f.handle.path)))
