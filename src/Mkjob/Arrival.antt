-- ===== src/Mkjob/Arrival.antt =====
-- Where the job is when `mkjob` has submitted it.
use job.File.Moves.{
  Fs, Faults, Handle, err_ok, repath, lock, lock_fd, open_fd, flock_fd, rename_to, unlock,
  unlock_fd, is_ok, is_run,
}
use job.File.Object.Disks.{Disk, StoreFaults, store, store_parts, create_at}
use job.File.Object.Stored.{stored_parts, stored_handle}
use job.File.Object.{JobFile}
use job.File.{is_empty, name}
use job.Mkjob.Pending.{set_name_own}
use job.File.Object.Locks.{set_owner_fs, write_text_fs}
use job.Mkjob.Storing.{repath_new, handle_new}
use job.Multipart.Load.{Multipart}
use job.Multipart.Print.{to_string}
use job.Prelude.{
  ℕ, true, false, [], Option, none, some, Bytes, str_eq, str_eq_iff, ◌≡◌, ◌≢◌, refl, ap, subst, sym,
  ◌∙◌, Bool-cases, inl, inr,
}

-- No system call of the moves fails for a reason of its own.
pub record Faultless (w : Faults) : Type 0 where
  pub opens : w.open_fails ≡ false
  pub flocks : w.flock_fails ≡ false
  pub renames : w.rename_fails ≡ false

apart_str_eq : (p q : Bytes) → p ≢ q → str_eq p q ≡ false
apart_str_eq p q h = elim (Bool-cases (str_eq p q)) [
  | inl e ↦ absurd (h ((str_eq_iff p q).0 e))
  | inr e ↦ e
]

-- A file that nobody has locked can be moved.
pub repath_succeeds :
    (w : Faults) (jobdir : Bytes) (fs : Fs) (h : Handle) (i : ℕ)
    → Faultless w
    → is_empty h.oldnam ≡ false
    → h.oldnam ≢ name jobdir h.path
    → h.lockfd ≡ none
    → fs.names h.oldnam ≡ some i
    → fs.locked i ≡ none
    → (repath w jobdir fs h).1.error ≡ err_ok
unfolding repath lock lock_fd open_fd flock_fd rename_to unlock unlock_fd is_ok
repath_succeeds w jobdir fs h i g named apart unlocked there free =
    let s = apart_str_eq h.oldnam (name jobdir h.path) apart in
    elim (Bool-cases (is_run h.path.state)) [
      | inl r ↦ rw (named, s, unlocked, there, g.opens, free, g.flocks, there, g.renames, r)
      | inr r ↦ rw (named, s, unlocked, there, g.opens, free, g.flocks, there, g.renames, r)
    ]

create_at_new :
    (p : Bytes) (o : Option ℕ) (d : Disk)
    → o ≡ none
    → ((create_at p o d).0.fs.names p ≡ some d.fresh)
      × ((create_at p o d).0.fs.locked ≡ d.fs.locked)
unfolding create_at
create_at_new p none d e = (set_name_own p (some d.fresh) d.fs.names, refl)
create_at_new p (some i) d e = absurd (none_some (sym e))
  where
    none_some : none ≡ some i → ⊥
    none_some k = cc

store_parts_place :
    (ws : StoreFaults) (uuid p : Bytes) (d : Disk) (m : Multipart)
    → ws.create_fails ≡ false
    → d.fs.names p ≡ none
    → ((store_parts ws uuid p d m).0.fs.names p ≡ some d.fresh)
      × ((store_parts ws uuid p d m).0.fs.locked ≡ d.fs.locked)
unfolding store_parts
store_parts_place ws uuid p d m c e =
    let text = write_text_fs ws (to_string uuid m).1 (create_at p (d.fs.names p) d) in
    let (n, l) = create_at_new p (d.fs.names p) d e in
    rw c (ap (λ (fs : Fs). fs.names p) text ∙ n, ap (λ (fs : Fs). fs.locked) text ∙ l)

-- The first file of a job is a new one, which nobody has locked.
pub store_new_place :
    (w : Faults) (ws : StoreFaults) (jobdir uuid : Bytes) (d : Disk) (f : JobFile)
    → f.handle.oldnam ≡ []
    → ws.create_fails ≡ false
    → d.fs.names (name jobdir f.handle.path) ≡ none
    → ((store w ws jobdir uuid d f).0.fs.names (name jobdir f.handle.path) ≡ some d.fresh)
      × ((store w ws jobdir uuid d f).0.fs.locked ≡ d.fs.locked)
unfolding store
store_new_place w ws jobdir uuid d f new c absent =
    let e : is_empty f.handle.oldnam ≡ true = unfold is_empty in ap is_empty new in
    let p = (stored_handle w jobdir d f).oldnam in
    let same_fs : (repath w jobdir d.fs f.handle).0 ≡ d.fs =
      ap (λ (r : Fs × Handle). r.0) (repath_new w jobdir d.fs f.handle e) in
    let p_is : p ≡ name jobdir f.handle.path =
      ap (λ (h : Handle). h.oldnam) (handle_new w ws jobdir uuid d f new) in
    let d0 = record d { fs = (repath w jobdir d.fs f.handle).0 } in
    let gone : d0.fs.names p ≡ none =
      ap (λ (fs : Fs). fs.names p) same_fs ∙ ap d.fs.names p_is ∙ absent in
    let (n, l) = store_parts_place ws uuid p d0 (stored_parts f) c gone in
    let made = store_parts ws uuid p d0 (stored_parts f) in
    let named = subst (λ q. made.0.fs.names q ≡ some d.fresh) p_is n in
    let locks = l ∙ ap (λ (fs : Fs). fs.locked) same_fs in
    let owned = set_owner_fs ws p f made.0 in
    elim (Bool-cases (store_parts ws uuid p d0 (stored_parts f)).2) [
      | inl g ↦ rw g (
        ap (λ (fs : Fs). fs.names (name jobdir f.handle.path)) owned ∙ named,
        ap (λ (fs : Fs). fs.locked) owned ∙ locks,
      )
      | inr g ↦ rw g (named, locks)
    ]
