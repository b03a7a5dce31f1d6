-- ===== src/File/Object/Locks.antt =====
-- What `store` does to the directory tree besides its move: it takes no lock and gives none up.
use job.File.Moves.{Fs, Faults, repath, is_run}
use job.File.Moves.Others.{IsFewer, repath-IsFewer}
use job.File.Moves.Owner.{OwnsIts, repath-OwnsIts}
use job.File.Moves.Held.{Holds, repath-Holds}
use job.File.Object.Disks.{
  Disk, StoreFaults, store, store_parts, set_owner, give_to, create_at, write_text,
}
use job.File.Object.Stored.{stored_parts, stored_handle}
use job.File.Object.{JobFile}
use job.File.{is_empty}
use job.Multipart.Load.{Multipart}
use job.Multipart.Print.{to_string}
use job.Prelude.{
  ℕ, Bool, true, ◌||◌, Option, none, some, Bytes, ◌==◌, ◌≡◌, ◌≢◌, refl, ap, sym, ◌∙◌, Bool-cases,
  Option-cases, inl, inr,
}

give_to_fs : (ids : ℕ × ℕ) (o : Option ℕ) (d : Disk) → (give_to ids o d).fs ≡ d.fs
unfolding give_to
give_to_fs ids none d = refl
give_to_fs ids (some i) d = refl

pub set_owner_fs :
    (ws : StoreFaults) (p : Bytes) (f : JobFile) (d : Disk) → (set_owner ws p f d).0.fs ≡ d.fs
unfolding set_owner
set_owner_fs ws p f d = elim (Bool-cases (f.uid == 0 || f.gid == 0)) [
  | inl e ↦ rw e
  | inr e ↦ elim (Bool-cases ws.chown_fails) [
    | inl c ↦ rw (e, c)
    | inr c ↦ rw (e, c) (give_to_fs (f.uid, f.gid) (d.fs.names p) d)
  ]
]

pub write_text_fs :
    (ws : StoreFaults) (text : Bytes) (r : Disk × ℕ) → (write_text ws text r).0.fs ≡ r.0.fs
unfolding write_text
write_text_fs ws text r = elim (Option-cases ws.written) [ inl e ↦ rw e | inr (l, e) ↦ rw e ]

create_at_locked :
    (p : Bytes) (o : Option ℕ) (d : Disk) → (create_at p o d).0.fs.locked ≡ d.fs.locked
unfolding create_at
create_at_locked p (some i) d = refl
create_at_locked p none d = refl

store_parts_locked :
    (ws : StoreFaults) (uuid p : Bytes) (d : Disk) (m : Multipart)
    → (store_parts ws uuid p d m).0.fs.locked ≡ d.fs.locked
unfolding store_parts
store_parts_locked ws uuid p d m =
    let written =
      ap (λ (fs : Fs). fs.locked)
        (write_text_fs ws (to_string uuid m).1 (create_at p (d.fs.names p) d))
      ∙ create_at_locked p (d.fs.names p) d in
    elim (Bool-cases ws.create_fails) [ inl c ↦ rw c | inr c ↦ rw c written ]

stored_handle_same :
    (w : Faults) (jobdir : Bytes) (d : Disk) (f : JobFile)
    → ((stored_handle w jobdir d f).lockfd ≡ (repath w jobdir d.fs f.handle).1.lockfd)
      × ((stored_handle w jobdir d f).me ≡ (repath w jobdir d.fs f.handle).1.me)
      × ((stored_handle w jobdir d f).path ≡ (repath w jobdir d.fs f.handle).1.path)
stored_handle_same w jobdir d f =
    elim (Bool-cases (is_empty (repath w jobdir d.fs f.handle).1.oldnam)) [
      | inl e ↦ rw e (refl, refl, refl)
      | inr e ↦ rw e (refl, refl, refl)
    ]

module _ (w : Faults) (ws : StoreFaults) (jobdir uuid : Bytes) (d : Disk) (f : JobFile) where
  abbrev outcome : Disk × Multipart × Bool
  outcome =
      store_parts ws uuid (stored_handle w jobdir d f).oldnam
        (record d { fs = (repath w jobdir d.fs f.handle).0 }) (stored_parts f)

  store_locked : (store w ws jobdir uuid d f).0.fs.locked ≡ (repath w jobdir d.fs f.handle).0.locked
  unfolding store
  store_locked =
      let p = (stored_handle w jobdir d f).oldnam in
      let locks =
        store_parts_locked ws uuid p (record d { fs = (repath w jobdir d.fs f.handle).0 })
          (stored_parts f) in
      let owned = ap (λ (x : Fs). x.locked) (set_owner_fs ws p f outcome.0) in
      elim (Bool-cases outcome.2) [ inl g ↦ rw g (owned ∙ locks) | inr g ↦ rw g locks ]

  pub store_handle :
      ((store w ws jobdir uuid d f).1.handle.lockfd ≡ (repath w jobdir d.fs f.handle).1.lockfd)
      × ((store w ws jobdir uuid d f).1.handle.me ≡ (repath w jobdir d.fs f.handle).1.me)
      × ((store w ws jobdir uuid d f).1.handle.path ≡ (repath w jobdir d.fs f.handle).1.path)
  unfolding store
  store_handle = elim (Bool-cases outcome.2) [
    | inl g ↦ rw g (stored_handle_same w jobdir d f)
    | inr g ↦ rw g (stored_handle_same w jobdir d f)
  ]

  -- After a `store` too, the object has at most the lock of its open file.
  pub store-OwnsIts :
      (me : ℕ)
      → OwnsIts me (d.fs, f.handle)
      → OwnsIts me ((store w ws jobdir uuid d f).0.fs, (store w ws jobdir uuid d f).1.handle)
  store-OwnsIts me v =
      let r = repath-OwnsIts w me jobdir d.fs f.handle v in
      record {
        me_is = store_handle.1 ∙ r.me_is;
        own =
            λ i l. store_handle.0 ∙ r.own i (ap (λ (k : ℕ → Option ℕ). k i) (sym store_locked) ∙ l);
      }

  -- A `store` of a job that is to run keeps its lock, and the state.
  pub store-Holds :
      (me : ℕ)
      → is_run f.handle.path.state ≡ true
      → Holds me (d.fs, f.handle)
      → Holds me ((store w ws jobdir uuid d f).0.fs, (store w ws jobdir uuid d f).1.handle)
        × ((store w ws jobdir uuid d f).1.handle.path ≡ f.handle.path)
  store-Holds me r v =
      let ((i, fd, own), p) = repath-Holds w me jobdir d.fs f.handle r v in
      (
        (i, store_handle.0 ∙ fd, ap (λ (k : ℕ → Option ℕ). k i) store_locked ∙ own),
        store_handle.2 ∙ p,
      )

  -- A `store` gives no lock to another object.
  pub store-IsFewer :
      (me : ℕ)
      → f.handle.me ≢ me
      → (IsFewer me (store w ws jobdir uuid d f).0.fs d.fs)
        × ((store w ws jobdir uuid d f).1.handle.me ≢ me)
  store-IsFewer me n =
      let (a, m) = repath-IsFewer me w jobdir d.fs f.handle n in
      (
        (λ i l. a i (ap (λ (k : ℕ → Option ℕ). k i) (sym store_locked) ∙ l)),
        (λ k. m (sym store_handle.1 ∙ k)),
      )
