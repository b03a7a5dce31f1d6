-- ===== src/File/Object/Place.antt =====
-- The names of a job's file after `store`, where the object has the file locked.
use job.File.Moves.{Fs, Faults, Handle, set_name, is_run, is_ok, lock, lock_fd, rename_to, repath}
use job.File.Object.Disks.{Disk, StoreFaults, store, store_parts, create_at}
use job.File.Object.Locks.{set_owner_fs, write_text_fs, store_handle}
use job.File.Object.Stored.{stored_parts, stored_handle}
use job.File.Object.{JobFile}
use job.File.{PathAttrs, is_empty, name}
use job.Multipart.Load.{Multipart}
use job.Multipart.Print.{to_string}
use job.Prelude.{
  ℕ, true, false, [], ◌∷◌, Option, none, some, Bytes, str_eq, str_eq_iff, str_eq_refl,
  if◌then◌else◌, ◌≡◌, refl, ap, sym, ◌∙◌, Bool-cases, inl, inr,
}

pub is_empty-name : (jobdir : Bytes) (p : PathAttrs) → is_empty (name jobdir p) ≡ false
unfolding name is_empty
is_empty-name (c ∷ cs) p = refl
is_empty-name [] p = no_dir p.queue refl
  where
    no_dir : (q : Bytes) → p.queue ≡ q → is_empty (name [] p) ≡ false
    no_dir [] e = rw e refl
    no_dir (c ∷ cs) e = rw e refl

-- The name that the file has after a move from `old` to `new`.
abbrev pub after_move : Faults → Bytes → Bytes → Bytes
after_move w old new = if w.rename_fails then old else new

module _ (w : Faults) (jobdir : Bytes) (i : ℕ) (fs : Fs) (h : Handle)
    (run_is : is_run h.path.state ≡ true) (open_file : h.lockfd ≡ some i)
    (there : fs.names h.oldnam ≡ some i) (named : is_empty h.oldnam ≡ false) where
  abbrev new : Bytes
  new = name jobdir h.path

  abbrev pub StandsAt : Fs × Handle → Type 0
  StandsAt r =
      (r.0.names r.1.oldnam ≡ some i)
      × (r.1.oldnam ≡ after_move w h.oldnam new)
      × (is_empty r.1.oldnam ≡ false)
      × (r.1.lockfd ≡ some i)

  same_name : h.oldnam ≡ new → h.oldnam ≡ after_move w h.oldnam new
  same_name e = elim (Bool-cases w.rename_fails) [ inl f ↦ rw f refl | inr f ↦ rw f e ]

  new_name :
      str_eq h.oldnam new ≡ false
      → set_name h.oldnam none (set_name new (some i) fs.names) new ≡ some i
  unfolding set_name
  new_name s = rw (s, str_eq_refl new) refl

  pub repath-StandsAt : StandsAt (repath w jobdir fs h)
  unfolding repath lock lock_fd rename_to is_ok
  repath-StandsAt = elim (Bool-cases (str_eq h.oldnam new)) [
    | inl s ↦ rw (named, s) (there, same_name ((str_eq_iff h.oldnam new).0 s), named, open_file)
    | inr s ↦ elim (Bool-cases w.rename_fails) [
      | inl f ↦ rw (named, s, open_file, there, f) (there, refl, named, refl)
      | inr f ↦
          rw (named, s, open_file, there, f, run_is)
            (new_name s, refl, is_empty-name jobdir h.path, refl)
    ]
  ]

create_at_there :
    (p : Bytes) (o : Option ℕ) (i : ℕ) (d : Disk) → o ≡ some i → create_at p o d ≡ (d, i)
unfolding create_at
create_at_there p o i d e = rw e refl

store_parts_there :
    (ws : StoreFaults) (uuid p : Bytes) (i : ℕ) (d : Disk) (m : Multipart)
    → d.fs.names p ≡ some i
    → (store_parts ws uuid p d m).0.fs ≡ d.fs
unfolding store_parts
store_parts_there ws uuid p i d m e =
    let made = create_at_there p (d.fs.names p) i d e in
    let to_file =
      write_text_fs ws (to_string uuid m).1 (create_at p (d.fs.names p) d)
      ∙ ap (λ (r : Disk × ℕ). r.0.fs) made in
    elim (Bool-cases ws.create_fails) [ inl c ↦ rw c refl | inr c ↦ rw c to_file ]

-- After `store` of a job that is to run, which the object has locked, the locked file has its new name,
-- or, where the renaming fails, the old one.
pub store_place :
    (w : Faults) (ws : StoreFaults) (jobdir uuid : Bytes) (d : Disk) (f : JobFile) (i : ℕ)
    → is_run f.handle.path.state ≡ true
    → f.handle.lockfd ≡ some i
    → d.fs.names f.handle.oldnam ≡ some i
    → is_empty f.handle.oldnam ≡ false
    → ((store w ws jobdir uuid d f).1.handle.lockfd ≡ some i)
      × ((store w ws jobdir uuid d f).0.fs.names
            (after_move w f.handle.oldnam (name jobdir f.handle.path))
          ≡ some i)
unfolding store
store_place w ws jobdir uuid d f i r fd there named =
    let (stands, old, full, open_file) =
      repath-StandsAt w jobdir i d.fs f.handle r fd there named in
    let (fs', h') = repath w jobdir d.fs f.handle in
    let p = (stored_handle w jobdir d f).oldnam in
    let same : p ≡ h'.oldnam = rw full refl in
    let d0 = record d { fs = fs' } in
    let kept = store_parts_there ws uuid p i d0 (stored_parts f) (ap fs'.names same ∙ stands) in
    let made = store_parts ws uuid p d0 (stored_parts f) in
    let to = after_move w f.handle.oldnam (name jobdir f.handle.path) in
    let last : fs'.names to ≡ some i = ap fs'.names (sym old) ∙ stands in
    let still = (store_handle w ws jobdir uuid d f).0 ∙ open_file in
    (
      still,
      elim (Bool-cases (store_parts ws uuid p d0 (stored_parts f)).2) [
        | inl g ↦ rw g (ap (λ (x : Fs). x.names to) (set_owner_fs ws p f made.0 ∙ kept) ∙ last)
        | inr g ↦ rw g (ap (λ (x : Fs). x.names to) kept ∙ last)
      ],
    )
