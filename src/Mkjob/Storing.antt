-- ===== src/Mkjob/Storing.antt =====
-- What the steps of `mkjob` do to the names of the directory tree.
use job.File.Moves.{Fs, Faults, Handle, set_name, repath, remove, unlink_at}
use job.File.Object.Disks.{Disk, StoreFaults, store, store_parts, create_at, write_text, opened}
use job.File.Object.Locks.{set_owner_fs, write_text_fs}
use job.File.Object.Stored.{stored_parts, stored_handle}
use job.File.Object.{JobFile}
use job.File.{is_empty, name}
use job.Mkjob.Submit.{is_stored, half_stored}
use job.Multipart.Load.{Multipart}
use job.Multipart.Print.{to_string}
use job.Prelude.{
  ℕ, Bool, true, false, [], Option, none, some, Bytes, str_eq, str_eq_iff, ◌≡◌, ◌≢◌, refl, ap, sym,
  ◌∙◌, Bool-cases, Option-cases, inl, inr,
}
use mathlib.Core.Bool.{false≢true}

-- A name of a directory tree leads to an inode only if it did so before.
abbrev pub NoMore : Bytes → Fs → Fs → Type 0
NoMore q new old = (i : ℕ) → new.names q ≡ some i → old.names q ≡ some i

pub set_name_other :
    (p q : Bytes) (v : Option ℕ) (f : Bytes → Option ℕ) → p ≢ q → set_name p v f q ≡ f q
unfolding set_name
set_name_other p q v f h = elim (Bool-cases (str_eq p q)) [
  | inl e ↦ absurd (h ((str_eq_iff p q).0 e))
  | inr e ↦ rw e
]

set_name-none :
    (p q : Bytes) (f : Bytes → Option ℕ) (i : ℕ) → set_name p none f q ≡ some i → f q ≡ some i
unfolding set_name
set_name-none p q f i h = elim (Bool-cases (str_eq p q)) [
  | inl e ↦ absurd (none_some (sym (rw e) ∙ h))
  | inr e ↦ sym (rw e) ∙ h
]
  where
    none_some : none ≡ some i → ⊥
    none_some k = cc

unlink_at-NoMore :
    (w : Faults) (o : Option ℕ) (fs : Fs) (h : Handle) (q : Bytes)
    → NoMore q (unlink_at w o fs h).0 fs
unfolding unlink_at
unlink_at-NoMore w none fs h q i e = e
unlink_at-NoMore w (some j) fs h q i e = elim (Bool-cases w.remove_fails) [
  | inl s ↦ sym (rw s) ∙ e
  | inr s ↦ set_name-none h.oldnam q fs.names i (sym (rw s) ∙ e)
]

pub remove-NoMore : (w : Faults) (fs : Fs) (h : Handle) (q : Bytes) → NoMore q (remove w fs h).0 fs
unfolding remove
remove-NoMore w fs h q i e = elim (Bool-cases (is_empty h.oldnam)) [
  | inl s ↦ sym (rw s) ∙ e
  | inr s ↦ unlink_at-NoMore w (fs.names h.oldnam) fs h q i (sym (rw s) ∙ e)
]

create_at_other :
    (p q : Bytes) (o : Option ℕ) (d : Disk) → p ≢ q → (create_at p o d).0.fs.names q ≡ d.fs.names q
unfolding create_at
create_at_other p q (some i) d h = refl
create_at_other p q none d h = set_name_other p q (some d.fresh) d.fs.names h

pub repath_new :
    (w : Faults) (jobdir : Bytes) (fs : Fs) (h : Handle)
    → is_empty h.oldnam ≡ true
    → repath w jobdir fs h ≡ (fs, h)
unfolding repath
repath_new w jobdir fs h e = rw e

store_parts_names :
    (ws : StoreFaults) (uuid p q : Bytes) (d : Disk) (m : Multipart)
    → p ≢ q
    → (store_parts ws uuid p d m).0.fs.names q ≡ d.fs.names q
unfolding store_parts
store_parts_names ws uuid p q d m h =
    let to_file =
      ap (λ (fs : Fs). fs.names q)
        (write_text_fs ws (to_string uuid m).1 (create_at p (d.fs.names p) d))
      ∙ create_at_other p q (d.fs.names p) d h in
    elim (Bool-cases ws.create_fails) [ inl c ↦ rw c | inr c ↦ rw c to_file ]

-- A text that is written whole.
store_parts_good :
    (ws : StoreFaults) (uuid p : Bytes) (d : Disk) (m : Multipart)
    → (store_parts ws uuid p d m).2 ≡ true
    → (ws.create_fails ≡ false) × (ws.written ≡ none)
unfolding store_parts write_text
store_parts_good ws uuid p d m h = elim (Bool-cases ws.create_fails) [
  | inl c ↦ absurd (false≢true (sym (rw c) ∙ h))
  | inr c ↦ elim (Option-cases ws.written) [
    | inl e ↦ (c, e)
    | inr (l, e) ↦ absurd (false≢true (sym (rw (c, e)) ∙ h))
  ]
]

opened_names :
    (ws : StoreFaults) (p q : Bytes) (d : Disk) → p ≢ q → (opened ws p d).fs.names q ≡ d.fs.names q
unfolding opened
opened_names ws p q d h = elim (Bool-cases ws.create_fails) [
  | inl c ↦ rw c
  | inr c ↦ rw c (create_at_other p q (d.fs.names p) d h)
]

-- What a job that has never been stored is stored with.
module _ (w : Faults) (ws : StoreFaults) (jobdir uuid : Bytes) (d : Disk) (f : JobFile)
    (new : f.handle.oldnam ≡ []) where
  abbrev outcome : Disk × Multipart × Bool
  outcome =
      store_parts ws uuid (stored_handle w jobdir d f).oldnam
        (record d { fs = (repath w jobdir d.fs f.handle).0 }) (stored_parts f)

  pub handle_new :
      stored_handle w jobdir d f ≡ record (f.handle) { oldnam = name jobdir f.handle.path }
  unfolding is_empty
  handle_new =
      let e : is_empty f.handle.oldnam ≡ true = ap is_empty new in
      rw (repath_new w jobdir d.fs f.handle e, e)

  pub store_new_handle :
      ((store w ws jobdir uuid d f).1.handle.path ≡ f.handle.path)
      × ((store w ws jobdir uuid d f).1.handle.lockfd ≡ f.handle.lockfd)
      × ((store w ws jobdir uuid d f).1.handle.oldnam ≡ name jobdir f.handle.path)
  unfolding store
  store_new_handle = elim (Bool-cases outcome.2) [
    | inl g ↦ rw g (
      ap (λ (h : Handle). h.path) handle_new,
      ap (λ (h : Handle). h.lockfd) handle_new,
      ap (λ (h : Handle). h.oldnam) handle_new,
    )
    | inr g ↦ rw g (
      ap (λ (h : Handle). h.path) handle_new,
      ap (λ (h : Handle). h.lockfd) handle_new,
      ap (λ (h : Handle). h.oldnam) handle_new,
    )
  ]

  pub store_new_names :
      (q : Bytes)
      → name jobdir f.handle.path ≢ q
      → (store w ws jobdir uuid d f).0.fs.names q ≡ d.fs.names q
  unfolding store
  store_new_names q h =
      let e : is_empty f.handle.oldnam ≡ true = unfold is_empty in ap is_empty new in
      let same_fs : (repath w jobdir d.fs f.handle).0 ≡ d.fs =
        ap (λ (r : Fs × Handle). r.0) (repath_new w jobdir d.fs f.handle e) in
      let kept : outcome.0.fs.names q ≡ d.fs.names q =
        store_parts_names ws uuid (stored_handle w jobdir d f).oldnam q
          (record d { fs = (repath w jobdir d.fs f.handle).0 }) (stored_parts f)
          (λ k. h (sym (ap (λ (x : Handle). x.oldnam) handle_new) ∙ k))
        ∙ ap (λ (fs : Fs). fs.names q) same_fs in
      elim (Bool-cases outcome.2) [
        | inl g ↦ rw g (
            ap (λ (fs : Fs). fs.names q)
              (set_owner_fs ws (stored_handle w jobdir d f).oldnam f outcome.0)
            ∙ kept)
        | inr g ↦ rw g kept
      ]

  pub is_stored-HasText :
      is_stored (store w ws jobdir uuid d f).2 ≡ true
      → (ws.create_fails ≡ false) × (ws.written ≡ none)
  unfolding store is_stored
  is_stored-HasText h = elim (Bool-cases outcome.2) [
    | inl g ↦
        store_parts_good ws uuid (stored_handle w jobdir d f).oldnam
          (record d { fs = (repath w jobdir d.fs f.handle).0 }) (stored_parts f) g
    | inr g ↦ absurd (false≢true (sym (rw g) ∙ h))
  ]

  pub half_stored_names :
      (q : Bytes)
      → name jobdir f.handle.path ≢ q
      → (half_stored w ws jobdir d f).fs.names q ≡ d.fs.names q
  unfolding half_stored
  half_stored_names q h =
      let e : is_empty f.handle.oldnam ≡ true = unfold is_empty in ap is_empty new in
      let same_fs : (repath w jobdir d.fs f.handle).0 ≡ d.fs =
        ap (λ (r : Fs × Handle). r.0) (repath_new w jobdir d.fs f.handle e) in
      opened_names ws (stored_handle w jobdir d f).oldnam q
        (record d { fs = (repath w jobdir d.fs f.handle).0 })
        (λ k. h (sym (ap (λ (x : Handle). x.oldnam) handle_new) ∙ k))
      ∙ ap (λ (fs : Fs). fs.names q) same_fs
