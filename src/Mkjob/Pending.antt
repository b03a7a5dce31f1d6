-- ===== src/Mkjob/Pending.antt =====
-- What job managers can see of a job while `mkjob` submits it.
use job.File.Moves.Renamed.{HoldsIts, no_file, in_place, refused, renamed, repath-Repathed}
use job.File.Moves.{Fs, Faults, Handle, set_name, repath, is_ok}
use job.File.Object.Disks.{Disk, store}
use job.File.Object.Stored.{HasText, stored_parts, in_file_whole, store-HasText}
use job.File.Object.{JobFile}
use job.File.{name, PathAttrs, pend}
use job.Mkjob.Storing.{
  set_name_other, remove-NoMore, store_new_handle, store_new_names, half_stored_names,
  is_stored-HasText,
}
use job.Mkjob.Submit.{SubmitFaults, is_stored, in_pend, move_job, half_stored, submit}
use job.Multipart.Load.{c_str}
use job.Multipart.Print.{to_string}
use job.Prelude.{
  ℕ, List, [], ◌∷◌, Option, none, some, Bytes, str_eq_refl, ◌≡◌, ◌≢◌, ap, subst, sym, ◌∙◌,
  Bool-cases, inl, inr,
}

-- Whatever file has the name `p`, it has the whole text.
abbrev pub IsWhole : Bytes → Bytes → Disk → Type 0
IsWhole p text d = (i : ℕ) → d.fs.names p ≡ some i → d.content i ≡ text

abbrev pub AllWhole : Bytes → Bytes → List Disk → Type 0
AllWhole p text [] = Unit
AllWhole p text (d ∷ ds) = IsWhole p text d × AllWhole p text ds

none-IsWhole : (p text : Bytes) (d : Disk) → d.fs.names p ≡ none → IsWhole p text d
none-IsWhole p text d h i e = (let bad : none ≡ some i = sym h ∙ e in cc)

pub some_injective : {i j : ℕ} → some i ≡ some j → i ≡ j
some_injective e = cc

pub set_name_own : (p : Bytes) (v : Option ℕ) (f : Bytes → Option ℕ) → set_name p v f p ≡ v
unfolding set_name
set_name_own p v f = rw (str_eq_refl p)

pub none-HoldsIts : (fs : Fs) (h : Handle) → h.lockfd ≡ none → HoldsIts fs h
none-HoldsIts fs h e =
    subst (λ o. elim o [ none ↦ Unit | some i ↦ fs.locked i ≡ some h.me ]) (sym e) tt

module _ (w : Faults) (jobdir text : Bytes) (d : Disk) (h : Handle) (open_free : HoldsIts d.fs h)
    (absent : d.fs.names (name jobdir h.path) ≡ none) (there : HasText h.oldnam text d)
    (apart : h.oldnam ≢ name jobdir h.path) where
  abbrev moved : Fs × Handle
  moved = repath w jobdir d.fs h

  unmoved : moved.0.names ≡ d.fs.names → moved.0.names (name jobdir h.path) ≡ none
  unmoved e = ap (λ (f : Bytes → Option ℕ). f (name jobdir h.path)) e ∙ absent

  the_inode : (i : ℕ) → d.fs.names h.oldnam ≡ some i → d.content i ≡ text
  the_inode i e =
      let same : there.inode ≡ i = some_injective (sym there.named ∙ e) in
      ap d.content (sym same) ∙ there.content_is

  renamed_to :
      (i : ℕ)
      → moved.0.names ≡ set_name h.oldnam none (set_name (name jobdir h.path) (some i) d.fs.names)
      → moved.0.names (name jobdir h.path) ≡ some i
  renamed_to i e =
      ap (λ (f : Bytes → Option ℕ). f (name jobdir h.path)) e
      ∙ set_name_other h.oldnam (name jobdir h.path) none
          (set_name (name jobdir h.path) (some i) d.fs.names) apart
      ∙ set_name_own (name jobdir h.path) (some i) d.fs.names

  repath-IsWhole : IsWhole (name jobdir h.path) text (record d { fs = moved.0 })
  repath-IsWhole = elim (repath-Repathed w jobdir d.fs h open_free) [
    | no_file e r ↦
        none-IsWhole (name jobdir h.path) text (record d { fs = moved.0 })
          (unmoved (ap (λ (x : Fs × Handle). x.0.names) r))
    | in_place e r ↦ absurd (apart e)
    | refused k n o ↦ none-IsWhole (name jobdir h.path) text (record d { fs = moved.0 }) (unmoved n)
    | renamed i n e o m l ↦
        λ j k. the_inode j (n ∙ ap some (some_injective (sym (renamed_to i m) ∙ k)))
  ]

module _ (w : SubmitFaults) (jobdir text : Bytes) (d : Disk) (f : JobFile)
    (open_free : HoldsIts d.fs f.handle) (absent : d.fs.names (name jobdir f.handle.path) ≡ none)
    (there : HasText f.handle.oldnam text d)
    (apart : f.handle.oldnam ≢ name jobdir f.handle.path) where
  move_job-AllWhole : AllWhole (name jobdir f.handle.path) text (move_job w jobdir d f).disks
  unfolding move_job
  move_job-AllWhole =
      let p = name jobdir f.handle.path in
      let whole = repath-IsWhole w.in_repath jobdir text d f.handle open_free absent there apart in
      let (fs2, h2) = repath w.in_repath jobdir d.fs f.handle in
      elim (Bool-cases (is_ok (repath w.in_repath jobdir d.fs f.handle).1.error)) [
        | inl e ↦ rw e (none-IsWhole p text d absent, (whole, tt))
        | inr e ↦ rw e (
          none-IsWhole p text d absent,
          (whole, ((λ i k. whole i (remove-NoMore w.in_remove fs2 h2 p i k)), tt)),
        )
      ]

-- While `mkjob` submits a job, with whatever calls failing but the `fclose` of its file, and also when
-- the file has only been opened, the file with the job's name in `pend` is at no step anything but the whole text of the job.
-- The job is a new one, nothing had that name before, and it differs from the name in `hold`.
pub submit-AllWhole :
    (w : SubmitFaults) (jobdir uuid : Bytes) (d : Disk) (f : JobFile)
    → w.in_text.flushed ≡ none
    → f.handle.oldnam ≡ []
    → f.handle.lockfd ≡ none
    → d.fs.names (name jobdir (in_pend f).handle.path) ≡ none
    → name jobdir f.handle.path ≢ name jobdir (in_pend f).handle.path
    → AllWhole
        (name jobdir (in_pend f).handle.path)
        (c_str (to_string uuid (stored_parts f)).1)
        (submit w jobdir uuid d f).disks
unfolding submit
submit-AllWhole w jobdir uuid d f whole new unlocked absent apart =
    let p = name jobdir (in_pend f).handle.path in
    let text = c_str (to_string uuid (stored_parts f)).1 in
    let (d1, f1, e) = store w.in_store w.in_text jobdir uuid d f in
    let (path_is, lock_is, name_is) = store_new_handle w.in_store w.in_text jobdir uuid d f new in
    let gone : d1.fs.names p ≡ none =
      store_new_names w.in_store w.in_text jobdir uuid d f new p apart ∙ absent in
    let half : IsWhole p text (half_stored w.in_store w.in_text jobdir d f) =
      none-IsWhole p text (half_stored w.in_store w.in_text jobdir d f)
        (half_stored_names w.in_store w.in_text jobdir uuid d f new p apart ∙ absent) in
    elim (Bool-cases (is_stored (store w.in_store w.in_text jobdir uuid d f).2)) [
      | inr s ↦ rw s (half, (none-IsWhole p text d1 gone, tt))
      | inl s ↦ rw s (
          let written = is_stored-HasText w.in_store w.in_text jobdir uuid d f new s in
          let there =
            subst (λ t. HasText f1.handle.oldnam t d1) (in_file_whole w.in_text.flushed text whole)
              (store-HasText w.in_store w.in_text jobdir uuid d f written.0 written.1) in
          let new_path = λ (q : PathAttrs). name jobdir (record q { state = pend }) in
          (
            half,
            subst (λ q. AllWhole (new_path q) text (move_job w jobdir d1 (in_pend f1)).disks)
                path_is
                (move_job-AllWhole w jobdir text d1 (in_pend f1)
                  (none-HoldsIts d1.fs (in_pend f1).handle (lock_is ∙ unlocked))
                  (ap (λ q. d1.fs.names (new_path q)) path_is ∙ gone) there
                  (λ k. apart (sym name_is ∙ k ∙ ap new_path path_is))),
          ))
    ]
