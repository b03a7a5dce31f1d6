-- ===== src/Jobman/Break/Locks.antt =====
-- The locks after a group job has been broken up.
use job.File.Header.{Ties}
use job.File.Moves.{Fs, Faults, Handle, is_ok, repath, remove}
use job.File.Moves.Others.{IsFewer, unlock-IsFewer, repath-IsFewer, remove-IsFewer}
use job.File.Moves.Owner.{OwnsIts, Free, unlock-Free, repath-OwnsIts}
use job.File.Object.Disks.{Disk, StoreError, stored, not_written, not_owned, store}
use job.File.Object.Locks.{store-OwnsIts, store-IsFewer}
use job.File.Object.{JobFile, FileError, Made, made, unmade, new_file, made_with, copy, tie_to}
use job.File.{pend, tied, done}
use job.Jobman.Break.{
  in_state, give_up, KidCalls, kid_of, kid_ended, kid_stored, kid_made, kids, GroupCalls,
  group_stored, break_up,
}
use job.Number.{ℤ}
use job.Prelude.{ℕ, true, List, [], ◌∷◌, Bytes, ◌≢◌, ◌⊎◌, inl, inr, Bool-cases}

-- The objects of the children are others than `me`.
abbrev pub AllOthers : ℕ → List KidCalls → Type 0
AllOthers me [] = Unit
AllOthers me (w ∷ ws) = (w.me ≢ me) × AllOthers me ws

abbrev IsOther : ℕ → Made → Type 0
IsOther me (made k) = k.handle.me ≢ me
IsOther me (unmade e) = Unit

module _ (me : ℕ) (jobdir : Bytes) where
  kid_ended-IsFewer :
      (w : KidCalls) (d : Disk) (fs : Fs) (h : Handle)
      → h.me ≢ me
      → IsFewer me (kid_ended w d fs h).0.fs fs
  unfolding kid_ended
  kid_ended-IsFewer w d fs h n =
      let (fs', h') = remove w.in_remove fs h in
      let (a, m) = remove-IsFewer me w.in_remove fs h n in
      elim (Bool-cases (is_ok h.error)) [
        | inl e ↦ rw e (unlock-IsFewer me fs h n).0
        | inr e ↦ rw e (λ i l. a i ((unlock-IsFewer me fs' h' m).0 i l))
      ]

  kid_stored-IsFewer :
      (w : KidCalls) (d : Disk) (f : JobFile) (e : StoreError)
      → f.handle.me ≢ me
      → IsFewer me (kid_stored w jobdir d f e).0.fs d.fs
  unfolding kid_stored
  kid_stored-IsFewer w d f stored n =
      let (fs, h) = repath w.in_repath jobdir d.fs (in_state pend f.handle) in
      let (a, m) = repath-IsFewer me w.in_repath jobdir d.fs (in_state pend f.handle) n in
      λ i l. a i (kid_ended-IsFewer w d fs h m i l)
  kid_stored-IsFewer w d f not_written n = kid_ended-IsFewer w d d.fs f.handle n
  kid_stored-IsFewer w d f not_owned n = kid_ended-IsFewer w d d.fs f.handle n

  kid_made-IsFewer :
      (w : KidCalls) (d : Disk) (jf : JobFile) (station : Bytes) (ts : Ties) (k : Made)
      → IsOther me k
      → IsFewer me (kid_made w jobdir d jf station ts k).0.fs d.fs
  unfolding kid_made kid_of copy tie_to
  kid_made-IsFewer w d jf station ts (unmade e) n = λ i l. l
  kid_made-IsFewer w d jf station ts (made k) n =
      let (d', f, e) = store w.in_store w.in_text jobdir w.uuid d (kid_of jf station k) in
      let (a, m) = store-IsFewer w.in_store w.in_text jobdir w.uuid d (kid_of jf station k) me n in
      λ i l. a i (kid_stored-IsFewer w d' f e m i l)

  made_with-IsOther : (k : ℕ) (r : ℕ ⊎ FileError) → k ≢ me → IsOther me (made_with k r)
  unfolding made_with
  made_with-IsOther k (inl id) n = n
  made_with-IsOther k (inr e) n = tt

  kids-IsFewer :
      (zone : ℤ) (jf : JobFile) (ties : Ties) (ws : List KidCalls) (d : Disk) (ts : Ties)
      → AllOthers me ws
      → IsFewer me (kids zone jobdir jf ties ws d ts).0.fs d.fs
  unfolding kids new_file
  kids-IsFewer zone jf [] ws d ts n = λ i l. l
  kids-IsFewer zone jf (t ∷ rest) [] d ts n = λ i l. l
  kids-IsFewer zone jf ((station, id) ∷ rest) (w ∷ ws) d ts (n, ns) =
      let k = new_file w.me w.number zone in
      let (d', ts') = kid_made w jobdir d jf station ts k in
      λ i l.
        kid_made-IsFewer w d jf station ts k (made_with-IsOther w.me _ n) i
          (kids-IsFewer zone jf rest ws d' ts' ns i l)

  pub give_up-Free :
      (w : Faults) (d : Disk) (h : Handle)
      → OwnsIts me (d.fs, h)
      → Free me (give_up w jobdir d h).fs
  unfolding give_up
  give_up-Free w d h v =
      let (fs, g) = repath w jobdir d.fs (in_state done h) in
      (unlock-Free me fs g (
        repath-OwnsIts w me jobdir d.fs (in_state done h)
          (record { me_is = v.me_is; own = v.own }))).0

  group_stored-Free :
      (w : GroupCalls) (d : Disk) (h : Handle) (e : StoreError)
      → OwnsIts me (d.fs, h)
      → Free me (group_stored w jobdir d h e).0.fs
  unfolding group_stored
  group_stored-Free w d h stored v = (unlock-Free me d.fs h v).0
  group_stored-Free w d h not_written v = give_up-Free w.in_done d h v
  group_stored-Free w d h not_owned v = give_up-Free w.in_done d h v

  -- The group job is not left locked, whatever becomes of its children.
  pub break_up-Free :
      (w : GroupCalls) (d : Disk) (jf : JobFile)
      → AllOthers me w.kid_calls
      → OwnsIts me (d.fs, jf.handle)
      → Free me (break_up w jobdir d jf).0.fs
  unfolding break_up
  break_up-Free w d jf others v =
      let ties = jf.header.ties in
      let (d', ts) = kids w.zone jobdir jf ties w.kid_calls d ties in
      let f = record jf {
        handle = in_state tied jf.handle;
        header = record (jf.header) { ties = ts };
        parts = record (jf.parts) { closed = true };
      } in
      let (d'', f', e) = store w.in_store w.in_text jobdir w.uuid d' f in
      group_stored-Free w d'' f'.handle e (
        store-OwnsIts w.in_store w.in_text jobdir w.uuid d' f me (record {
          me_is = v.me_is;
          own = λ i l. v.own i (kids-IsFewer w.zone jf ties w.kid_calls d ties others i l);
        }))
