-- ===== src/File/Object/Stored.antt =====
-- What `store` leaves on the disk.
use job.File.Header.{store_header}
use job.File.Moves.{Faults, Handle, Fs, err_ok, repath, set_name}
use job.File.Moves.Renamed.{HoldsIts, no_file, in_place, refused, renamed, repath-Repathed}
use job.File.Object.Disks.{
  Disk, StoreFaults, stored, store, store_parts, set_owner, give_to, create_at, put_at, write_text,
  in_file, error_of,
}
use job.File.Object.{JobFile}
use job.File.{is_empty, name}
use job.Multipart.Load.{Multipart, at_section, c_str}
use job.Multipart.Print.{to_string}
use mathlib.Core.Bool.{false≢true}
use job.Prelude.{
  ℕ, true, false, ◌||◌, Option, none, some, Bytes, str_eq_refl, ◌==◌, if◌then◌else◌, ◌≡◌, ◌≢◌,
  subst, refl, ap, sym, ◌∙◌, arith, Bool-cases, inl, inr,
}

-- The object that `store` prints.
abbrev pub stored_parts : JobFile → Multipart
stored_parts f = record (f.parts) {
  sections = at_section 0 (store_header f.handle.path f.header) f.parts.sections;
}

-- The handle after the move, with the name that the file is written to.
abbrev pub stored_handle : Faults → Bytes → Disk → JobFile → Handle
stored_handle w jobdir d f =
    let h = (repath w jobdir d.fs f.handle).1 in
    if is_empty h.oldnam then record h { oldnam = name jobdir h.path } else h

-- A file with that text stands at the path.
pub record HasText (p text : Bytes) (d : Disk) : Type 0 where
  pub inode : ℕ
  pub named : d.fs.names p ≡ some inode
  pub content_is : d.content inode ≡ text

put_at_same : {A : Type 0} (i : ℕ) (v : A) (f : ℕ → A) → put_at i v f i ≡ v
unfolding put_at
put_at_same i v f = (let s : (i == i) ≡ true = ground arith in rw s)

create_at-names :
    (p : Bytes) (o : Option ℕ) (d : Disk)
    → d.fs.names p ≡ o
    → (create_at p o d).0.fs.names p ≡ some (create_at p o d).1
unfolding create_at set_name
create_at-names p (some i) d e = e
create_at-names p none d e = rw (str_eq_refl p)

pub in_file_whole : (o : Option Bytes) (text : Bytes) → o ≡ none → in_file o text ≡ text
unfolding in_file
in_file_whole none text e = refl
in_file_whole (some left) text e = (let bad : none ≡ some left = sym e in cc)

-- `multipart::store` whose writing succeeds.
store_parts-HasText :
    (ws : StoreFaults) (uuid p : Bytes) (d : Disk) (m : Multipart)
    → ws.create_fails ≡ false
    → ws.written ≡ none
    → HasText p (in_file ws.flushed (c_str (to_string uuid m).1)) (store_parts ws uuid p d m).0
unfolding store_parts write_text
store_parts-HasText ws uuid p d m c w =
    rw (c, w)
      (record {
        inode = (create_at p (d.fs.names p) d).1;
        named = create_at-names p (d.fs.names p) d refl;
        content_is =
            put_at_same (create_at p (d.fs.names p) d).1
              (in_file ws.flushed (c_str (to_string uuid m).1))
              (create_at p (d.fs.names p) d).0.content;
      })

give_to-HasText :
    (ids : ℕ × ℕ) (o : Option ℕ) (p text : Bytes) (d : Disk)
    → HasText p text d
    → HasText p text (give_to ids o d)
unfolding give_to
give_to-HasText ids none p text d h = h
give_to-HasText ids (some i) p text d h = record {
  inode = h.inode;
  named = h.named;
  content_is = h.content_is;
}

set_owner-HasText :
    (ws : StoreFaults) (q : Bytes) (f : JobFile) (p text : Bytes) (d : Disk)
    → HasText p text d
    → HasText p text (set_owner ws q f d).0
unfolding set_owner
set_owner-HasText ws q f p text d h = elim (Bool-cases (f.uid == 0 || f.gid == 0)) [
  | inl e ↦ rw e h
  | inr e ↦ elim (Bool-cases ws.chown_fails) [
    | inl c ↦ rw (e, c) h
    | inr c ↦ rw (e, c) (give_to-HasText (f.uid, f.gid) (d.fs.names q) p text d h)
  ]
]

-- Unless the file cannot be created or written, `store` leaves the text of the object, or what `fclose`
-- has left of it, in a file that has the name that the object knows.
pub store-HasText :
    (w : Faults) (ws : StoreFaults) (jobdir uuid : Bytes) (d : Disk) (f : JobFile)
    → ws.create_fails ≡ false
    → ws.written ≡ none
    → HasText
        (store w ws jobdir uuid d f).1.handle.oldnam
        (in_file ws.flushed (c_str (to_string uuid (stored_parts f)).1))
        (store w ws jobdir uuid d f).0
unfolding store
store-HasText w ws jobdir uuid d f c e =
    let p = (stored_handle w jobdir d f).oldnam in
    let d0 = record d { fs = (repath w jobdir d.fs f.handle).0 } in
    let h = store_parts-HasText ws uuid p d0 (stored_parts f) c e in
    elim (Bool-cases (store_parts ws uuid p d0 (stored_parts f)).2) [
      | inl g ↦ rw g (
          set_owner-HasText ws p f p
            (in_file ws.flushed (c_str (to_string uuid (stored_parts f)).1))
            (store_parts ws uuid p d0 (stored_parts f)).0 h)
      | inr g ↦ rw g h
    ]

set_owner_good :
    (ws : StoreFaults) (p : Bytes) (f : JobFile) (d : Disk)
    → ws.chown_fails ≡ false
    → (set_owner ws p f d).1 ≡ stored
unfolding set_owner
set_owner_good ws p f d o = elim (Bool-cases (f.uid == 0 || f.gid == 0)) [
  | inl e ↦ rw e
  | inr e ↦ rw (e, o)
]

-- A `store` in which nothing but the move fails.
pub store_good :
    (w : Faults) (ws : StoreFaults) (jobdir uuid : Bytes) (d : Disk) (f : JobFile)
    → ws.create_fails ≡ false
    → ws.written ≡ none
    → ws.stat_fails ≡ false
    → ws.chown_fails ≡ false
    → ((store w ws jobdir uuid d f).2 ≡ stored)
      × ((store w ws jobdir uuid d f).1.handle.error ≡ err_ok)
      × ((store w ws jobdir uuid d f).1.handle.oldnam ≡ (stored_handle w jobdir d f).oldnam)
unfolding store store_parts write_text error_of
store_good w ws jobdir uuid d f c e s o = rw (c, e, s, set_owner_good ws) (refl, refl, refl)

refused_oldnam :
    (w : Faults) (jobdir : Bytes) (fs : Fs) (h : Handle)
    → HoldsIts fs h
    → is_empty h.oldnam ≡ false
    → (repath w jobdir fs h).1.error ≢ err_ok
    → (repath w jobdir fs h).1.oldnam ≡ h.oldnam
refused_oldnam w jobdir fs h v named bad = elim (repath-Repathed w jobdir fs h v) [
  | no_file e r ↦ absurd (false≢true (sym named ∙ e))
  | in_place e r ↦ absurd (bad (ap (λ (x : Fs × Handle). x.1.error) r))
  | refused k n o ↦ o
  | renamed i n e o m l ↦ absurd (bad e)
]

-- `store` of a job whose file cannot be moved to its new name, as when somebody else has it locked,
-- reports no error, if nothing else fails: it writes the job over the file that has the old name.
pub store_unmoved :
    (w : Faults) (ws : StoreFaults) (jobdir uuid : Bytes) (d : Disk) (f : JobFile)
    → HoldsIts d.fs f.handle
    → is_empty f.handle.oldnam ≡ false
    → (repath w jobdir d.fs f.handle).1.error ≢ err_ok
    → ws.create_fails ≡ false
    → ws.written ≡ none
    → ws.flushed ≡ none
    → ws.stat_fails ≡ false
    → ws.chown_fails ≡ false
    → ((store w ws jobdir uuid d f).2 ≡ stored)
      × ((store w ws jobdir uuid d f).1.handle.error ≡ err_ok)
      × HasText f.handle.oldnam
          (c_str (to_string uuid (stored_parts f)).1)
          (store w ws jobdir uuid d f).0
store_unmoved w ws jobdir uuid d f v named bad c e l s o =
    let kept = refused_oldnam w jobdir d.fs f.handle v named bad in
    let text = c_str (to_string uuid (stored_parts f)).1 in
    let there =
      subst
        (λ t. HasText (store w ws jobdir uuid d f).1.handle.oldnam t (store w ws jobdir uuid d f).0)
        (in_file_whole ws.flushed text l) (store-HasText w ws jobdir uuid d f c e) in
    let (good, no_error, handle_is) = store_good w ws jobdir uuid d f c e s o in
    let name_is : (stored_handle w jobdir d f).oldnam ≡ f.handle.oldnam =
      rw (ap is_empty kept ∙ named) kept in
    (
      good,
      no_error,
      subst
          (λ p.
            HasText p (c_str (to_string uuid (stored_parts f)).1) (store w ws jobdir uuid d f).0)
          (handle_is ∙ name_is) there,
    )
