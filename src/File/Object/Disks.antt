-- ===== src/File/Object/Disks.antt =====
-- src/job/file.cxx: `load` and `store`, on a disk that has the files' contents and owners besides their
-- names; src/job/multipart.cxx: `store`.
use job.File.Object.{JobFile}
use job.File.Header.{load_header, store_header}
use job.File.Moves.{Fs, Faults, Error, err_ok, err_sys, set_name, repath}
use job.File.{is_empty, name}
use job.Multipart.Load.{Multipart, Loaded, ok, err, at_section, body_tag, c_str, new_multipart}
use job.Multipart.Load
use job.Multipart.Scan.{LineError}
use job.Multipart.Print.{to_string}
use job.Multipart.Section.{Section, find_tag, set_tag, count_tag}
use job.Number.{ℤ, pos, str2int}
use job.Prelude.{
  ℕ, suc, Bool, false, not, ◌||◌, List, [], ◌∷◌, Option, none, some, Bytes, codes, ◌==◌,
  if◌then◌else◌,
}

-- The inodes have their contents and their owners' user and group; `fresh` is the next inode.
pub record Disk : Type 0 where
  pub fs : Fs
  pub content : ℕ → Bytes
  pub owner : ℕ → ℕ × ℕ
  pub fresh : ℕ

-- `(*this)[0][tag]`, which makes the entry where there is none.
unfoldable pub touch : Bytes → Section → Section
unfolding count_tag set_tag
touch tag m = if count_tag m tag then m else set_tag tag [] m

-- The entries of section 0 that `load` touches.
unfoldable pub touch_all : Section → Section
unfolding touch
touch_all m = touch body_tag (
    touch (codes "Try-Limit") (
      touch (codes "TTY-Notify") (
        touch (codes "Job-Type") (
          touch (codes "Job-PID")
            (touch (codes "Job-MID") (touch (codes "Job-MNode") (touch (codes "Command") m)))))))

unfoldable pub first_section : List Section → Section
first_section [] = []
first_section (m ∷ ms) = m

unfoldable pub last_section : List Section → Section
last_section [] = []
last_section (m ∷ []) = m
last_section (m ∷ (n ∷ ms)) = last_section (n ∷ ms)

-- `Try-Count` of the last section, if it is there.
unfoldable pub tries_of : Section → ℤ
unfolding find_tag
tries_of m = elim (find_tag m (codes "Try-Count")) [ none ↦ pos 0 | some v ↦ str2int v ]

-- `load` after the file has been read.
unfoldable pub take_values : ℕ × ℕ → Multipart → JobFile → JobFile
unfolding load_header touch_all first_section last_section tries_of at_section
take_values owner m f =
    let ss = at_section 0 touch_all m.sections in
    record f {
      handle = record (f.handle) { error = err_ok };
      header = load_header (first_section ss);
      parts = record m { sections = ss };
      try_count = tries_of (last_section ss);
      uid = owner.0;
      gid = owner.1;
    }

pub data FileLoaded : Type 0 where
  loaded : JobFile → FileLoaded
  no_file : FileLoaded
  bad_line : LineError → ℕ → FileLoaded

unfoldable pub parts_loaded : ℕ × ℕ → JobFile → Loaded → FileLoaded
unfolding take_values
parts_loaded owner f (ok m) = loaded (take_values owner m f)
parts_loaded owner f (err e n m) = bad_line e n

unfoldable pub load_inode : Disk → JobFile → Option ℕ → FileLoaded
unfolding parts_loaded
load_inode d f none = no_file
load_inode d f (some i) = parts_loaded (d.owner i) f (job.Multipart.Load.load (d.content i) f.parts)

-- `file::load`: it reads the file that has the object's name, where `fopen` finds it.
unfoldable pub load : Bytes → Disk → JobFile → FileLoaded
unfolding load_inode name
load jobdir d f0 =
    let f = record f0 { handle = record (f0.handle) { oldnam = name jobdir f0.handle.path } } in
    load_inode d f (d.fs.names f.handle.oldnam)

-- What fails in a `store` besides the move: `fopen`; `fputs`, with what it has written; `fclose`, with
-- what it has left of the text in the file; `fstat`; `chown`.
pub record StoreFaults : Type 0 where
  pub create_fails : Bool
  pub written : Option Bytes
  pub flushed : Option Bytes
  pub stat_fails : Bool
  pub chown_fails : Bool

-- `fopen(fnam, "w")`: the inode, which is a new one where the name leads to none.
unfoldable pub create_at : Bytes → Option ℕ → Disk → Disk × ℕ
unfolding set_name
create_at p (some i) d = (d, i)
create_at p none d = (
  record d {
    fs = record (d.fs) { names = set_name p (some d.fresh) d.fs.names };
    fresh = suc d.fresh;
  },
  d.fresh,
)

unfoldable pub put_at : {A : Type 0} → ℕ → A → (ℕ → A) → ℕ → A
put_at i v f j = if i == j then v else f j

-- What is on the disk when `multipart::store` has opened the file, and not yet written it.
unfoldable pub opened : StoreFaults → Bytes → Disk → Disk
unfolding create_at put_at
opened w p d =
    let (d', i) = create_at p (d.fs.names p) d in
    if w.create_fails then d else record d' { content = put_at i [] d'.content }

-- What is in the file in the end. The text waits in a buffer, and the result of `fclose`, which writes
-- it, is not looked at.
unfoldable pub in_file : Option Bytes → Bytes → Bytes
in_file none text = text
in_file (some left) text = left

unfoldable pub write_text : StoreFaults → Bytes → Disk × ℕ → Disk × Bool
unfolding put_at c_str in_file
write_text w text (d, i) = elim w.written [
  | some left ↦ (record d { content = put_at i left d.content }, false)
  | none ↦
      (record d { content = put_at i (in_file w.flushed (c_str text)) d.content }, not w.stat_fails)
]

-- `multipart::store`: the flag tells whether it returned without an error.
unfoldable pub store_parts :
    StoreFaults → Bytes → Bytes → Disk → Multipart → Disk × Multipart × Bool
unfolding create_at write_text to_string
store_parts w uuid p d m =
    let (m', text) = to_string uuid m in
    let (d', good) = write_text w text (create_at p (d.fs.names p) d) in
    if w.create_fails then (d, m, false) else (d', m', good)

pub data StoreError : Type 0 where
  stored not_written not_owned : StoreError

unfoldable pub give_to : ℕ × ℕ → Option ℕ → Disk → Disk
unfolding put_at
give_to ids none d = d
give_to ids (some i) d = record d { owner = put_at i ids d.owner }

-- `chown` of the file, where neither of the numbers is 0.
unfoldable pub set_owner : StoreFaults → Bytes → JobFile → Disk → Disk × StoreError
unfolding give_to
set_owner w p f d =
    let owned = give_to (f.uid, f.gid) (d.fs.names p) d in
    if f.uid == 0 || f.gid == 0
    then (d, stored)
    else if w.chown_fails
    then (d, not_owned)
    else (owned, stored)

unfoldable pub error_of : StoreError → Error
error_of stored = err_ok
error_of _ = err_sys

-- `file::store`. The error that `repath` returns is not looked at.
unfoldable pub store :
    Faults → StoreFaults → Bytes → Bytes → Disk → JobFile → Disk × JobFile × StoreError
unfolding repath store_header at_section is_empty name store_parts set_owner error_of
store w ws jobdir uuid d f =
    let parts = record (f.parts) {
      sections = at_section 0 (store_header f.handle.path f.header) f.parts.sections;
    } in
    let (fs', h1) = repath w jobdir d.fs f.handle in
    let h2 = if is_empty h1.oldnam then record h1 { oldnam = name jobdir h1.path } else h1 in
    let (d', parts', good) = store_parts ws uuid h2.oldnam (record d { fs = fs' }) parts in
    let f' = λ (e : Error). record f { handle = record h2 { error = e }; parts = parts' } in
    let (d'', e) = set_owner ws h2.oldnam f d' in
    if good then (d'', f' (error_of e), e) else (d', f' err_sys, not_written)
