-- ===== src/Jobman/Break.antt =====
-- `breaking_up_is_hard_to_do`, on the disk: the child jobs of a group job are made, and the group job is
-- stored as tied.
pub mod Locks
use job.File.Header.{Ties, set_tie}
use job.File.Moves.{Fs, Faults, Handle, Error, err_ok, err_sys, is_ok, unlock, repath, remove}
use job.File.Object.Disks.{Disk, StoreFaults, StoreError, stored, not_written, not_owned, store}
use job.File.Object.{JobFile, FileError, Made, made, unmade, new_file, copy, tie_to}
use job.File.{State, hold, pend, tied, done}
use job.Jobman.Slots.{Status}
use job.Number.{ℤ}
use job.Prelude.{ℕ, Bool, true, false, List, [], ◌∷◌, Option, none, some, Bytes, if◌then◌else◌}

abbrev pub in_state : State → Handle → Handle
in_state st h = record h { path = record (h.path) { state = st } }

-- `state = done; repath(); delete jf`; the destructor closes the file.
unfoldable pub give_up : Faults → Bytes → Disk → Handle → Disk
unfolding repath unlock
give_up w jobdir d h =
    let (fs, h') = repath w jobdir d.fs (in_state done h) in record d { fs = (unlock fs h').0 }

-- What the calls for one child answer: the number from `seqnum`, if there is one; and the calls in
-- `store`, `repath` and `remove`. `me` tells the child's object from others.
pub record KidCalls : Type 0 where
  pub me : ℕ
  pub number : Option ℕ
  pub in_store : Faults
  pub in_text : StoreFaults
  pub in_repath : Faults
  pub in_remove : Faults
  pub uuid : Bytes

-- The object of a child, which has a new number, for the group job and a station.
unfoldable pub kid_of : JobFile → Bytes → JobFile → JobFile
unfolding copy tie_to
kid_of jf station k =
    let c = copy k jf in
    tie_to (station ∷ []) (record c {
      handle = in_state hold c.handle;
      header = record (c.header) { mid = jf.handle.path.attrs.id; mnode = [] };
      uid = jf.uid;
      gid = jf.gid;
    })

-- What is left of a child, whose object is deleted: the disk, and whether it is pending.
unfoldable pub kid_ended : KidCalls → Disk → Fs → Handle → Disk × Bool
unfolding remove unlock is_ok
kid_ended w d fs h =
    let (fs', h') = remove w.in_remove fs h in
    if is_ok h.error
    then (record d { fs = (unlock fs h).0 }, true)
    else (record d { fs = (unlock fs' h').0 }, false)

unfoldable pub kid_stored : KidCalls → Bytes → Disk → JobFile → StoreError → Disk × Bool
unfolding kid_ended repath
kid_stored w jobdir d f stored =
    let (fs, h) = repath w.in_repath jobdir d.fs (in_state pend f.handle) in kid_ended w d fs h
kid_stored w jobdir d f not_written = kid_ended w d d.fs f.handle
kid_stored w jobdir d f not_owned = kid_ended w d d.fs f.handle

unfoldable pub kid_made : KidCalls → Bytes → Disk → JobFile → Bytes → Ties → Made → Disk × Ties
unfolding kid_of kid_stored store set_tie
kid_made w jobdir d jf station ts (unmade e) = (d, ts)
kid_made w jobdir d jf station ts (made k) =
    let (d', f, e) = store w.in_store w.in_text jobdir w.uuid d (kid_of jf station k) in
    let (d'', pending) = kid_stored w jobdir d' f e in
    (d'', if pending then set_tie station k.handle.path.attrs.id ts else ts)

-- The loop over the ties: `ts` are those that it sets. Each takes the calls of one child.
unfoldable pub kids : ℤ → Bytes → JobFile → Ties → List KidCalls → Disk → Ties → Disk × Ties
unfolding kid_made new_file
kids zone jobdir jf [] ws d ts = (d, ts)
kids zone jobdir jf (t ∷ rest) [] d ts = (d, ts)
kids zone jobdir jf ((station, id) ∷ rest) (w ∷ ws) d ts =
    let (d', ts') = kid_made w jobdir d jf station ts (new_file w.me w.number zone) in
    kids zone jobdir jf rest ws d' ts'

-- What the calls for the group job itself answer.
pub record GroupCalls : Type 0 where
  pub in_store : Faults
  pub in_text : StoreFaults
  pub in_done : Faults
  pub uuid : Bytes
  pub zone : ℤ
  pub kid_calls : List KidCalls

unfoldable pub group_stored : GroupCalls → Bytes → Disk → Handle → StoreError → Disk × Status
unfolding unlock give_up
group_stored w jobdir d h stored = (record d { fs = (unlock d.fs h).0 }, Status.err_ok)
group_stored w jobdir d h not_written = (give_up w.in_done jobdir d h, Status.err_abort)
group_stored w jobdir d h not_owned = (give_up w.in_done jobdir d h, Status.err_abort)

unfoldable pub break_up : GroupCalls → Bytes → Disk → JobFile → Disk × Status
unfolding kids store group_stored
break_up w jobdir d jf =
    let ties = jf.header.ties in
    let (d', ts) = kids w.zone jobdir jf ties w.kid_calls d ties in
    let f = record jf {
      handle = in_state tied jf.handle;
      header = record (jf.header) { ties = ts };
      parts = record (jf.parts) { closed = true };
    } in
    let (d'', f', e) = store w.in_store w.in_text jobdir w.uuid d' f in
    group_stored w jobdir d'' f'.handle e
