-- ===== src/Mkjob/Submit.antt =====
-- src/mkjob.cxx: `main` from the job that is asked for on: the job is made, stored and moved.
use job.Mkjob.{Request, Values, Checked, good, quit, no_file, or_default}
use job.Config.{Config, geti}
use job.File.Moves.{Faults, remove, repath, is_ok}
use job.File.Object.Disks.{Disk, StoreFaults, StoreError, stored, store, opened}
use job.File.Object.{JobFile, made, unmade, new_file, tie_to}
use job.File.{hold, pend, is_empty, name}
use job.Number.{pos}
use job.Prelude.{
  ℕ, Bool, true, false, List, [], ◌∷◌, Option, none, some, Bytes, codes, if◌then◌else◌,
}
use job.Text.Split.{split}

-- The assignments to the new job.
unfoldable pub fill : Request → Values → JobFile → JobFile
unfolding or_default
fill r v jf = record jf {
  handle = record (jf.handle) {
    path = record {
      queue = v.queue;
      state = hold;
      attrs = record {
        run_time = v.run_time;
        priority = v.priority;
        id = jf.handle.path.attrs.id;
        submitter = v.submitter;
      };
    };
  };
  header = record (jf.header) {
    try_limit = v.try_limit;
    command = v.command;
    type = or_default r.type [];
    args = v.args;
    notify = r.notify;
  };
  parts = record (jf.parts) { closed = true };
  uid = r.uid;
  gid = r.gid;
}

-- `--group`.
unfoldable pub tie_group : Option Bytes → JobFile → JobFile
unfolding tie_to
tie_group none jf = jf
tie_group (some g) jf = tie_to (split g (codes ",") 0) jf

-- The job that is to be stored. `me` tells the object from others.
unfoldable pub new_job : ℕ → Option ℕ → Config → Request → Values → Checked JobFile
unfolding new_file fill tie_group geti
new_job me number cfg r v =
    elim (new_file me number (geti cfg (codes "job") (codes "zone") (pos 0))) [
      | unmade e ↦ quit (no_file e)
      | made jf ↦ good (tie_group r.group (fill r v jf))
    ]

-- How it ends: `not_moved` tells whether the file could be removed.
pub data End : Type 0 where
  died : StoreError → End
  not_moved : Bool → End
  submitted : End

-- The disk after each step, and the object.
pub record Run : Type 0 where
  pub disks : List Disk
  pub end : End
  pub job : JobFile

unfoldable pub is_stored : StoreError → Bool
is_stored stored = true
is_stored _ = false

abbrev pub in_pend : JobFile → JobFile
in_pend f = record f {
  handle = record (f.handle) { path = record (f.handle.path) { state = pend } };
}

-- What fails in each step.
pub record SubmitFaults : Type 0 where
  pub in_store : Faults
  pub in_text : StoreFaults
  pub in_repath : Faults
  pub in_remove : Faults

-- From the move to the end.
unfoldable pub move_job : SubmitFaults → Bytes → Disk → JobFile → Run
unfolding repath remove is_ok
move_job w jobdir d1 f =
    let (fs2, h2) = repath w.in_repath jobdir d1.fs f.handle in
    let (fs3, h3) = remove w.in_remove fs2 h2 in
    let d2 = record d1 { fs = fs2 } in
    if is_ok h2.error
    then record { disks = d1 ∷ (d2 ∷ []); end = submitted; job = record f { handle = h2 } }
    else record {
      disks = d1 ∷ (d2 ∷ (record d1 { fs = fs3 } ∷ []));
      end = not_moved (is_ok h3.error);
      job = record f { handle = h3 };
    }

-- The disk while the job is being stored: its file is there, and empty.
unfoldable pub half_stored : Faults → StoreFaults → Bytes → Disk → JobFile → Disk
unfolding repath is_empty name opened
half_stored w ws jobdir d f =
    let (fs', h1) = repath w jobdir d.fs f.handle in
    opened ws (if is_empty h1.oldnam then record h1 { oldnam = name jobdir h1.path } else h1).oldnam
      (record d { fs = fs' })

abbrev pub with_disk : Disk → Run → Run
with_disk d r = record r { disks = d ∷ r.disks }

-- From the job on: it is stored in `hold`, and then moved into `pend`.
unfoldable pub submit : SubmitFaults → Bytes → Bytes → Disk → JobFile → Run
unfolding store half_stored is_stored move_job
submit w jobdir uuid d f =
    let (d1, f1, e) = store w.in_store w.in_text jobdir uuid d f in
    with_disk (half_stored w.in_store w.in_text jobdir d f) (
      if is_stored e
      then move_job w jobdir d1 (in_pend f1)
      else record { disks = d1 ∷ []; end = died e; job = f1 })
