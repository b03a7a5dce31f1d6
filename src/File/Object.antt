-- ===== src/File/Object.antt =====
-- src/job/file.cxx: the whole object, with its constructors, `copy`, `tie_to` and
-- `tied_ids`.
pub mod Disks
pub mod Stored
pub mod Locks
pub mod Place
pub mod Taken
pub mod Touched
pub mod RoundTrip
use job.File.Header.{Header, Ties, load_header, store_header, int_to_id, set_tie}
use job.File.Moves.{Fs, Faults, Handle, Error, err_ok, err_sys, set_name, repath}
use job.File.{State, hold, PathAttrs, NameAttrs, Result, is_empty, name, init_from_path}
use job.Multipart.Load.{Multipart, Loaded, ok, err, at_section, body_tag, c_str, new_multipart}
use job.Multipart.Load
use job.Multipart.Scan.{LineError}
use job.Multipart.Print.{to_string}
use job.Multipart.Section.{Section, find_tag, set_tag, count_tag}
use job.Number.{ℤ, pos, negsuc, str2int}
use job.Prelude.{
  ℕ, zero, suc, ◌+◌, ◌*◌, ◌%◌, ◌^◌, Bool, true, false, not, ◌&&◌, ◌||◌, List, [], ◌∷◌, ◌++◌, Option,
  none, some, ◌⊎◌, inl, inr, Bytes, codes, ltb, ◌==◌, if◌then◌else◌, map,
}

-- `sub_time` is a time of the system and is left out, and so are `use_locks`, which nothing reads, and
-- the bytes of `error`.
pub record JobFile : Type 0 where
  pub handle : Handle
  pub header : Header
  pub parts : Multipart
  pub try_count : ℤ
  pub uid : ℕ
  pub gid : ℕ

-- `(uid_t)-1`.
abbrev pub no_one : ℕ
no_one = 4294967295

-- `JOB_ASAP`.
abbrev pub job_asap : ℤ
job_asap = pos 946684799

abbrev pub new_header : Header
new_header = record {
  command = [];
  mid = 0;
  mnode = [];
  pid = pos 0;
  type = [];
  notify = false;
  try_limit = pos 100;
  args = [];
  ties = [];
}

abbrev pub one_section : Multipart
one_section = record new_multipart { sections = [] ∷ [] }

pub data FileError : Type 0 where
  no_number bad_zone not_found : FileError

pub data Made : Type 0 where
  made : JobFile → Made
  unmade : FileError → Made

-- A new job's number: `number` is what `seqnum::next` returns, if it does without an error.
unfoldable pub new_id : Option ℕ → ℤ → ℕ ⊎ FileError
new_id none zone = inr no_number
new_id (some n) (negsuc z) = inr bad_zone
new_id (some n) (pos z) =
    if ltb 9 z then inr bad_zone else if z == 0 then inl n else inl ((n * 10 + z) % 2 ^ 64)

abbrev pub handle_of : ℕ → PathAttrs → Bytes → Handle
handle_of me p oldnam = record { me = me; path = p; oldnam = oldnam; lockfd = none; error = err_ok }

abbrev pub new_path : ℕ → PathAttrs
new_path id = record {
  queue = codes "batch";
  state = hold;
  attrs = record { run_time = job_asap; priority = pos 5; id = id; submitter = [] };
}

unfoldable pub made_with : ℕ → ℕ ⊎ FileError → Made
made_with me (inr e) = unmade e
made_with me (inl id) = made (record {
  handle = handle_of me (new_path id) [];
  header = new_header;
  parts = one_section;
  try_count = pos 0;
  uid = no_one;
  gid = no_one;
})

-- `file()`.
unfoldable pub new_file : ℕ → Option ℕ → ℤ → Made
unfolding new_id made_with
new_file me number zone = made_with me (new_id number zone)

-- `file(filepath)`. The path that is not read leaves an error, which the object has to be asked for.
unfoldable pub file_at : ℕ → Bytes → Result JobFile
file_at me filepath = elim (init_from_path filepath) [
  | Result.err e ↦ Result.err e
  | Result.ok p ↦ Result.ok (record {
    handle = handle_of me p filepath;
    header = new_header;
    parts = one_section;
    try_count = pos 0;
    uid = no_one;
    gid = no_one;
  })
]

-- `copy`.
unfoldable pub copy : JobFile → JobFile → JobFile
copy f jf =
    let p = record (f.handle.path) {
      queue = jf.handle.path.queue;
      attrs = record (f.handle.path.attrs) {
        priority = jf.handle.path.attrs.priority;
        run_time = jf.handle.path.attrs.run_time;
        submitter = jf.handle.path.attrs.submitter;
      };
    } in
    record f {
      handle = record (f.handle) { path = p; error = err_ok };
      header = record (f.header) {
        args = jf.header.args;
        command = jf.header.command;
        notify = jf.header.notify;
        try_limit = jf.header.try_limit;
        type = jf.header.type;
      };
      uid = jf.uid;
      gid = jf.gid;
    }

-- `tie_to` of some stations, on the ties.
unfoldable pub tie_all : List Bytes → Ties → Ties
unfolding set_tie
tie_all [] ts = ts
tie_all (node ∷ nodes) ts = tie_all nodes (set_tie node 0 ts)

unfoldable pub tie_to : List Bytes → JobFile → JobFile
unfolding tie_all
tie_to nodes f = record f { header = record (f.header) { ties = tie_all nodes [] } }

unfoldable pub tied_ids : JobFile → List ℕ
tied_ids f = map (λ (t : Bytes × ℕ). t.1) f.header.ties
