-- ===== src/File/Header.antt =====
-- src/job/file.cxx: the header section of a job file, as `store` writes it and `load` reads it.
pub mod Arguments
pub mod Ties
pub mod RoundTrip
use job.File.{State, run, state2str, PathAttrs}
use job.Multipart.Load.{body_tag}
use job.Multipart.Section.{Section, set_tag, find_tag, count_tag}
use job.Number.{ℤ, pos, negsuc, int2str, print_int, str2int, str2boo, yn2str}
use job.Prelude.{
  ℕ, zero, suc, ◌+◌, ◌-◌, ◌^◌, Bool, true, false, not, List, [], ◌∷◌, ◌++◌, Option, none, some,
  Bytes, codes, ◌==◌, if◌then◌else◌, str_eq, length,
}
use job.Text.Split.{split}

-- `ties_t`: the child jobs by the station that they are for.
abbrev pub Ties : Type 0
Ties = List (Bytes × ℕ)

-- What the header of section 0 and its body hold of a `job::file`.
pub record Header : Type 0 where
  pub command : Bytes
  pub mid : ℕ
  pub mnode : Bytes
  pub pid : ℤ
  pub type : Bytes
  pub notify : Bool
  pub try_limit : ℤ
  pub args : List Bytes
  pub ties : Ties

-- The conversion of an `int` to `job::id_t`.
unfoldable pub int_to_id : ℤ → ℕ
int_to_id (pos n) = n
int_to_id (negsuc n) = 2 ^ 64 - 1 - n

unfoldable pub arg_tag : ℕ → Bytes
arg_tag a = codes "Job-Arg-" ++ int2str a

-- The loop over `args`; `a` is `i+1`.
unfoldable pub store_args : ℕ → List Bytes → Section → Section
unfolding arg_tag
store_args a [] m = m
store_args a (x ∷ xs) m = store_args (suc a) xs (set_tag (arg_tag a) x m)

unfoldable pub tie_line : Bytes → ℕ → Bytes
tie_line node id = codes "tie" ++ (b' ' ∷ (node ++ (b' ' ∷ int2str id)))

-- The body of section 0.
unfoldable pub tie_lines : Ties → Bytes
unfolding tie_line
tie_lines [] = []
tie_lines ((node, id) ∷ ts) = tie_line node id ++ b'\n' ∷ tie_lines ts

unfoldable pub is_run : State → Bool
is_run run = true
is_run _ = false

-- `store`, up to the writing of the file, on section 0.
unfoldable pub store_header : PathAttrs → Header → Section → Section
unfolding store_args tie_lines is_run
store_header f h m0 =
    let m1 = set_tag (codes "job-id") (int2str f.attrs.id) m0 in
    let m2 = set_tag (codes "job-state") (state2str f.state) m1 in
    let m3 = set_tag (codes "job-queue") f.queue m2 in
    let m4 = set_tag (codes "job-prio") (print_int f.attrs.priority) m3 in
    let m5 = set_tag (codes "Command") h.command m4 in
    let m6 = set_tag (codes "Job-MID") (int2str h.mid) m5 in
    let m7 = set_tag (codes "Job-MNode") h.mnode m6 in
    let m8 = set_tag (codes "Job-PID") (if is_run f.state then print_int h.pid else codes "0") m7 in
    let m9 = set_tag (codes "Job-Type") h.type m8 in
    let m10 = set_tag (codes "TTY-Notify") (yn2str h.notify) m9 in
    let m11 = set_tag (codes "Try-Limit") (print_int h.try_limit) m10 in
    set_tag body_tag (tie_lines h.ties) (store_args 1 h.args m11)

-- `(*this)[0][tag]`, which is empty where there is no such tag.
unfoldable pub get_tag : Section → Bytes → Bytes
get_tag m tag = elim (find_tag m tag) [ none ↦ [] | some v ↦ v ]

-- A round of the loop below: no tag ends it.
unfoldable pub next_arg : Option Bytes → List Bytes → List Bytes
next_arg none rest = []
next_arg (some v) rest = v ∷ rest

-- The loop that builds `args`. Each round finds another tag of the section, so that their number and
-- one more is fuel enough.
unfoldable pub load_args : ℕ → ℕ → Section → List Bytes
unfolding arg_tag next_arg
load_args zero a m = []
load_args (suc fuel) a m = next_arg (find_tag m (arg_tag a)) (load_args fuel (suc a) m)

unfoldable pub is_nil : Bytes → Bool
is_nil [] = true
is_nil (c ∷ cs) = false

-- `strtok(body, "\n")`, call by call: the lines that are not empty. `line` is the one begun.
unfoldable pub strtok_lines : Bytes → Bytes → List Bytes
unfolding is_nil
strtok_lines line [] = if is_nil line then [] else line ∷ []
strtok_lines line (c ∷ cs) =
    let more = strtok_lines (line ++ c ∷ []) cs in
    let next = strtok_lines [] cs in
    if c == b'\n' then (if is_nil line then next else line ∷ next) else more

-- `ties[node] = id`; the map's order is not kept.
unfoldable pub set_tie : Bytes → ℕ → Ties → Ties
set_tie node id [] = (node, id) ∷ []
set_tie node id ((k, v) ∷ ts) =
    let rest = set_tie node id ts in if str_eq k node then (k, id) ∷ ts else (k, v) ∷ rest

-- A line of the body, which counts if it has three parts, of which the first is `tie`.
unfoldable pub add_tie : List Bytes → Ties → Ties
unfolding set_tie int_to_id
add_tie (word ∷ (node ∷ (id ∷ []))) ts =
    if str_eq word (codes "tie") then set_tie node (int_to_id (str2int id)) ts else ts
add_tie _ ts = ts

unfoldable pub add_ties : List Bytes → Ties → Ties
unfolding add_tie
add_ties [] ts = ts
add_ties (line ∷ lines) ts = add_ties lines (add_tie (split line (codes " ") 0) ts)

-- `load`, after the file has been read, on section 0.
unfoldable pub load_header : Section → Header
unfolding get_tag load_args strtok_lines add_ties int_to_id
load_header m = record {
  command = get_tag m (codes "Command");
  mid = int_to_id (str2int (get_tag m (codes "Job-MID")));
  mnode = get_tag m (codes "Job-MNode");
  pid = str2int (get_tag m (codes "Job-PID"));
  type = get_tag m (codes "Job-Type");
  notify = str2boo (get_tag m (codes "TTY-Notify"));
  try_limit = str2int (get_tag m (codes "Try-Limit"));
  args = load_args (suc (length m)) 1 m;
  ties = add_ties (strtok_lines [] (get_tag m body_tag)) [];
}
