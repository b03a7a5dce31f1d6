-- ===== src/File/Header/RoundTrip.antt =====
-- `load_header` reads what `store_header` writes.
use job.File.Header.Arguments.{
  HasNoArgs, load_args-store_args, load_args_same, find-store_args, length-store_args,
  length-set_tag,
}
use job.File.Header.Ties.{AreTies, AreDistinct, add_ties-tie_lines, id_read}
use job.File.Header.Arguments.{int2str_small}
use job.File.Header.{
  Header, store_header, load_header, get_tag, is_run, arg_tag, load_args, store_args, tie_lines,
}
use job.File.{PathAttrs, state2str}
use job.Multipart.Load.{body_tag}
use job.Multipart.Section.{Section, set_tag, find_tag, same_key, caseless, find_tag-set_tag}
use job.Number.Decimal.{str2int-print_int, str2boo-print}
use job.Number.{ℤ, pos, siz2str, print_int, str2int, int2str, yn2str}
use job.Prelude.{
  ℕ, suc, ◌+◌, ◌<◌, ◌≤◌, ◌^◌, Bool, true, false, List, [], ◌∷◌, Option, some, Bytes, codes,
  if◌then◌else◌, length, ◌≡◌, refl, ap, ◌∙◌, arith, to_lower,
}

-- A row of writes, and what they make of the value of the tag `j`.
abbrev pub sets : List (Bytes × Bytes) → Section → Section
sets [] m = m
sets ((t, v) ∷ kvs) m = sets kvs (set_tag t v m)

abbrev last_value : List (Bytes × Bytes) → Bytes → Option Bytes → Option Bytes
last_value [] j o = o
last_value ((t, v) ∷ kvs) j o = last_value kvs j (if same_key t j then some v else o)

find-sets :
    (kvs : List (Bytes × Bytes)) (m : Section) (j : Bytes)
    → find_tag (sets kvs m) j ≡ last_value kvs j (find_tag m j)
find-sets [] m j = refl
find-sets ((t, v) ∷ kvs) m j =
    find-sets kvs (set_tag t v m) j ∙ ap (last_value kvs j) (find_tag-set_tag t v m j)

get_found : (m : Section) (j : Bytes) {v : Bytes} → find_tag m j ≡ some v → get_tag m j ≡ v
unfolding get_tag
get_found m j e = rw (e, get_tag)

-- What a header reads of a file that is not running: no process number.
abbrev pub pid_stored : PathAttrs → Header → ℤ
pid_stored f h = if is_run f.state then h.pid else pos 0

module _ (f : PathAttrs) (h : Header) (m0 : Section) where
  abbrev pub fixed : List (Bytes × Bytes)
  fixed =
      (codes "job-id", int2str f.attrs.id)
      ∷ ((codes "job-state", state2str f.state)
          ∷ ((codes "job-queue", f.queue)
              ∷ ((codes "job-prio", print_int f.attrs.priority)
                  ∷ ((codes "Command", h.command)
                      ∷ ((codes "Job-MID", int2str h.mid)
                          ∷ ((codes "Job-MNode", h.mnode)
                              ∷ ((
                                codes "Job-PID",
                                if is_run f.state then print_int h.pid else codes "0",
                              )
                                  ∷ ((codes "Job-Type", h.type)
                                      ∷ ((codes "TTY-Notify", yn2str h.notify)
                                          ∷ ((codes "Try-Limit", print_int h.try_limit)
                                              ∷ []))))))))))

  abbrev pub before_body : Section
  before_body = store_args 1 h.args (sets fixed m0)

  pub store_header_sets : store_header f h m0 ≡ set_tag body_tag (tie_lines h.ties) before_body
  unfolding store_header
  store_header_sets = refl

  find_body : find_tag (store_header f h m0) body_tag ≡ some (tie_lines h.ties)
  unfolding same_key caseless to_lower
  find_body =
      ap (λ m. find_tag m body_tag) store_header_sets
      ∙ find_tag-set_tag body_tag (tie_lines h.ties) before_body body_tag

  -- The tags that are neither the body nor an argument.
  find_fixed :
      (j : Bytes)
      → same_key body_tag j ≡ false
      → ((k : ℕ) → same_key (arg_tag k) j ≡ false)
      → find_tag (store_header f h m0) j ≡ last_value fixed j (find_tag m0 j)
  find_fixed j nb na =
      ap (λ m. find_tag m j) store_header_sets
      ∙ find_tag-set_tag body_tag (tie_lines h.ties) before_body j
      ∙ rw nb (find-store_args 1 h.args (sets fixed m0) j (λ k p q. na k) ∙ find-sets fixed m0 j)

  pub fixed-HasNoArgs : HasNoArgs 1 m0 → HasNoArgs 1 (sets fixed m0)
  unfolding same_key caseless arg_tag to_lower
  fixed-HasNoArgs none_there k p q = find-sets fixed m0 (arg_tag k) ∙ none_there k p q

  get_body : get_tag (store_header f h m0) body_tag ≡ tie_lines h.ties
  get_body = get_found _ _ find_body

  get_fixed :
      (get_tag (store_header f h m0) (codes "Command") ≡ h.command)
      × (get_tag (store_header f h m0) (codes "Job-MID") ≡ int2str h.mid)
      × (get_tag (store_header f h m0) (codes "Job-MNode") ≡ h.mnode)
      × (get_tag (store_header f h m0) (codes "Job-PID")
          ≡ (if is_run f.state then print_int h.pid else codes "0"))
      × (get_tag (store_header f h m0) (codes "Job-Type") ≡ h.type)
      × (get_tag (store_header f h m0) (codes "TTY-Notify") ≡ yn2str h.notify)
      × (get_tag (store_header f h m0) (codes "Try-Limit") ≡ print_int h.try_limit)
  unfolding same_key caseless arg_tag to_lower
  get_fixed = (
    get_found _ _ (find_fixed (codes "Command") refl (λ k. refl)),
    get_found _ _ (find_fixed (codes "Job-MID") refl (λ k. refl)),
    get_found _ _ (find_fixed (codes "Job-MNode") refl (λ k. refl)),
    get_found _ _ (find_fixed (codes "Job-PID") refl (λ k. refl)),
    get_found _ _ (find_fixed (codes "Job-Type") refl (λ k. refl)),
    get_found _ _ (find_fixed (codes "TTY-Notify") refl (λ k. refl)),
    get_found _ _ (find_fixed (codes "Try-Limit") refl (λ k. refl)),
  )

  read_pid :
      (r : Bool) → str2int (if r then print_int h.pid else codes "0") ≡ (if r then h.pid else pos 0)
  unfolding print_int siz2str
  read_pid true = str2int-print_int h.pid
  read_pid false = str2int-print_int (pos 0)

  -- A section that has the same values and arguments as the one that `store` makes.
  module _ (m : Section) (same_value : (j : Bytes) → get_tag m j ≡ get_tag (store_header f h m0) j)
      (same_arg : (k : ℕ) → find_tag m (arg_tag k) ≡ find_tag (store_header f h m0) (arg_tag k))
      (enough : length h.args ≤ length m) where
    load_args_header :
        1 + length h.args < 2 ^ 31 → HasNoArgs 1 m0 → load_args (suc (length m)) 1 m ≡ h.args
    unfolding same_key caseless arg_tag to_lower
    load_args_header s none_there =
        let fuel = suc (length m) in
        load_args_same fuel 1 m before_body (λ k.
          same_arg k
          ∙ ap (λ m. find_tag m (arg_tag k)) store_header_sets
          ∙ find_tag-set_tag body_tag (tie_lines h.ties) before_body (arg_tag k))
        ∙ load_args-store_args fuel 1 h.args (sets fixed m0) (omega (arith, enough)) s
            (fixed-HasNoArgs none_there)

    -- Such a section is read as what was stored.
    pub load_header_same :
        h.mid < 2 ^ 31
        → 1 + length h.args < 2 ^ 31
        → HasNoArgs 1 m0
        → AreTies h.ties
        → AreDistinct [] h.ties
        → load_header m ≡ record h { pid = pid_stored f h }
    unfolding load_header
    load_header_same small few none_there ties distinct =
        let (command, mid, mnode, pid, type, notify, limit) = get_fixed in
        rw (
          same_value (codes "Command"),
          same_value (codes "Job-MID"),
          same_value (codes "Job-MNode"),
          same_value (codes "Job-PID"),
          same_value (codes "Job-Type"),
          same_value (codes "TTY-Notify"),
          same_value (codes "Try-Limit"),
          same_value body_tag,
          command,
          mid,
          mnode,
          pid,
          type,
          notify,
          limit,
          get_body,
          load_args_header few none_there,
          int2str_small h.mid small,
          id_read h.mid,
          read_pid (is_run f.state),
          (str2boo-print h.notify).1,
          str2int-print_int h.try_limit,
          add_ties-tie_lines [] h.ties ties distinct,
        )

  pub length-store_header :
      1 + length h.args < 2 ^ 31 → HasNoArgs 1 m0 → length h.args ≤ length (store_header f h m0)
  length-store_header s none_there = omega (
    arith,
    ap length store_header_sets,
    length-set_tag body_tag (tie_lines h.ties) before_body,
    length-store_args 1 h.args (sets fixed m0) s (fixed-HasNoArgs none_there),
  )

-- From the section that `store_header` makes, not from its text, `load_header` reads what the job has:
-- the command, the arguments, the node, the type, the
-- flag, the limit, the ties and the manager's id; and the process number if the job is in state
-- `run`, and else 0. The id of the manager and those of the ties fit an `int`, there are fewer than
-- 2^31 - 1 arguments, no argument's tag was there before, and the stations of the ties are
-- different words of one line.
pub load_header-store_header :
    (f : PathAttrs) (h : Header) (m0 : Section)
    → h.mid < 2 ^ 31
    → 1 + length h.args < 2 ^ 31
    → HasNoArgs 1 m0
    → AreTies h.ties
    → AreDistinct [] h.ties
    → load_header (store_header f h m0) ≡ record h { pid = pid_stored f h }
load_header-store_header f h m0 small few none_there =
    load_header_same f h m0 (store_header f h m0) (λ j. refl) (λ k. refl)
      (length-store_header f h m0 few none_there) small few none_there
