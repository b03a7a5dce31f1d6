-- ===== src/File.antt =====
-- src/job/file.cxx and file.hxx: the job file. What a job's file name says (queue, state, run time,
-- priority, id, submitter) is printed by `name`, and read by `parse` and `_init_from_path`.
pub mod Name
pub mod Moves
pub mod Header
pub mod Object
use job.Number.{ℤ, pos, negsuc, signed, padded, print_int, read_digits, read_sign}
use job.Prelude.{
  ℕ, ◌+◌, ◌-◌, ◌%◌, ◌^◌, Bool, true, false, not, ◌||◌, List, [], ◌∷◌, ◌++◌, Option, none, some,
  Bytes, codes, ltb, ◌==◌, if◌then◌else◌, is_digit, is_space, str_eq, reverse, take,
}
use job.Text.Split.{split}
use job.Text.Trim.{ltrim}

-- `state_t`, in the order of the enumeration.
pub data State : Type 0 where
  unk hold pend run tied kill done : State

unfoldable pub state2str : State → Bytes
state2str hold = codes "hold"
state2str pend = codes "pend"
state2str run = codes "run"
state2str tied = codes "tied"
state2str kill = codes "kill"
state2str done = codes "done"
state2str unk = codes "???"

unfoldable pub str2state : Bytes → State
str2state s =
    if str_eq s (codes "hold")
    then hold
    else if str_eq s (codes "pend")
    then pend
    else if str_eq s (codes "run")
    then run
    else if str_eq s (codes "tied")
    then tied
    else if str_eq s (codes "kill")
    then kill
    else if str_eq s (codes "done")
    then done
    else unk

-- What a job file's base name holds.
pub record NameAttrs : Type 0 where
  pub run_time : ℤ
  pub priority : ℤ
  pub id : ℕ
  pub submitter : Bytes

pub data FileError : Type 0 where
  bad_format bad_priority missing_submitter bad_path bad_queue bad_state : FileError

pub data Result {ℓ} (A : Type ℓ) : Type ℓ where
  ok : A → Result A
  err : FileError → Result A

infixl 5 ◌>>=◌
abbrev pub ◌>>=◌ {ℓ κ} : {A : Type ℓ} {B : Type κ} → Result A → (A → Result B) → Result B
ok a >>= f = f a
err e >>= f = err e

-- `sscanf` stops at the first directive that does not match.
abbrev or_stop {ℓ} : {A : Type ℓ} → Option A → Result A
or_stop none = err bad_format
or_stop (some a) = ok a

-- The literal bytes of the format.
unfoldable pub literal : Bytes → Bytes → Option Bytes
literal [] s = some s
literal (m ∷ ms) [] = none
literal (m ∷ ms) (c ∷ cs) = if m == c then literal ms cs else none

digits_or_stop : Bool → Bytes → Option (ℤ × Bytes)
digits_or_stop minus [] = none
digits_or_stop minus (c ∷ cs) =
    let (n, rest) = read_digits 0 (c ∷ cs) in
    if is_digit c then some (signed minus n, rest) else none

-- `%ld`, `%d`, `%lu`: spaces, a sign, at least one digit. Values beyond the C type, where C leaves
-- the result undefined, are kept as they are.
unfoldable pub scan_int : Bytes → Option (ℤ × Bytes)
unfolding digits_or_stop
scan_int s = let (minus, rest) = read_sign (ltrim s) in digits_or_stop minus rest

unfoldable pub word : Bytes → Bytes
word [] = []
word (c ∷ cs) = if is_space c then [] else c ∷ word cs

-- `%s`: spaces, then at least one byte up to the next space.
unfoldable pub scan_word : Bytes → Option Bytes
unfolding word
scan_word s = elim (word (ltrim s)) [ [] ↦ none | c ∷ cs ↦ some (c ∷ cs) ]

-- What `%lu` stores for a number: it takes a sign too, and the value wraps.
unfoldable pub to_id : ℤ → ℕ
to_id (pos n) = n % 2 ^ 64
to_id (negsuc n) = 2 ^ 64 - 1 - n % 2 ^ 64

-- `PRIORITY_MIN` to `PRIORITY_MAX`.
unfoldable pub priority_ok : ℤ → Bool
priority_ok (pos n) = not (ltb n 1 || ltb 9 n)
priority_ok (negsuc n) = false

-- The two checks after `sscanf`.
unfoldable pub check_attrs : NameAttrs → Bytes → Result NameAttrs
check_attrs a [] = err (if priority_ok a.priority then missing_submitter else bad_priority)
check_attrs a (c ∷ cs) = if priority_ok a.priority then ok a else err bad_priority

-- `file::parse`: `sscanf(fnam, "t%ld.p%d.j%lu.%s", ...)` and the checks.
unfoldable pub parse : Bytes → Result NameAttrs
unfolding literal scan_int scan_word to_id priority_ok check_attrs
parse fnam = do
  s1 ← or_stop (literal (codes "t") fnam)
  (run_time, s2) ← or_stop (scan_int s1)
  s3 ← or_stop (literal (codes ".p") s2)
  (priority, s4) ← or_stop (scan_int s3)
  s5 ← or_stop (literal (codes ".j") s4)
  (id, s6) ← or_stop (scan_int s5)
  s7 ← or_stop (literal (codes ".") s6)
  subm ← or_stop (scan_word s7)
  check_attrs (record { run_time = run_time; priority = priority; id = to_id id; submitter = subm })
      subm

-- The attributes that a job file's path holds.
pub record PathAttrs : Type 0 where
  pub queue : Bytes
  pub state : State
  pub attrs : NameAttrs

-- `pieces[i-3]`, `pieces[i-2]` and `pieces[i-1]`, from the reversed pieces.
unfoldable pub last_three : List Bytes → Option (Bytes × Bytes × Bytes)
last_three (base ∷ (st ∷ (q ∷ _))) = some (q, st, base)
last_three _ = none

unfoldable pub is_unk : State → Bool
is_unk unk = true
is_unk _ = false

unfoldable pub is_empty : Bytes → Bool
is_empty [] = true
is_empty (c ∷ cs) = false

-- The checks of `_init_from_path` on the three pieces, in their order.
unfoldable pub from_pieces : Option (Bytes × Bytes × Bytes) → Result PathAttrs
unfolding is_unk is_empty
from_pieces none = err bad_path
from_pieces (some (q, st, base)) =
    if is_empty q
    then err bad_queue
    else if is_unk (str2state st)
    then err bad_state
    else do attrs ← parse base; ok (record { queue = q; state = str2state st; attrs = attrs })

unfoldable pub init_from_path : Bytes → Result PathAttrs
unfolding from_pieces last_three
init_from_path filename = from_pieces (last_three (reverse (split filename (codes "/") 0)))

-- `%10.10ld`.
unfoldable pub print_time : ℤ → Bytes
print_time (pos n) = padded 10 n
print_time (negsuc n) = b'-' ∷ padded 10 (n + 1)

-- The base name, as `name` prints it.
unfoldable pub base_name : NameAttrs → Bytes
unfolding print_time
base_name a =
    codes "t"
    ++ (print_time a.run_time
        ++ (codes ".p"
            ++ (print_int a.priority
                ++ (codes ".j" ++ (padded 7 a.id ++ (codes "." ++ a.submitter))))))

-- `PATH_MAX`: what `snprintf` leaves of a name in a buffer of one byte more.
abbrev pub path_max : ℕ
path_max = 4096

-- `file::name`; `jobdir` is `path.jobdir`, which ends in a slash.
unfoldable pub name : Bytes → PathAttrs → Bytes
unfolding base_name
name jobdir f =
    take path_max (
      jobdir ++ (f.queue ++ (codes "/" ++ (state2str f.state ++ (codes "/" ++ base_name f.attrs)))))
