-- ===== src/Config.antt =====
-- src/job/config.cxx: a configuration, which maps sections to tags to values. Both maps are lists in
-- the order of `caseless`.
pub mod Lines
pub mod Sections
pub mod RoundTrip
use job.Multipart.Load.{fgets_lines, c_str}
use job.Multipart.Scan.{LineError, no_terminator, Line, empty, entry, bad, scan_line, is_id}
use job.Multipart.Section.{Section, set_tag, find_tag, same_key, caseless}
use job.Number.{ℤ, str2int}
use job.Prelude.{
  ℕ, zero, suc, ◌+◌, ◌-◌, Bool, true, false, not, ◌&&◌, ◌||◌, List, [], ◌∷◌, ◌++◌, Option, none,
  some, Bytes, codes, ◌==◌, if◌then◌else◌, length, drop, map, replicate, str_eq, is_blank,
}

abbrev pub Config : Type 0
Config = List (Bytes × Section)

-- The macro `isid` of config.cxx.
unfoldable pub is_config_id : ℕ → Bool
unfolding is_id
is_config_id c = is_id c || c == b'$'

-- `(*this)[sec]`, changed by `f`; a new section is made in its place.
unfoldable pub with_section : Bytes → (Section → Section) → Config → Config
with_section sec f [] = (sec, f []) ∷ []
with_section sec f ((k, m) ∷ c) =
    let rest = with_section sec f c in
    if same_key k sec
    then (k, f m) ∷ c
    else if caseless sec k
    then (sec, f []) ∷ ((k, m) ∷ c)
    else (k, m) ∷ rest

-- The value of `(*this)[sec][tag]` where both are there.
unfoldable pub lookup : Config → Bytes → Bytes → Option Bytes
lookup [] sec tag = none
lookup ((k, m) ∷ c) sec tag = if same_key k sec then find_tag m tag else lookup c sec tag

unfoldable pub is_found : Option Bytes → Bool
is_found none = false
is_found (some v) = true

unfoldable pub exists : Config → Bytes → Bytes → Bool
unfolding lookup is_found
exists c sec tag = is_found (lookup c sec tag)

unfoldable pub or_else : Option Bytes → Bytes → Bytes
or_else none dfl = dfl
or_else (some v) dfl = v

unfoldable pub get : Config → Bytes → Bytes → Bytes → Bytes
unfolding lookup or_else
get c sec tag dfl = or_else (lookup c sec tag) dfl

unfoldable pub int_or_else : Option Bytes → ℤ → ℤ
int_or_else none dfl = dfl
int_or_else (some v) dfl = str2int v

unfoldable pub geti : Config → Bytes → Bytes → ℤ → ℤ
unfolding lookup int_or_else
geti c sec tag dfl = int_or_else (lookup c sec tag) dfl

unfoldable pub count_blanks : Bytes → ℕ
count_blanks [] = 0
count_blanks (c ∷ s) = let rest = count_blanks s in if is_blank c then suc rest else 0

abbrev pub skip_blanks : Bytes → Bytes
skip_blanks s = drop (count_blanks s) s

unfoldable pub is_name_end : ℕ → Bool
is_name_end c = is_blank c || (c == b'\n' || c == b']')

-- The rest of a section's name, and what follows it.
unfoldable pub name_rest : Bytes → Bytes × Bytes
unfolding is_name_end
name_rest [] = ([], [])
name_rest (c ∷ s) =
    let rest = name_rest s in if is_name_end c then ([], c ∷ s) else (c ∷ rest.0, rest.1)

unfoldable pub starts_closing : Bytes → Bool
starts_closing [] = false
starts_closing (c ∷ s) = c == b']'

-- What stands after `[` and blanks: the name, whose first byte is not tested, if `]` closes it. The
-- bytes behind the end of a file that ends here, which the code goes on to read, count as zero.
unfoldable pub section_name : Bytes → Option Bytes
unfolding name_rest starts_closing count_blanks
section_name [] = none
section_name (c ∷ s) =
    let parts = name_rest s in
    if starts_closing (skip_blanks parts.1) then some (c ∷ parts.0) else none

pub record Reader : Type 0 where
  pub cfg : Config
  pub sec : Bytes

pub data Step : Type 0 where
  on : Reader → Step
  fail : LineError → Step

-- `.append(text)`
unfoldable pub append_comment : Bytes → Section → Section
append_comment text m = set_tag (codes "#") (or_else (find_tag m (codes "#")) [] ++ text) m

unfoldable pub enter_section : Reader → Option Bytes → Step
enter_section r none = fail no_terminator
enter_section r (some name) = on (record r { sec = name })

unfoldable pub add_entry : Reader → Line → Step
add_entry r empty = on r
add_entry r (bad e) = fail e
add_entry r (entry tag val) = on (record r { cfg = with_section r.sec (set_tag tag val) r.cfg })

-- The rest of a round, on the line from its first byte that is no blank.
unfoldable pub load_from : Reader → Bytes → ℕ → Bytes → Step
unfolding append_comment enter_section add_entry section_name is_config_id count_blanks
load_from r line n [] = on r
load_from r line n (c ∷ s) =
    if c == b'#'
    then on (record r { cfg = with_section r.sec (append_comment (c ∷ s)) r.cfg })
    else if c == b'['
    then enter_section r (section_name (skip_blanks s))
    else add_entry r (scan_line is_config_id false n line)

unfoldable pub load_line : Reader → Bytes → Step
unfolding load_from count_blanks
load_line r line = load_from r line (count_blanks line) (skip_blanks line)

-- What `load` leaves, with the error and the number of its line.
pub record Loaded : Type 0 where
  pub cfg : Config
  pub error : Option (LineError × ℕ)

unfoldable pub load_lines : List Bytes → ℕ → Reader → Loaded
load_lines [] lnum r = record { cfg = r.cfg; error = none }
load_lines (line ∷ lines) lnum r = elim (load_line r line) [
  | fail e ↦ record { cfg = r.cfg; error = some (e, suc lnum) }
  | on r' ↦ load_lines lines (suc lnum) r'
]

-- `load` of a file with this content.
unfoldable pub load : Bytes → Config → Loaded
unfolding load_lines fgets_lines c_str
load content c =
    load_lines (map c_str (fgets_lines 256 255 [] content)) 0 (record { cfg = c; sec = [] })

-- An entry, or the comments of a section.
unfoldable pub print_entry : Bytes → Bytes → Bytes
print_entry k v =
    if str_eq k (codes "#")
    then v
    else k ++ (codes ": " ++ (replicate (11 - length k) b' ' ++ (v ++ b'\n' ∷ [])))

unfoldable pub print_entries : Section → Bytes
unfolding print_entry
print_entries [] = []
print_entries ((k, v) ∷ m) = print_entry k v ++ print_entries m

unfoldable pub print_name : Bytes → Bytes
print_name [] = []
print_name (c ∷ s) = codes "\n[" ++ (c ∷ s ++ codes "]\n")

unfoldable pub to_string : Config → Bytes
unfolding print_name print_entries
to_string [] = []
to_string ((sec, m) ∷ c) = print_name sec ++ (print_entries m ++ to_string c)
