-- ===== src/Tests/Messages.antt =====
-- src/job/log.cxx, src/job/config.cxx and src/job/path.cxx at concrete inputs.
use job.Config.Lines.{AllConfigId}
use job.Config.RoundTrip.{IsPrintable, load-to_string}
use job.Config.{
  Config, load, to_string, is_config_id, is_name_end, load_line, with_section, or_else, geti,
}
use job.Log.Format.{Chunk, get_chunk}
use job.Log.Levels.{logdump, fromstring, head}
use job.Log.Message.{put_all-cons}
use job.Log.Operators.{
  Printf, Passed, pass_text, pass_int, pass_double, pass_pointer, Arg, of_int, of_chars, buf_of,
  put_all,
}
use job.Log.{Logger}
use job.Multipart.Entry.{single, longer}
use job.Multipart.Scan.{is_id, no_value, scan_line}
use job.Multipart.Section.{same_key, caseless, find_tag, set_tag}
use job.Number.{pos, print_int, siz2str, str2int}
use job.Prelude.{
  ◌+◌, ◌≤◌, ◌≡◌, List, [], ◌∷◌, ◌++◌, Bytes, codes, some, none, arith, refl, length, take, is_alnum,
  is_digit, is_space, str_eq, is_blank, to_lower,
}
use job.Text.Trim.{lc}

-- A `snprintf` that knows the plainest conversions only.
abbrev plain : Passed Unit Unit → Bytes
plain (pass_text x) = x
plain (pass_int n) = print_int n
plain (pass_double d) = codes "0.0"
plain (pass_pointer q) = codes "0"

abbrev printf : Printf
printf = record {
  Double = Unit;
  Pointer = Unit;
  int_to_double = λ n. tt;
  int_to_pointer = λ n. tt;
  double_to_long = λ d. pos 0;
  pointer_to_long = λ q. pos 0;
  snprintf = λ size ff x. take size (plain x);
}

abbrev format : Bytes
format = codes "job %d of %s"

abbrev logger : Logger
logger = record { i = 0; fmt = format }

abbrev args : List (Arg printf)
args = of_chars (codes "100%d") ∷ []

abbrev first : Chunk
first = record { fmt = format; i = 4; found = some (b'd', codes "%d") }

first_found : get_chunk 0 format ≡ some first
unfolding get_chunk
first_found = refl

job_42 : length (buf_of printf (of_int (pos 42)) b'd' (codes "%d")) ≡ 2
unfolding buf_of print_int siz2str
job_42 = refl

whole : (put_all printf (of_int (pos 42) ∷ args) logger).fmt ≡ codes "job 42 of 100%d"
unfolding put_all print_int siz2str
whole = refl

put_all-cons_example :
    (take 0 first.fmt ≡ take 0 logger.fmt)
    × (0 ≤ 4)
    × (take
          (4 + length (buf_of printf (of_int (pos 42)) b'd' (codes "%d")))
          (put_all printf (of_int (pos 42) ∷ args) logger).fmt
        ≡ take 4 first.fmt ++ buf_of printf (of_int (pos 42)) b'd' (codes "%d"))
put_all-cons_example =
    put_all-cons printf (of_int (pos 42)) args logger first b'd' (codes "%d") first_found refl
      (omega arith) (omega (arith, job_42))

abbrev config : Config
config =
    ([], (codes "nodes", codes "8") ∷ [])
    ∷ ((codes "fast", (codes "max-jobs", codes "4") ∷ ((codes "owner", codes "ann") ∷ [])) ∷ [])

id_lem : AllConfigId (codes "nodes") × AllConfigId (codes "max-jobs") × AllConfigId (codes "owner")
unfolding is_config_id is_id is_alnum is_digit
id_lem = (
  (refl, (refl, (refl, (refl, (refl, tt))))),
  (refl, (refl, (refl, (refl, (refl, (refl, (refl, (refl, tt)))))))),
  (refl, (refl, (refl, (refl, (refl, tt))))),
)

config-IsPrintable : IsPrintable config
unfolding is_name_end is_blank same_key caseless to_lower
config-IsPrintable = (
  ((id_lem.0, single b'8' refl refl refl, omega arith), tt, tt),
  (
    ((refl, refl, (refl, refl, (refl, refl, (refl, refl, tt)))), omega arith),
    (refl, refl, tt),
    (
      (id_lem.1, single b'4' refl refl refl, omega arith),
      tt,
      (
        (id_lem.2, longer b'a' b'n' (codes "n") refl refl (refl, tt) refl refl refl, omega arith),
        (refl, refl, tt),
        tt,
      ),
    ),
    tt,
  ),
)

load-to_string_example : load (to_string config) [] ≡ record { cfg = config; error = none }
load-to_string_example = load-to_string config config-IsPrintable

jobs_allowed : geti config (codes "FAST") (codes "Max-Jobs") (pos 1) ≡ pos 4
unfolding geti find_tag same_key caseless to_lower str2int is_space is_digit
jobs_allowed = refl

dumped : fromstring (codes "Dump") ≡ logdump
unfolding fromstring str_eq lc to_lower
dumped = refl

log_head : head logdump (codes "src/job/log.cxx") 12 ≡ codes "DMP [log.cxx:12]"
unfolding head siz2str
log_head = refl

-- The comment is kept under the tag `#`; the line without a value ends the reading.
loaded : load (codes "# c\n[a]\nx: 1 \ny\nz:2\n") [] ≡ record {
  cfg = ([], (codes "#", codes "# c\n") ∷ []) ∷ ((codes "a", (codes "x", codes "1") ∷ []) ∷ []);
  error = some (no_value, 4);
}
unfolding load load_line scan_line is_config_id is_alnum is_digit is_blank same_key caseless
    to_lower with_section set_tag or_else find_tag
loaded = refl
