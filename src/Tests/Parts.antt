-- ===== src/Tests/Parts.antt =====
-- Multipart files, printed and read.
use job.Multipart.Entry.{AllId, nothing, something, longer}
use job.Multipart.Scanning.{AllPlain}
use job.Multipart.Load.{
  Multipart, new_multipart, ok, load, fgets_lines, c_str, byte_at, end_bound, mid_bound,
}
use job.Multipart.Print.{to_string}
use job.Multipart.RoundTrip.{IsPrintable, printable, load-to_string_multipart}
use job.Multipart.Parts.{IsHeader}
use job.Multipart.Scan.{is_id}
use job.Multipart.Section.{Section, set_tag, same_key, caseless}
use job.File.{is_empty}
use job.Text.Trim.{lc}
use job.Prelude.{
  ◌++◌, Bool, not, ◌&&◌, ◌||◌, ◌==◌, str_eq, to_lower, is_alnum, is_digit, is_blank, true, false,
  [], ◌∷◌, Bytes, codes, ◌≡◌, refl, arith,
}

abbrev headers : Section
headers =
    (codes "Content-Type", codes "multipart/mixed; boundary=42") ∷ ((codes "Job-Type", []) ∷ [])

abbrev job_file : Multipart
job_file = record {
  sections =
      ((codes "__BODY__", codes "tie east 7\n") ∷ headers)
      ∷ (((codes "__BODY__", codes "done") ∷ ((codes "section", codes "output") ∷ [])) ∷ []);
  boundary = codes "42";
  substatus = [];
  closed = false;
}

abbrev all_plain : Bytes → Bool
all_plain [] = true
all_plain (c ∷ cs) = not (c == 0 || c == b'\n') && all_plain cs

all_plain-AllPlain : (cs : Bytes) → all_plain cs ≡ true → AllPlain cs
all_plain-AllPlain [] h = tt
all_plain-AllPlain (c ∷ cs) h = (ground arith, all_plain-AllPlain cs (ground arith))

abbrev all_id : Bytes → Bool
all_id [] = true
all_id (c ∷ cs) = is_id c && all_id cs

all_id-AllId : (cs : Bytes) → all_id cs ≡ true → AllId cs
all_id-AllId [] h = tt
all_id-AllId (c ∷ cs) h = (ground arith, all_id-AllId cs (ground arith))

type-IsHeader : IsHeader (codes "Content-Type") (codes "multipart/mixed; boundary=42")
unfolding is_id is_alnum is_digit is_blank same_key caseless to_lower
type-IsHeader = (
  (all_id-AllId (codes "Content-Type") refl, refl),
  something (
      longer b'm' b'2' (codes "ultipart/mixed; boundary=4") refl refl
        (all_plain-AllPlain (codes "ultipart/mixed; boundary=4") refl) refl refl refl),
  omega arith,
  refl,
)

job-IsHeader : IsHeader (codes "Job-Type") []
unfolding is_id is_alnum is_digit same_key caseless to_lower
job-IsHeader = ((all_id-AllId (codes "Job-Type") refl, refl), nothing refl, omega arith, refl)

section-IsHeader : IsHeader (codes "section") (codes "output")
unfolding is_id is_alnum is_digit is_blank same_key caseless to_lower
section-IsHeader = (
  (all_id-AllId (codes "section") refl, refl),
  something (
      longer b'o' b't' (codes "utpu") refl refl (all_plain-AllPlain (codes "utpu") refl) refl refl
        refl),
  omega arith,
  refl,
)

job_file-IsPrintable : IsPrintable job_file
unfolding set_tag to_lower str_eq lc is_empty fgets_lines c_str byte_at end_bound mid_bound
job_file-IsPrintable =
    printable headers (codes "tie east 7\n")
      (((codes "section", codes "output") ∷ [], codes "done") ∷ []) refl refl
      ((refl, (refl, tt)), omega arith) refl
      (
        (type-IsHeader, tt, (job-IsHeader, (refl, refl, tt), tt)),
        (refl, ((refl, refl, refl, refl), ((refl, refl, refl, refl), tt))),
        ((section-IsHeader, tt, tt), (refl, ((refl, refl, refl, refl), tt)), tt),
      )

load-to_string_multipart_example :
    (st : Bytes) × (load (to_string (codes "7") job_file).1 new_multipart
      ≡ ok (record (to_string (codes "7") job_file).0 {
        substatus = st;
        closed =
            (to_string (codes "7") job_file).0.closed
            && not (is_empty (to_string (codes "7") job_file).0.boundary);
      }))
unfolding to_string is_empty str_eq
load-to_string_multipart_example =
    load-to_string_multipart (codes "7") job_file job_file-IsPrintable

-- A body whose first line begins with `#`, and one with a line `--` where no boundary is known.
abbrev one_header : Bytes
one_header = codes "section: output\n\n"

commented_body :
    load (one_header ++ codes "# start\nend\n") new_multipart
    ≡ ok (record {
      sections =
          ((codes "__BODY__", codes "end\n") ∷ ((codes "section", codes "output") ∷ [])) ∷ [];
      boundary = [];
      substatus = [];
      closed = false;
    })
unfolding load is_blank is_id is_alnum to_lower str_eq lc
commented_body = refl

dashed_body :
    load (one_header ++ codes "a\n--\nb:c\n") new_multipart
    ≡ ok (record {
      sections =
          ((codes "__BODY__", codes "a") ∷ ((codes "section", codes "output") ∷ []))
          ∷ (((codes "b", codes "c") ∷ []) ∷ []);
      boundary = [];
      substatus = [];
      closed = false;
    })
unfolding load is_blank is_id is_alnum str_eq lc to_lower
dashed_body = refl
