-- ===== src/Multipart/Scan.antt =====
-- The scanner of `tag: value` lines, which multipart.cxx and config.cxx each have a copy of.
use job.Prelude.{
  ℕ, ◌+◌, ◌-◌, Bool, not, ◌&&◌, ◌||◌, [], ◌∷◌, Bytes, ◌==◌, if◌then◌else◌, is_blank, is_alnum, take,
  drop,
}

pub data ScanState : Type 0 where
  want_tag want_tend want_delim want_val want_vend : ScanState

pub data LineError : Type 0 where
  bad_tag no_delimiter no_value no_terminator : LineError

-- `n` is the index of the next byte; the others are the source's.
pub record Scan : Type 0 where
  pub n : ℕ
  pub t : ℕ
  pub tl : ℕ
  pub v : ℕ
  pub w : ℕ
  pub state : ScanState

-- The macro `isid` of multipart.cxx.
unfoldable pub is_id : ℕ → Bool
is_id c = is_alnum c || (c == b'-' || (c == b'_' || c == b'.'))

pub data Stepped : Type 0 where
  go : Scan → Stepped
  stop : LineError → Stepped

-- One byte that is neither a newline nor the end. `idc` is the file's `isid`; the flag tells whether
-- blanks are skipped in front of the tag.
unfoldable pub scan_byte : (ℕ → Bool) → Bool → ScanState → Scan → ℕ → Stepped
scan_byte idc skip want_tag s c =
    if skip && is_blank c
    then go (record s { n = s.n + 1 })
    else if not (idc c)
    then stop bad_tag
    else go (record s { n = s.n + 1; t = s.n; state = want_tend })
scan_byte idc skip want_tend s c = go (record s {
  n = s.n + 1;
  tl = s.tl + 1;
  state = if idc c then want_tend else if c == b':' then want_val else want_delim;
})
scan_byte idc skip want_delim s c =
    if is_blank c
    then go (record s { n = s.n + 1 })
    else if not (c == b':')
    then stop no_delimiter
    else go (record s { n = s.n + 1; state = want_val })
scan_byte idc skip want_val s c =
    if is_blank c
    then go (record s { n = s.n + 1 })
    else go (record s { n = s.n + 1; v = s.n; w = s.n; state = want_vend })
scan_byte idc skip want_vend s c =
    go (if is_blank c then record s { n = s.n + 1 } else record s { n = s.n + 1; w = s.n })

-- The loop over the line from byte `s.n` on; a NUL or a newline ends it.
unfoldable pub scan_loop : (ℕ → Bool) → Bool → Scan → Bytes → Stepped
unfolding scan_byte
scan_loop idc skip s [] = go s
scan_loop idc skip s (c ∷ cs) =
    if c == 0 || c == b'\n' then go s else elim (scan_byte idc skip s.state s c) [
      | stop e ↦ stop e
      | go s' ↦ scan_loop idc skip s' cs
    ]

pub data Line : Type 0 where
  empty : Line
  entry : Bytes → Bytes → Line
  bad : LineError → Line

-- What follows the loop.
unfoldable pub finish_line : Bytes → ScanState → Scan → Line
finish_line line want_tag s = empty
finish_line line want_tend s = bad no_value
finish_line line want_delim s = bad no_value
finish_line line _ s = entry (take s.tl (drop s.t line)) (take (s.w + 1 - s.v) (drop s.v line))

unfoldable pub scanned_line : Bytes → Stepped → Line
scanned_line line (stop e) = bad e
scanned_line line (go s) = finish_line line s.state s

abbrev pub start_at : ℕ → Scan
start_at n = record { n = n; t = 0; tl = 0; v = 1; w = 0; state = want_tag }

-- A line scanned from byte `n`.
unfoldable pub scan_line : (ℕ → Bool) → Bool → ℕ → Bytes → Line
unfolding scanned_line scan_loop finish_line
scan_line idc skip n line = scanned_line line (scan_loop idc skip (start_at n) (drop n line))
