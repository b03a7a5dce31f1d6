-- ===== src/Number/Times.antt =====
-- src/job/string.cxx: `str2tim`, `tim2str` and `str2siz`. `strptime`, `mktime` and today's date are arguments.
use job.Number.{ℤ, pos, negsuc}
use job.Prelude.{
  ℕ, Bool, false, List, [], ◌∷◌, Option, none, some, Bytes, codes, ◌==◌, if◌then◌else◌,
}

-- `struct tm`; the other fields are 0.
pub record Tm : Type 0 where
  pub tm_year : ℤ
  pub tm_mon : ℤ
  pub tm_mday : ℤ
  pub tm_hour : ℤ
  pub tm_min : ℤ
  pub tm_sec : ℤ

abbrev pub formats : List Bytes
formats =
    codes "%Y-%m-%d"
    ∷ (codes "%Y-%m-%d %H:%M"
        ∷ (codes "%Y-%m-%d %H:%M:%S"
            ∷ (codes "%Y-%m-%dt%H:%M"
                ∷ (codes "%Y-%m-%dt%H:%M:%S"
                    ∷ (codes "%Y-%m-%dT%H:%M"
                        ∷ (codes "%Y-%m-%dT%H:%M:%S"
                            ∷ (codes "%H:%M"
                                ∷ (codes "%H:%M:%S"
                                    ∷ (codes "%Y%m%d"
                                        ∷ (codes "%Y%m%d%H%M"
                                            ∷ (codes "%Y%m%d%H%M%S" ∷ [])))))))))))

-- What `strptime` makes of a text in a format: the time, and the rest of the text.
abbrev pub Parser : Type 0
Parser = Bytes → Bytes → Option (Tm × Bytes)

unfoldable pub whole : Option (Tm × Bytes) → Option Tm
whole none = none
whole (some (t, [])) = some t
whole (some (t, c ∷ cs)) = none

unfoldable pub or_next : Option Tm → Option Tm → Option Tm
or_next none rest = rest
or_next (some t) rest = some t

-- The loop over the formats: the first that reads the whole text.
unfoldable pub try_formats : Parser → Bytes → List Bytes → Option Tm
unfolding whole or_next
try_formats strptime s [] = none
try_formats strptime s (f ∷ fs) = or_next (whole (strptime s f)) (try_formats strptime s fs)

unfoldable pub is_zero : ℤ → Bool
is_zero (pos n) = n == 0
is_zero (negsuc n) = false

-- The date is today's if the text has none.
unfoldable pub dated : Tm → Tm → Tm
unfolding is_zero
dated today t =
    if is_zero t.tm_year
    then record t { tm_year = today.tm_year; tm_mon = today.tm_mon; tm_mday = today.tm_mday }
    else t

time_of : (Tm → ℤ) → Tm → Option Tm → ℤ
unfolding dated
time_of mktime today none = negsuc 0
time_of mktime today (some t) = mktime (dated today t)

unfoldable pub str2tim : Parser → (Tm → ℤ) → Tm → Bytes → ℤ
unfolding time_of try_formats
str2tim strptime mktime today s = time_of mktime today (try_formats strptime s formats)

-- `tim2str`; `strftime` has the size of the buffer, the format, and the time, which `gmtime` splits.
unfoldable pub tim2str : (ℕ → Bytes → ℤ → Bytes) → Bool → ℤ → Bytes
tim2str strftime human t =
    strftime 21 (if human then codes "%Y-%m-%d %H:%M:%SZ" else codes "%Y-%m-%dT%H:%M:%SZ") t

-- `str2siz`; `extract` is `operator >>` of a string stream.
unfoldable pub str2siz : (Bytes → ℕ) → Bytes → ℕ
str2siz extract [] = 0
str2siz extract (c ∷ cs) = extract (c ∷ cs)
