-- ===== src/Log/Levels.antt =====
-- src/job/log.cxx: the levels, the head of a message, and what `out` writes. The time and the process
-- number are arguments.
use job.Number.{padded, siz2str}
use job.Prelude.{
  ℕ, ◌-◌, Bool, not, ◌&&◌, ◌||◌, [], ◌∷◌, ◌++◌, Option, none, some, Bytes, codes, ltb, ◌==◌,
  if◌then◌else◌, length, take, replicate, str_eq, to_lower, ◌≡◌, ◌≢◌, refl,
}
use job.Text.Trim.{lc}

pub data Loglevel : Type 0 where
  logsilent : Loglevel
  logalways : Loglevel
  logfatal : Loglevel
  logerror : Loglevel
  logwarn : Loglevel
  loginfo : Loglevel
  logverbose : Loglevel
  logdebug : Loglevel
  logdump : Loglevel

-- `(int)lvl + 2`
unfoldable pub level_prio : Loglevel → ℕ
level_prio logsilent = 0
level_prio logalways = 1
level_prio logfatal = 2
level_prio logerror = 3
level_prio logwarn = 4
level_prio loginfo = 5
level_prio logverbose = 6
level_prio logdebug = 7
level_prio logdump = 8

-- The level that a word names, on the word in lower case.
unfoldable pub level_of : Bytes → Loglevel
level_of level =
    let c = take 1 level in
    let d = take 2 level in
    if str_eq c (codes "f")
    then logfatal
    else if str_eq c (codes "e")
    then logerror
    else if str_eq c (codes "w")
    then logwarn
    else if str_eq c (codes "i")
    then loginfo
    else if str_eq c (codes "v")
    then logverbose
    else if str_eq d (codes "db")
    then logdebug
    else if str_eq d (codes "de")
    then logdebug
    else if str_eq d (codes "dm")
    then logdump
    else if str_eq d (codes "du")
    then logdump
    else if str_eq c (codes "a")
    then logalways
    else if str_eq c (codes "s")
    then logsilent
    else logwarn

unfoldable pub fromstring : Bytes → Loglevel
unfolding level_of
fromstring level = level_of (lc level)

unfoldable pub lvls : Loglevel → Bytes
lvls logfatal = codes "FTL"
lvls logerror = codes "ERR"
lvls logwarn = codes "WRN"
lvls loginfo = codes "INF"
lvls logverbose = codes "VBS"
lvls logdebug = codes "DBG"
lvls logdump = codes "DMP"
lvls _ = codes "---"

-- What follows the last byte `c`, as `substr(p+1)` of `rfind` has it, and else `best`.
unfoldable pub after_last : ℕ → Bytes → Bytes → Bytes
after_last c best [] = best
after_last c best (x ∷ s) = after_last c (if x == c then s else best) s

-- `head`, where `bufsize` is 80.
unfoldable pub head : Loglevel → Bytes → ℕ → Bytes
unfolding lvls after_last
head lvl fil lin =
    let name = after_last b'/' fil fil in
    let file = after_last b'\\' name name in
    take 79 (lvls lvl ++ (codes " [" ++ (file ++ (b':' ∷ (siz2str lin ++ codes "]")))))

pub record Options : Type 0 where
  pub show_header : Bool
  pub show_newline : Bool
  pub show_pid : Bool
  pub force_log : Bool

-- The time of day of `gmtime` and the milliseconds.
pub record Time : Type 0 where
  pub hour : ℕ
  pub min : ℕ
  pub sec : ℕ
  pub msec : ℕ

unfoldable pub print_time : Time → Bytes
print_time t =
    padded 2 t.hour
    ++ (b':'
        ∷ (padded 2 t.min ++ (b':' ∷ (padded 2 t.sec ++ (b'.' ∷ (padded 3 t.msec ++ codes "Z "))))))

-- `"%5d "`
unfoldable pub print_pid : ℕ → Bytes
print_pid pid = replicate (5 - length (siz2str pid)) b' ' ++ (siz2str pid ++ codes " ")

abbrev pub log_user : ℕ
log_user = 8

abbrev pub log_debug : ℕ
log_debug = 7

-- `LOG_USER || prio`, the first argument of `syslog`.
unfoldable pub syslog_prio : Loglevel → ℕ
unfolding level_prio
syslog_prio lvl =
    let prio = level_prio lvl in
    let capped = if ltb log_debug prio then log_debug else prio in
    if not (log_user == 0) || not (capped == 0) then 1 else 0

-- What `out` writes to its stream, and what it passes to `syslog`; `is_log` is
-- `logtype == LOGTYPE_LOG`.
unfoldable pub out :
    Options → Bool → Time → ℕ → Loglevel → Bytes → ℕ → Bytes → Bytes × Option (ℕ × Bytes)
unfolding head print_time print_pid syslog_prio
out o is_log time pid lvl fil lin fmt =
    let hd = head lvl fil lin in
    let number = if o.show_pid then print_pid pid else [] in
    let header =
      if o.show_header && is_log then print_time time ++ (number ++ (hd ++ codes " ")) else [] in
    let text = header ++ (fmt ++ (if o.show_newline then b'\n' ∷ [] else [])) in
    (text, if is_log || o.force_log then some (syslog_prio lvl, hd ++ (b' ' ∷ fmt)) else none)

-- `fromstring` reads back the level of a message's head, but for the two levels without a name, and
-- upper and lower case are the same to it.
pub fromstring-lvls : (l : Loglevel) → l ≢ logsilent → l ≢ logalways → fromstring (lvls l) ≡ l
unfolding fromstring lvls level_of lc str_eq to_lower
fromstring-lvls logsilent h k = absurd (h refl)
fromstring-lvls logalways h k = absurd (k refl)
fromstring-lvls logfatal h k = refl
fromstring-lvls logerror h k = refl
fromstring-lvls logwarn h k = refl
fromstring-lvls loginfo h k = refl
fromstring-lvls logverbose h k = refl
fromstring-lvls logdebug h k = refl
fromstring-lvls logdump h k = refl

-- Whatever the level is, `syslog` is called with the same priority, which is that of an alert.
pub syslog_prio_alert : (l : Loglevel) → syslog_prio l ≡ 1
unfolding syslog_prio
syslog_prio_alert l = refl
