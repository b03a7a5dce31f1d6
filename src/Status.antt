-- ===== src/Status.antt =====
-- src/job/status.cxx: an error number or an error text, with the causes that follow it. The messages
-- of `strerror` and `gai_strerror` are arguments.
use job.Number.{ℤ, pos, negsuc}
use job.Prelude.{
  ℕ, zero, suc, ◌+◌, ◌≡◌, ◌≢◌, refl, Bool, true, false, not, ◌&&◌, ◌||◌, [], ◌∷◌, ◌++◌, Bytes,
  codes, leb, ◌==◌, if◌then◌else◌, str_eq, length, take, arith, append_assoc,
}

pub record Status : Type 0 where
  pub errval : ℤ
  pub errstr : Bytes

abbrev pub err_ok : ℤ
err_ok = pos 0

abbrev pub err_use_str : ℤ
err_use_str = negsuc 0

-- `set(e, cause)`.
unfoldable pub set_number : ℤ → Bytes → Status
set_number e cause = record { errval = e; errstr = cause }

-- `set(s, cause)`.
unfoldable pub set_text : Bytes → Bytes → Status
set_text s cause = record {
  errval = if str_eq s [] || str_eq s (codes "OK") then err_ok else err_use_str;
  errstr = if length cause == 0 then s else s ++ (codes ": " ++ cause);
}

unfoldable pub is_ok : ℤ → Bool
is_ok (pos n) = n == 0
is_ok (negsuc n) = false

unfoldable pub is_error : ℤ → Bool
unfolding is_ok
is_error e = not (is_ok e)

-- The separator that `tostr` puts before the causes.
unfoldable pub colon : Bytes → Bytes
colon errstr =
    if leb 2 (length errstr) && not (str_eq (take 2 errstr) (codes "; ")) then codes ": " else []

-- What `tostr` makes of a message and the causes.
unfoldable pub with_cause : Bytes → Bytes → Bytes
unfolding colon
with_cause s errstr = if length errstr == 0 then s else s ++ (colon errstr ++ errstr)

and_no : (b : Bool) → (b && false) ≡ false
and_no true = refl
and_no false = refl

join_parts : (s k u w : Bytes) → s ++ (k ++ (u ++ w)) ≡ (s ++ (k ++ u)) ++ w
join_parts s k u w = simp append_assoc

with_cause-append :
    (s c t : Bytes)
    → length c ≢ 1
    → with_cause s (c ++ (codes "; " ++ t)) ≡ with_cause s c ++ (codes "; " ++ t)
unfolding with_cause colon str_eq
with_cause-append s [] t n =
    let z : (suc (suc (length t)) == 0) ≡ false = ground arith in
    let b : (leb 2 (suc (suc (length t))) && false) ≡ false =
      and_no (leb 2 (suc (suc (length t)))) in
    rw (z, b)
with_cause-append s (x ∷ []) t n = absurd (n refl)
with_cause-append s (x ∷ y ∷ c) t n =
    let z : (suc (suc (length (c ++ (codes "; " ++ t)))) == 0) ≡ false = ground arith in
    let z' : (suc (suc (length c)) == 0) ≡ false = ground arith in
    let b : leb 2 (suc (suc (length (c ++ (codes "; " ++ t))))) ≡ true = ground arith in
    let b' : leb 2 (suc (suc (length c))) ≡ true = ground arith in
    rw (z, z', b, b') (join_parts s _ (x ∷ y ∷ c) (codes "; " ++ t))

module _ (strerror gai_strerror : ℕ → Bytes) where
  -- The message of an error number that is neither `ERR_OK` nor `ERR_USE_STR`; `gai_strerror` is
  -- given by the size of its negative argument.
  unfoldable pub message : ℤ → Bytes
  message (pos n) =
      if n == 193
      then codes "Job locked by another"
      else if n == 192
      then codes "Job moved by another"
      else if n == 194
      then codes "Job initialising"
      else if n == 195
      then codes "Job pending"
      else strerror n
  message (negsuc n) = gai_strerror (n + 1)

  unfoldable pub tostr_of : ℤ → Bytes → Bytes
  unfolding message with_cause
  tostr_of (pos zero) errstr = codes "OK"
  tostr_of (negsuc zero) errstr = errstr
  tostr_of e errstr = with_cause (message e) errstr

  unfoldable pub tostr : Status → Bytes
  unfolding tostr_of
  tostr s = tostr_of s.errval s.errstr

  -- `set(e, prior)` and `set(s, prior)`: also a prior status without an error is named as a cause.
  unfoldable pub set_number_status : ℤ → Status → Status
  unfolding tostr
  set_number_status e prior = record { errval = e; errstr = tostr prior }

  unfoldable pub set_text_status : Bytes → Status → Status
  unfolding tostr
  set_text_status s prior = record {
    errval = if str_eq s [] || str_eq s (codes "OK") then err_ok else err_use_str;
    errstr = s ++ (codes ": " ++ tostr prior);
  }

  -- `c_str()`: what stands in `laststr`, up to its NUL; the texts of a status have none.
  unfoldable pub c_str : Status → Bytes
  unfolding tostr
  c_str s = take 1023 (tostr s)

  -- The three `operator +=`.
  unfoldable pub append_text : Status → Bytes → Status
  unfolding is_ok set_text
  append_text s t =
      if is_ok s.errval then set_text t [] else record s { errstr = s.errstr ++ (codes "; " ++ t) }

  unfoldable pub append_number : Status → ℤ → Status
  unfolding is_ok set_number tostr
  append_number s e =
      if is_ok s.errval
      then set_number e []
      else record s { errstr = s.errstr ++ (codes "; " ++ tostr (set_number e [])) }

  unfoldable pub append_status : Status → Status → Status
  unfolding is_ok tostr
  append_status s p =
      if is_ok s.errval then p else record s { errstr = s.errstr ++ (codes "; " ++ tostr p) }

  tostr_of-append :
      (e : ℤ) (c t : Bytes)
      → is_ok e ≡ false
      → length c ≢ 1
      → tostr_of e (c ++ (codes "; " ++ t)) ≡ tostr_of e c ++ (codes "; " ++ t)
  unfolding tostr_of is_ok
  tostr_of-append (pos zero) c t h n = ground arith
  tostr_of-append (negsuc zero) c t h n = refl
  tostr_of-append (pos (suc k)) c t h n = with_cause-append (message (pos (suc k))) c t n
  tostr_of-append (negsuc (suc k)) c t h n = with_cause-append (message (negsuc (suc k))) c t n

  -- Adding to an error, by any of the three `+=`, keeps its number and adds what was added to its
  -- text, after a semicolon; the text of causes must not be a single byte.
  pub tostr-append :
      (s p : Status) (t : Bytes) (e : ℤ)
      → is_ok s.errval ≡ false
      → length s.errstr ≢ 1
      → (tostr (append_text s t) ≡ tostr s ++ (codes "; " ++ t))
        × (tostr (append_number s e) ≡ tostr s ++ (codes "; " ++ tostr (set_number e [])))
        × (tostr (append_status s p) ≡ tostr s ++ (codes "; " ++ tostr p))
        × ((append_text s t).errval ≡ s.errval)
        × ((append_number s e).errval ≡ s.errval)
        × ((append_status s p).errval ≡ s.errval)
  unfolding append_text append_number append_status tostr
  tostr-append s p t e h n = (
    rw h (tostr_of-append s.errval s.errstr t h n),
    rw h (tostr_of-append s.errval s.errstr (tostr (set_number e [])) h n),
    rw h (tostr_of-append s.errval s.errstr (tostr p) h n),
    rw h,
    rw h,
    rw h,
  )
