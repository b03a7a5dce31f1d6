-- ===== src/Jobman/Retry.antt =====
-- `try_done`: what becomes of a job when its process has ended; and the part of `run_a_job` that
-- counts the try.
use job.File.{State, pend, tied, done, PathAttrs, state2str}
use job.Multipart.Section.{Section, set_tag}
use job.Number.{ℤ, pos, negsuc, print_int, siz2str}
use job.Prelude.{
  ℕ, ◌+◌, ◌-◌, ◌*◌, Bool, true, false, not, ◌&&◌, ◌||◌, List, [], ◌∷◌, ◌++◌, ◌≡◌, refl, ap, ◌∙◌,
  arith, Bytes, codes, ltb, leb, ◌==◌, if◌then◌else◌, ◌⊎◌, inl, inr, Bool-cases, length,
  length-append,
}

-- What `try_done` reads and writes of the job file.
pub record Job : Type 0 where
  pub path : PathAttrs
  pub try_count : ℤ
  pub try_limit : ℤ
  pub closed : Bool
  pub sections : List Section

abbrev pub eagain : ℕ
eagain = 11

abbrev pub einprogress : ℕ
einprogress = 115

abbrev pub sigcont : ℕ
sigcont = 18

-- `<` on `int`.
unfoldable pub int_lt : ℤ → ℤ → Bool
int_lt (pos a) (pos b) = ltb a b
int_lt (pos a) (negsuc b) = false
int_lt (negsuc a) (pos b) = true
int_lt (negsuc a) (negsuc b) = ltb b a

-- `time(0) + 60*jf->try_count`.
unfoldable pub retry_time : ℕ → ℤ → ℤ
retry_time now (pos n) = pos (now + 60 * n)
retry_time now (negsuc n) =
    if leb (60 * (n + 1)) now then pos (now - 60 * (n + 1)) else negsuc (60 * (n + 1) - now - 1)

unfoldable pub is_retry : Job → ℕ → ℕ → Bool
unfolding int_lt
is_retry jf xsig xstat =
    int_lt jf.try_count jf.try_limit
    && (xsig == 0 && xstat == eagain || xsig == sigcont && xstat == 0)

unfoldable pub is_tied : Job → ℕ → ℕ → Bool
unfolding int_lt
is_tied jf xsig xstat = int_lt jf.try_count jf.try_limit && (xsig == 0 && xstat == einprogress)

-- The section `result`; `end_time` is the current time as `tim2str` prints it.
unfoldable pub result_section : Job → Bytes → ℕ → ℕ → State → Section
unfolding set_tag
result_section jf end_time xsig xstat st = set_tag (codes "State") (state2str st) (
    set_tag (codes "__BODY__") [] (
      set_tag (codes "Exit-Status") (siz2str xstat) (
        set_tag (codes "Exit-Signal") (siz2str xsig) (
          set_tag (codes "End-Time") end_time (
            set_tag (codes "Try-Count") (print_int jf.try_count)
              (set_tag (codes "Section") (codes "result") []))))))

abbrev moved : Job → State → ℤ → PathAttrs
moved jf st t = record (jf.path) { state = st; attrs = record (jf.path.attrs) { run_time = t } }

-- The job as `try_done` stores it, at the time `now`, when it could be loaded; where it cannot be
-- loaded the handler stores nothing.
unfoldable pub try_done : ℕ → Bytes → ℕ → ℕ → Job → Job
try_done now end_time xsig xstat jf =
    let again = is_retry jf xsig xstat in
    let st = if again then pend else if is_tied jf xsig xstat then tied else done in
    let t =
      if again
      then retry_time now jf.try_count
      else if is_tied jf xsig xstat
      then jf.path.attrs.run_time
      else pos now in
    record jf {
      path = moved jf st t;
      closed = not again;
      sections = jf.sections ++ result_section jf end_time xsig xstat st ∷ [];
    }

-- Two exits ask for another try: exit status `EAGAIN`, or `SIGCONT`.
abbrev pub AsksRetry : ℕ → ℕ → Type 0
AsksRetry xsig xstat = ((xsig ≡ 0) × (xstat ≡ eagain)) ⊎ ((xsig ≡ sigcont) × (xstat ≡ 0))

abbrev pub AsksTie : ℕ → ℕ → Type 0
AsksTie xsig xstat = (xsig ≡ 0) × (xstat ≡ einprogress)

-- What an exit makes of a job.
pub data Verdict (now : ℕ) (xsig xstat : ℕ) (jf after : Job) : Type 0 where
  requeued :
      int_lt jf.try_count jf.try_limit ≡ true
      → AsksRetry xsig xstat
      → after.path.state ≡ pend
      → ((n : ℕ) → jf.try_count ≡ pos n → after.path.attrs.run_time ≡ pos (now + 60 * n))
      → after.closed ≡ false
      → Verdict now xsig xstat jf after
  tied_to :
      int_lt jf.try_count jf.try_limit ≡ true
      → AsksTie xsig xstat
      → after.path.state ≡ tied
      → after.path.attrs.run_time ≡ jf.path.attrs.run_time
      → after.closed ≡ true
      → Verdict now xsig xstat jf after
  finished :
      (int_lt jf.try_count jf.try_limit ≡ false)
        ⊎ ((AsksRetry xsig xstat → ⊥) × (AsksTie xsig xstat → ⊥))
      → after.path.state ≡ done
      → after.path.attrs.run_time ≡ pos now
      → after.closed ≡ true
      → Verdict now xsig xstat jf after

AsksRetry-true :
    (x y : ℕ) → (x == 0 && y == eagain || x == sigcont && y == 0) ≡ true → AsksRetry x y
AsksRetry-true x y h = ground arith

AsksRetry-false :
    (x y : ℕ) → (x == 0 && y == eagain || x == sigcont && y == 0) ≡ false → AsksRetry x y → ⊥
AsksRetry-false x y h q = ground arith

AsksTie-true : (x y : ℕ) → (x == 0 && y == einprogress) ≡ true → AsksTie x y
AsksTie-true x y h = ground arith

AsksTie-false : (x y : ℕ) → (x == 0 && y == einprogress) ≡ false → AsksTie x y → ⊥
AsksTie-false x y h q = ground arith

and_left : (a b : Bool) → (a && b) ≡ true → a ≡ true
and_left true b h = refl
and_left false b h = h

and_right : (a b : Bool) → (a && b) ≡ true → b ≡ true
and_right true b h = h
and_right false b h = ground arith

and_false : (a b : Bool) → (a && b) ≡ false → a ≡ true → b ≡ false
and_false true b h e = h
and_false false b h e = ground arith

retry_lem :
    (jf : Job) (x y : ℕ)
    → is_retry jf x y ≡ true
    → (int_lt jf.try_count jf.try_limit ≡ true) × AsksRetry x y
unfolding is_retry
retry_lem jf x y h = (
  and_left (int_lt jf.try_count jf.try_limit) _ h,
  AsksRetry-true x y (and_right (int_lt jf.try_count jf.try_limit) _ h),
)

tied_lem :
    (jf : Job) (x y : ℕ)
    → is_tied jf x y ≡ true
    → (int_lt jf.try_count jf.try_limit ≡ true) × AsksTie x y
unfolding is_tied
tied_lem jf x y h = (
  and_left (int_lt jf.try_count jf.try_limit) _ h,
  AsksTie-true x y (and_right (int_lt jf.try_count jf.try_limit) _ h),
)

finished_lem :
    (jf : Job) (x y : ℕ)
    → is_retry jf x y ≡ false
    → is_tied jf x y ≡ false
    → (int_lt jf.try_count jf.try_limit ≡ false) ⊎ ((AsksRetry x y → ⊥) × (AsksTie x y → ⊥))
unfolding is_retry is_tied
finished_lem jf x y h k = elim (Bool-cases (int_lt jf.try_count jf.try_limit)) [
  | inl e ↦ inr (
    AsksRetry-false x y (and_false (int_lt jf.try_count jf.try_limit) _ h e),
    AsksTie-false x y (and_false (int_lt jf.try_count jf.try_limit) _ k e),
  )
  | inr e ↦ inl e
]

verdict :
    (now : ℕ) (end_time : Bytes) (x y : ℕ) (jf : Job)
    → Verdict now x y jf (try_done now end_time x y jf)
unfolding try_done
verdict now end_time x y jf = elim (Bool-cases (is_retry jf x y)) [
  | inl r ↦
      requeued (retry_lem jf x y r).0 (retry_lem jf x y r).1 (rw r)
        (λ n e. rw r (ap (retry_time now) e ∙ (unfold retry_time in refl))) (rw r)
  | inr r ↦ elim (Bool-cases (is_tied jf x y)) [
    | inl t ↦ tied_to (tied_lem jf x y t).0 (tied_lem jf x y t).1 (rw (r, t)) (rw (r, t)) (rw r)
    | inr t ↦ finished (finished_lem jf x y r t) (rw (r, t)) (rw (r, t)) (rw r)
  ]
]

-- With tries left, a job whose process ends with `EAGAIN` or on `SIGCONT` goes back to pending,
-- later by a minute for each of the tries that it has had (`try_count`, where it is not negative), and
-- stays open; one that ends with `EINPROGRESS` is tied, at its
-- old time; any other end, and any end with no try left, makes it done now. In each case it gets
-- one more section, and keeps its id, queue, priority, submitter and counts.
pub try_done-Verdict :
    (now : ℕ) (end_time : Bytes) (xsig xstat : ℕ) (jf : Job)
    → Verdict now xsig xstat jf (try_done now end_time xsig xstat jf)
      × (length (try_done now end_time xsig xstat jf).sections ≡ length jf.sections + 1)
      × ((try_done now end_time xsig xstat jf).path.attrs.id ≡ jf.path.attrs.id)
      × ((try_done now end_time xsig xstat jf).path.queue ≡ jf.path.queue)
      × ((try_done now end_time xsig xstat jf).path.attrs.priority ≡ jf.path.attrs.priority)
      × ((try_done now end_time xsig xstat jf).path.attrs.submitter ≡ jf.path.attrs.submitter)
      × ((try_done now end_time xsig xstat jf).try_count ≡ jf.try_count)
      × ((try_done now end_time xsig xstat jf).try_limit ≡ jf.try_limit)
unfolding try_done
try_done-Verdict now end_time xsig xstat jf = (
  verdict now end_time xsig xstat jf,
  length-append jf.sections _,
  refl,
  refl,
  refl,
  refl,
  refl,
  refl,
)
