-- ===== src/Jobman/Order/Best.antt =====
-- The jobs tried are the most eligible ones: lower priority numbers first, then earlier times.
use job.File.Name.{scan-print_time, scan-print_int}
use job.File.{base_name, NameAttrs, literal}
use job.Jobman.Order.{int_eq, job_key, key_less, jobcompare, how_many, tried, left}
use job.Jobman.Order.Keys.{key_less_irrefl, key_less_trans, key_less_split}
use job.Jobman.Retry.{int_lt}
use job.Jobman.Slots.{Attempt}
use job.Number.{ℤ, pos, negsuc, padded, print_int}
use job.Prelude.{
  ℕ, suc, zero, ◌+◌, Bool, true, false, ◌&&◌, ◌||◌, List, [], ◌∷◌, ◌++◌, Option, none, some, Bytes,
  codes, length, take, drop, take-append-drop, drop-length_append, ◌≡◌, refl, ap, sym, arith, ◌∙◌,
  ◌⊎◌, is_digit,
}
use job.Queman.Queues.{count-append}
use job.Text.Sets.{count}

job_key-base_name : (a : NameAttrs) → job_key (base_name a) ≡ some (a.run_time, a.priority)
unfolding job_key base_name literal
job_key-base_name a = rw (
  scan-print_time a.run_time
      (codes ".p"
        ++ (print_int a.priority ++ (codes ".j" ++ (padded 7 a.id ++ (codes "." ++ a.submitter)))))
      (unfold is_digit in refl),
  scan-print_int a.priority (codes ".j" ++ (padded 7 a.id ++ (codes "." ++ a.submitter)))
      (unfold is_digit in refl),
)

-- Of two jobs in one directory the one with the lower priority number comes first, and at the same
-- priority the one with the earlier time.
pub jobcompare-base_name :
    (qdir : Bytes) (a b : NameAttrs)
    → jobcompare (length qdir) (qdir ++ base_name a) (qdir ++ base_name b) ≡ (
        int_lt a.priority b.priority
        || int_eq a.priority b.priority && int_lt a.run_time b.run_time)
unfolding jobcompare key_less
jobcompare-base_name qdir a b =
    rw
      (
        drop-length_append qdir (base_name a),
        drop-length_append qdir (base_name b),
        job_key-base_name a,
        job_key-base_name b,
      )
      (flip (int_eq a.priority b.priority && int_lt a.run_time b.run_time)
        (int_lt a.priority b.priority))
  where
    flip : (x y : Bool) → (x || y) ≡ (y || x)
    flip true true = refl
    flip true false = refl
    flip false true = refl
    flip false false = refl

none_right : (o : Option (ℤ × ℤ)) → key_less o none ≡ false
unfolding key_less
none_right none = refl
none_right (some (t, p)) = refl

-- A name that `sscanf` does not read is neither before nor behind any other one.
pub jobcompare_stray :
    (jobcmpofs : ℕ) (x a : Bytes)
    → job_key (drop jobcmpofs x) ≡ none
    → (jobcompare jobcmpofs x a ≡ false) × (jobcompare jobcmpofs a x ≡ false)
unfolding jobcompare
jobcompare_stray ofs x a h =
    (rw h (unfold key_less in refl), rw h (none_right (job_key (drop ofs a))))

abbrev pub All {κ} : (Bytes → Type κ) → List Bytes → Type κ
All P [] = Unit
All P (x ∷ xs) = P x × All P xs

-- The strict weak order that `std::sort` asks for, on the items that satisfy `P`.
pub record IsStrictWeak (P : Bytes → Type 0) (less : Bytes → Bytes → Bool) : Type 0 where
  pub irrefl : (x : Bytes) → P x → less x x ≡ false
  pub trans :
      (x y z : Bytes) → P x → P y → P z → less x y ≡ true → less y z ≡ true → less x z ≡ true
  pub split :
      (x y z : Bytes) → P x → P y → P z → less x z ≡ true → (less x y ≡ true) ⊎ (less y z ≡ true)

-- No item is before an earlier one.
abbrev pub IsSorted : (Bytes → Bytes → Bool) → List Bytes → Type 0
IsSorted less [] = Unit
IsSorted less (x ∷ xs) = All (λ y. less y x ≡ false) xs × IsSorted less xs

-- What `std::sort` promises: if the items are ordered, they are sorted, and none comes or goes.
abbrev pub Sorts : ((Bytes → Bytes → Bool) → List Bytes → List Bytes) → Type 1
Sorts sort =
    (P : Bytes → Type 0) (less : Bytes → Bytes → Bool) (l : List Bytes)
    → IsStrictWeak P less
    → All P l
    → IsSorted less (sort less l) × ((q : Bytes) → count q (sort less l) ≡ count q l)

-- The name of a job file, from its offset on.
abbrev pub IsJob : ℕ → Bytes → Type 0
IsJob jobcmpofs x = (key : ℤ × ℤ) × (job_key (drop jobcmpofs x) ≡ some key)

jobcompare-IsStrictWeak : (ofs : ℕ) → IsStrictWeak (IsJob ofs) (jobcompare ofs)
unfolding jobcompare
jobcompare-IsStrictWeak ofs = record {
  irrefl = λ x p. rw p.1 (key_less_irrefl p.0.0 p.0.1);
  trans = λ x y z p q r h k.
      rw (p.1, r.1)
        (key_less_trans p.0.0 p.0.1 q.0.0 q.0.1 r.0.0 r.0.1 (sym (rw (p.1, q.1)) ∙ h)
          (sym (rw (q.1, r.1)) ∙ k));
  split = λ x y z p q r h.
      rw (p.1, q.1, r.1)
        (key_less_split p.0.0 p.0.1 q.0.0 q.0.1 r.0.0 r.0.1 (sym (rw (p.1, r.1)) ∙ h));
}

All-take-drop :
    (less : Bytes → Bytes → Bool) (n : ℕ) (l : List Bytes)
    → IsSorted less l
    → All (λ x. All (λ y. less y x ≡ false) (drop n l)) (take n l)
All-take-drop less zero l s = tt
All-take-drop less (suc n) [] s = tt
All-take-drop less (suc n) (x ∷ l) s =
    (All-drop (λ y. less y x ≡ false) n l s.0, All-take-drop less n l s.1)
  where
    All-drop : (P : Bytes → Type 0) (n : ℕ) (l : List Bytes) → All P l → All P (drop n l)
    All-drop P zero l a = a
    All-drop P (suc n) [] a = tt
    All-drop P (suc n) (x ∷ l) a = All-drop P n l a.1

-- A job that is tried may go before one that is left: its priority number is no higher, and at the
-- same priority its time is no later.
abbrev pub GoesFirst : ℤ × ℤ → ℤ × ℤ → Type 0
GoesFirst (a_time, a_prio) (b_time, b_prio) =
    (int_lt b_prio a_prio ≡ false) × (b_prio ≡ a_prio → int_lt b_time a_time ≡ false)

-- The same of the names.
abbrev pub NamesGoFirst : ℕ → Bytes → Bytes → Type 0
NamesGoFirst jobcmpofs x y =
    (kx ky : ℤ × ℤ)
    → job_key (drop jobcmpofs x) ≡ some kx
    → job_key (drop jobcmpofs y) ≡ some ky
    → GoesFirst kx ky

int_eq_refl : (n : ℤ) → int_eq n n ≡ true
unfolding int_eq
int_eq_refl (pos n) = ground arith
int_eq_refl (negsuc n) = ground arith

or_false : (x y : Bool) → (x || y) ≡ false → (x ≡ false) × (y ≡ false)
or_false false false h = (refl, refl)
or_false false true h = cc
or_false true y h = cc

key_less-GoesFirst : (kx ky : ℤ × ℤ) → key_less (some ky) (some kx) ≡ false → GoesFirst kx ky
unfolding key_less
key_less-GoesFirst (xt, xp) (yt, yp) h =
    let (same, less) = or_false (int_eq yp xp && int_lt yt xt) (int_lt yp xp) h in
    (
      less,
      λ e.
          (let k : int_eq yp xp ≡ true = ap (λ p. int_eq p xp) e ∙ int_eq_refl xp in
            sym (rw k refl) ∙ same),
    )

jobcompare-NamesGoFirst :
    (ofs : ℕ) (x y : Bytes) → jobcompare ofs y x ≡ false → NamesGoFirst ofs x y
unfolding jobcompare
jobcompare-NamesGoFirst ofs x y h kx ky ex ey =
    key_less-GoesFirst kx ky (sym (rw (ex, ey) refl) ∙ h)

All-map : {P Q : Bytes → Type 0} → ((x : Bytes) → P x → Q x) → (l : List Bytes) → All P l → All Q l
All-map f [] a = tt
All-map f (x ∷ l) a = (f x a.0, All-map f l a.1)

-- With a `std::sort` that keeps its promise, and pending files that are all jobs, a job that is tried
-- has no higher priority number than one that is left, and at the same priority no later time; and each
-- job is either tried or left.
pub tried-IsBest :
    (sort : (Bytes → Bytes → Bool) → List Bytes → List Bytes) (attempt : Bytes → Attempt)
    (maxjobs nrun ofs : ℕ) (pendjobs : List Bytes)
    → Sorts sort
    → All (IsJob ofs) pendjobs
    → (let sorted = sort (jobcompare ofs) pendjobs in
        All
          (λ x. All (NamesGoFirst ofs x) (left attempt maxjobs nrun sorted))
          (tried attempt maxjobs nrun sorted)
        × ((q : Bytes)
            → count q (tried attempt maxjobs nrun sorted)
                + count q (left attempt maxjobs nrun sorted)
              ≡ count q pendjobs))
unfolding tried left
tried-IsBest sort attempt maxjobs nrun ofs pendjobs s j =
    let sorted = sort (jobcompare ofs) pendjobs in
    let n = how_many attempt maxjobs nrun sorted in
    let (ordered, same) = s (IsJob ofs) (jobcompare ofs) pendjobs (jobcompare-IsStrictWeak ofs) j in
    (
      All-map (λ x a. All-map (λ y b. jobcompare-NamesGoFirst ofs x y b) (drop n sorted) a)
          (take n sorted) (All-take-drop (jobcompare ofs) n sorted ordered),
      λ q.
          (sym (count-append q (take n sorted) (drop n sorted))
            ∙ ap (count q) (take-append-drop n sorted)
            ∙ same q),
    )
