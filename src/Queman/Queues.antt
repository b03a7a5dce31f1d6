-- ===== src/Queman/Queues.antt =====
-- The lists of known and failed queues.
use job.Launch.{Pad, Table, LaunchError, err_ok, Forked, start}
use job.Prelude.{
  ℕ, ◌+◌, ◌≤◌, ◌<◌, true, false, List, [], ◌∷◌, ◌++◌, Bytes, ◌≡◌, refl, ap, ◌∙◌, arith, ltb,
  if◌then◌else◌, str_eq, str_eq_iff, Bool-cases, inl, inr,
}
use job.Queman.{Queman, start_new, started, stop_gone, new_pad, check_queues}
use job.Text.Sets.{diff, has, count, diff_loop, has-diff}

pub count-append : (q : Bytes) (a b : List Bytes) → count q (a ++ b) ≡ count q a + count q b
count-append q [] b = omega arith
count-append q (x ∷ a) b = omega (arith, count-append q a b)

has-count : (a : List Bytes) (q : Bytes) → has a q ≡ ltb 0 (count q a)
unfolding has
has-count [] q = refl
has-count (x ∷ a) q = rw (has-count a q) (elim (Bool-cases (str_eq x q)) [
  | inl e ↦ rw e (ground arith)
  | inr e ↦ rw e (let z : 0 + count q a ≡ count q a = omega arith in rw z)
])

count-diff_loop :
    (c a b : List Bytes) (q : Bytes)
    → count q (diff_loop c a b) ≡ count q c + (if has b q then 0 else count q a)
unfolding diff_loop
count-diff_loop c [] b q = ground arith
count-diff_loop c (x ∷ a) b q = elim (Bool-cases (str_eq x q)) [
  | inl e ↦
      let same : x ≡ q = (str_eq_iff x q).0 e in
      rw e (
        ground (
          arith,
          ap (has b) same,
          count-diff_loop c a b q,
          count-diff_loop (c ++ x ∷ []) a b q,
          count-append q c (x ∷ []),
          e,
        ))
  | inr e ↦ rw e (
      ground (
        arith,
        count-diff_loop c a b q,
        count-diff_loop (c ++ x ∷ []) a b q,
        count-append q c (x ∷ []),
        e,
      ))
]

count-diff :
    (a b : List Bytes) (q : Bytes) → count q (diff a b) ≡ (if has b q then 0 else count q a)
unfolding diff
count-diff a b q = count-diff_loop [] a b q ∙ omega arith

-- How often the queue is known or failed.
abbrev pub listed : Bytes → Queman → ℕ
listed q s = count q s.known_queues + count q s.failed_queues

count-started :
    (x q : Bytes) (r : Pad Bytes × Table Bytes × LaunchError) (s : Queman)
    → listed q (started x r s) ≡ listed q s + (if str_eq x q then 1 else 0)
unfolding started
count-started x q (p, t, err_ok) s = omega (arith, count-append q s.known_queues (x ∷ []))
count-started x q (p, t, _) s = omega (arith, count-append q s.failed_queues (x ∷ []))

count-start_new :
    (fork : Bytes → Forked) (qs : List Bytes) (q : Bytes) (s : Queman)
    → listed q (start_new fork qs s) ≡ listed q s + count q qs
unfolding start_new
count-start_new fork [] q s = omega arith
count-start_new fork (x ∷ qs) q s = omega (
  arith,
  count-start_new fork qs q (started x (start 0 (fork x) (new_pad x) s.table) s),
  count-started x q (start 0 (fork x) (new_pad x) s.table) s,
)

-- No queue is known twice, failed twice, or both.
abbrev pub IsListed : Queman → Type 0
IsListed s = (q : Bytes) → listed q s ≤ 1

-- The names that `scandir` gives are distinct.
abbrev pub Distinct : List Bytes → Type 0
Distinct qs = (q : Bytes) → count q qs ≤ 1

-- What is left of the failed queues at a check.
abbrev still_failed : List Bytes → Queman → List Bytes
still_failed curr s = diff s.failed_queues (diff s.known_queues curr)

listed-check_queues :
    (fork : Bytes → Forked) (curr : List Bytes) (s : Queman) (q : Bytes)
    → listed q (check_queues fork curr s)
      ≡ count q s.known_queues
        + count q (still_failed curr s)
        + (if has (still_failed curr s) q
            then 0
            else if has s.known_queues q
            then 0
            else count q curr)
unfolding check_queues
listed-check_queues fork curr s q =
    let failed = still_failed curr s in
    count-start_new fork (diff (diff curr s.known_queues) failed) q _
    ∙ ap (λ n. count q s.known_queues + count q failed + n)
        (count-diff (diff curr s.known_queues) failed q
          ∙ ap (λ n. if has failed q then 0 else n) (count-diff curr s.known_queues q))

count-diff-le : (a b : List Bytes) (q : Bytes) → count q (diff a b) ≤ count q a
count-diff-le a b q = ground (arith, count-diff a b q)

pub check_queues-listed :
    (fork : Bytes → Forked) (curr : List Bytes) (s : Queman)
    → Distinct curr
    → IsListed s
    → IsListed (check_queues fork curr s)
      × ((q : Bytes) → has curr q ≡ true → listed q (check_queues fork curr s) ≡ 1)
check_queues-listed fork curr s d v =
    (λ q. ground (arith, facts q), λ q h. ground (arith, facts q, has-count curr q, h))
  where
    facts :
        (q : Bytes)
        → (listed q (check_queues fork curr s)
            ≡ count q s.known_queues
              + count q (still_failed curr s)
              + (if has (still_failed curr s) q
                  then 0
                  else if has s.known_queues q
                  then 0
                  else count q curr))
          × (has (still_failed curr s) q ≡ ltb 0 (count q (still_failed curr s)))
          × (has s.known_queues q ≡ ltb 0 (count q s.known_queues))
          × (count q (still_failed curr s) ≤ count q s.failed_queues)
          × (count q curr ≤ 1)
          × (listed q s ≤ 1)
    facts q = (
      listed-check_queues fork curr s q,
      has-count (still_failed curr s) q,
      has-count s.known_queues q,
      count-diff-le s.failed_queues (diff s.known_queues curr) q,
      d q,
      v q,
    )

-- Where no queue is listed twice, a check that finds distinct queues lists each of them exactly
-- once, as known or as failed, and still lists none twice.
pub check_queues-IsListed :
    (fork : Bytes → Forked) (curr : List Bytes) (s : Queman) (q : Bytes)
    → Distinct curr
    → IsListed s
    → has curr q ≡ true
    → IsListed (check_queues fork curr s) × (listed q (check_queues fork curr s) ≡ 1)
check_queues-IsListed fork curr s q d v h =
    ((check_queues-listed fork curr s d v).0, (check_queues-listed fork curr s d v).1 q h)

started_failed :
    (x q : Bytes) (r : Pad Bytes × Table Bytes × LaunchError) (s : Queman)
    → count q s.failed_queues ≤ count q (started x r s).failed_queues
unfolding started
started_failed x q (p, t, err_ok) s = omega arith
started_failed x q (p, t, _) s = omega (arith, count-append q s.failed_queues (x ∷ []))

start_new_failed :
    (fork : Bytes → Forked) (qs : List Bytes) (q : Bytes) (s : Queman)
    → count q s.failed_queues ≤ count q (start_new fork qs s).failed_queues
unfolding start_new
start_new_failed fork [] q s = omega arith
start_new_failed fork (x ∷ qs) q s = omega (
  arith,
  start_new_failed fork qs q (started x (start 0 (fork x) (new_pad x) s.table) s),
  started_failed x q (start 0 (fork x) (new_pad x) s.table) s,
)

-- While no queue is both known and failed, a failed queue stays failed at every check, whether its
-- directory is still there or not.
pub check_queues_failed :
    (fork : Bytes → Forked) (curr : List Bytes) (s : Queman) (q : Bytes)
    → IsListed s
    → has s.failed_queues q ≡ true
    → has (check_queues fork curr s).failed_queues q ≡ true
unfolding check_queues
check_queues_failed fork curr s q v h =
    let there : 0 < count q s.failed_queues = ground (arith, has-count s.failed_queues q) in
    let unknown : count q s.known_queues ≡ 0 = omega (arith, v q) in
    let not_gone : has (diff s.known_queues curr) q ≡ false =
      ground (arith, has-diff s.known_queues curr q, has-count s.known_queues q) in
    let left : count q (still_failed curr s) ≡ count q s.failed_queues =
      count-diff s.failed_queues (diff s.known_queues curr) q ∙ rw not_gone in
    still_there _
      (start_new_failed fork (diff (diff curr s.known_queues) (still_failed curr s)) q (record s {
        failed_queues = still_failed curr s;
        killed = s.killed ++ stop_gone s.table (diff s.known_queues curr);
      }))
      left there
  where
    still_there : {a b : ℕ} (qs : List Bytes) → a ≤ count q qs → a ≡ b → 0 < b → has qs q ≡ true
    still_there qs l e p = ground (arith, has-count qs q)
