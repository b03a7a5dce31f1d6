-- ===== src/Queman/Rounds.antt =====
-- The lists of known and failed queues from round to round.
use job.Launch.{Pad, Table, ChildStatus, signaled, exited, find_pad, reap, reap_one}
use job.Prelude.{
  ℕ, ◌+◌, ◌≤◌, Bool, true, false, List, [], ◌∷◌, Option, none, some, Bytes, ◌≡◌, ◌≢◌, arith, leb,
  if◌then◌else◌, str_eq, str_eq_iff, Bool-cases, inl, inr,
}
use job.Queman.{Queman, q_done, reap_managers, check_queues, Timers, Round, wake, watch_round}
use job.Text.Sets.{remove, removed, count}
use job.Queman.Queues.{IsListed, Distinct, check_queues-listed}

count-remove-le : (a : List Bytes) (x q : Bytes) → count q (remove a x).0 ≤ count q a
count-remove-le a x q = elim (Bool-cases (str_eq q x)) [
  | inl e ↦ rw ((str_eq_iff q x).0 e) (omega (arith, (removed a x).1))
  | inr e ↦
      let other : q ≢ x = λ h. (let f : str_eq q x ≡ true = (str_eq_iff q x).1 h in cc) in
      omega (arith, (removed a x).2 q other)
]

reap_one-count-le :
    (o : Option (Pad Bytes)) (pid : ℕ) (st : ChildStatus) (known : List Bytes) (t : Table Bytes)
    (q : Bytes)
    → count q (reap_one q_done o pid st known t).0 ≤ count q known
unfolding reap_one q_done
reap_one-count-le none pid st known t q = omega arith
reap_one-count-le (some p) pid (signaled n) known t q = elim (Bool-cases p.has_callback) [
  | inl e ↦ rw e (count-remove-le known p.ua q)
  | inr e ↦ rw e (omega arith)
]
reap_one-count-le (some p) pid (exited n) known t q = elim (Bool-cases p.has_callback) [
  | inl e ↦ rw e (count-remove-le known p.ua q)
  | inr e ↦ rw e (omega arith)
]

reap-count-le :
    (ends : List (ℕ × ChildStatus)) (known : List Bytes) (t : Table Bytes) (q : Bytes)
    → count q (reap q_done ends known t).0 ≤ count q known
unfolding reap
reap-count-le [] known t q = omega arith
reap-count-le ((pid, st) ∷ ends) known t q =
    let r = reap_one q_done (find_pad t pid) pid st known t in
    omega (arith, reap-count-le ends r.0 r.1 q, reap_one-count-le (find_pad t pid) pid st known t q)

reap_managers-IsListed :
    (ends : List (ℕ × ChildStatus)) (s : Queman) → IsListed s → IsListed (reap_managers ends s)
unfolding reap_managers
reap_managers-IsListed ends s v q = omega (arith, v q, reap-count-le ends s.known_queues s.table q)

-- Any number of rounds, each with its own time, children and queues.
unfoldable pub watch : ℕ → List Round → Timers × Queman → Timers × Queman
watch next_check [] acc = acc
watch next_check (r ∷ rs) acc = watch next_check rs (watch_round next_check r acc)

abbrev pub AllDistinct : List Round → Type 0
AllDistinct [] = Unit
AllDistinct (r ∷ rs) = Distinct r.queues × AllDistinct rs

watch_round-IsListed :
    (next_check : ℕ) (r : Round) (t : Timers) (s : Queman)
    → Distinct r.queues
    → IsListed s
    → IsListed (watch_round next_check r (t, s)).1
unfolding watch_round
watch_round-IsListed next_check r t s d v =
    let t1 = wake r.now t in
    let reaps = leb t1.when_reap r.now in
    let v1 = reaped reaps in
    checked (leb (if reaps then record t1 { when_reap = r.now + 1 } else t1).when_check r.now) _ v1
  where
    reaped : (b : Bool) → IsListed (if b then reap_managers r.ends s else s)
    reaped true = reap_managers-IsListed r.ends s v
    reaped false = v

    checked :
        (b : Bool) (s1 : Queman)
        → IsListed s1
        → IsListed (if b then check_queues r.fork r.queues s1 else s1)
    checked true s1 w = (check_queues-listed r.fork r.queues s1 d w).0
    checked false s1 w = w

-- If no queue is listed twice at first and each round finds distinct queues, then after all rounds
-- no queue is known twice, failed twice or both, whatever the forks, the ended children and the
-- times are.
pub watch-IsListed :
    (next_check : ℕ) (rs : List Round) (t : Timers) (s : Queman)
    → AllDistinct rs
    → IsListed s
    → IsListed (watch next_check rs (t, s)).1
unfolding watch
watch-IsListed next_check [] t s d v = v
watch-IsListed next_check (r ∷ rs) t s d v =
    watch-IsListed next_check rs (watch_round next_check r (t, s)).0
      (watch_round next_check r (t, s)).1 d.1 (watch_round-IsListed next_check r t s d.0 v)
