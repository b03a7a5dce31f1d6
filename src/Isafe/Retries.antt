-- ===== src/Isafe/Retries.antt =====
-- What a retried call has seen when it returns, and when it does return.
use job.Isafe.{
  Reply, value, fail, eintr, Outcome, retry, busy_try_limit, is_busy, is_busy_or_io, close,
}
use job.Isafe
use job.Prelude.{
  ℕ, suc, ◌+◌, ◌-◌, ◌≤◌, ◌<◌, Bool, true, false, List, [], ◌∷◌, ◌++◌, Option, some, ◌==◌,
  if◌then◌else◌, ◌≡◌, ◌≢◌, refl, ap, subst, some_injective, ◌⊎◌, inl, inr, arith, Bool-cases,
}

-- Replies that lead to another call, and how many of them were busy ones, each with its sleep.
pub data Retried (again : ℕ → Bool) : List Reply → ℕ → Type 0 where
  nil : Retried again [] 0
  interrupted :
      {e n : ℕ} {rs : List Reply} → e ≡ eintr → Retried again rs n → Retried again (fail e ∷ rs) n
  busy :
      {e n : ℕ} {rs : List Reply}
      → e ≢ eintr
      → again e ≡ true
      → Retried again rs n
      → Retried again (fail e ∷ rs) (suc n)

-- What ends the calls: a value, or an error that is no interruption, when the tries are used up or
-- the error is not one to retry.
abbrev pub IsFinal : (ℕ → Bool) → ℕ → Reply → Type 0
IsFinal again left (value v) = Unit
IsFinal again left (fail e) = (e ≢ eintr) × ((left ≡ 0) ⊎ (again e ≡ false))

pub record Ends (again : ℕ → Bool) (num slept : ℕ) (rs : List Reply) (o : Outcome) : Type 0 where
  pub used : List Reply
  pub busies : ℕ
  pub retried : Retried again used busies
  pub splits : rs ≡ used ++ (o.result ∷ o.rest)
  pub slept_is : o.sleeps ≡ slept + busies
  pub within : busies ≤ num
  pub final : IsFinal again (num - busies) o.result

module _ (again : ℕ → Bool) where
  Ends-now :
      (num slept : ℕ) (r : Reply) (rest : List Reply)
      → IsFinal again num r
      → Ends again num slept (r ∷ rest) (record { result = r; rest = rest; sleeps = slept })
  Ends-now num slept r rest f = record {
    used = [];
    busies = 0;
    retried = nil;
    splits = refl;
    slept_is = omega arith;
    within = omega arith;
    final = let z : num - 0 ≡ num = omega arith in rw z f;
  }

  Ends-interrupted :
      (num slept e : ℕ) (rs : List Reply) (o : Outcome)
      → e ≡ eintr
      → Ends again num slept rs o
      → Ends again num slept (fail e ∷ rs) o
  Ends-interrupted num slept e rs o i v = record {
    used = fail e ∷ v.used;
    busies = v.busies;
    retried = interrupted i v.retried;
    splits = ap (◌∷◌ (fail e)) v.splits;
    slept_is = v.slept_is;
    within = v.within;
    final = v.final;
  }

  Ends-busy :
      (num slept e : ℕ) (rs : List Reply) (o : Outcome)
      → e ≢ eintr
      → again e ≡ true
      → 0 < num
      → Ends again (num - 1) (suc slept) rs o
      → Ends again num slept (fail e ∷ rs) o
  Ends-busy num slept e rs o i a p v = record {
    used = fail e ∷ v.used;
    busies = suc v.busies;
    retried = busy i a v.retried;
    splits = ap (◌∷◌ (fail e)) v.splits;
    slept_is = omega (arith, v.slept_is);
    within = omega (arith, v.within);
    final = let z : num - suc v.busies ≡ num - 1 - v.busies = omega arith in rw z v.final;
  }

  retry-Ends :
      (num slept : ℕ) (rs : List Reply) {o : Outcome}
      → retry again num slept rs ≡ some o
      → Ends again num slept rs o
  unfolding retry
  retry-Ends num slept [] h = cc
  retry-Ends num slept (value v ∷ rest) {o} h =
      subst (Ends again num slept (value v ∷ rest)) (some_injective h)
        (Ends-now num slept (value v) rest tt)
  retry-Ends num slept (fail e ∷ rest) {o} h = elim (Bool-cases (e == eintr)) [
    | inl i ↦
        Ends-interrupted num slept e rest o (ground arith) (retry-Ends num slept rest (rw i at h))
    | inr i ↦ elim (Bool-cases (num == 0)) [
      | inl z ↦
          subst (Ends again num slept (fail e ∷ rest)) (some_injective (rw (i, z) at h))
            (Ends-now num slept (fail e) rest (ground arith, inl (ground arith)))
      | inr z ↦ elim (Bool-cases (again e)) [
        | inl a ↦
            Ends-busy num slept e rest o (ground arith) a (ground arith)
              (retry-Ends (num - 1) (suc slept) rest (rw (i, z, a) at h))
        | inr a ↦
            subst (Ends again num slept (fail e ∷ rest)) (some_injective (rw (i, z, a) at h))
              (Ends-now num slept (fail e) rest (ground arith, inr a))
      ]
    ]
  ]

-- Whether a reply is anything but an interruption.
abbrev pub answers : List Reply → ℕ
answers [] = 0
answers (value v ∷ rs) = suc (answers rs)
answers (fail e ∷ rs) = (if e == eintr then 0 else 1) + answers rs

-- A call returns after as many answers as it has tries, and one more.
retry_returns :
    (again : ℕ → Bool) (num slept : ℕ) (rs : List Reply)
    → num < answers rs
    → (o : Outcome) × (retry again num slept rs ≡ some o)
unfolding retry
retry_returns again num slept [] h = absurd (omega arith)
retry_returns again num slept (value v ∷ rest) h =
    (record { result = value v; rest = rest; sleeps = slept }, refl)
retry_returns again num slept (fail e ∷ rest) h = elim (Bool-cases (e == eintr)) [
  | inl i ↦
      let more : num < answers rest = ground arith in
      let (o, p) = retry_returns again num slept rest more in (o, rw i p)
  | inr i ↦ elim (Bool-cases (num == 0)) [
    | inl z ↦ (record { result = fail e; rest = rest; sleeps = slept }, rw (i, z))
    | inr z ↦ elim (Bool-cases (again e)) [
      | inl a ↦
          let more : num - 1 < answers rest = ground arith in
          let (o, p) = retry_returns again (num - 1) (suc slept) rest more in (o, rw (i, z, a) p)
      | inr a ↦ (record { result = fail e; rest = rest; sleeps = slept }, rw (i, z, a))
    ]
  ]
]

-- `close` returns once the kernel has given 21 answers that are no interruptions. What it returns
-- is the reply after some interruptions and at most 20 busy or I/O errors, for each of which it
-- slept once; it is a value, or an error that is no interruption, and that is busy or I/O only if
-- the 20 tries are used up.
pub close_retries :
    (rs : List Reply)
    → busy_try_limit < answers rs
    → (o : Outcome) × (close rs ≡ some o) × Ends is_busy_or_io busy_try_limit 0 rs o
unfolding close
close_retries rs h =
    let (o, p) = retry_returns is_busy_or_io busy_try_limit 0 rs h in
    (o, p, retry-Ends is_busy_or_io busy_try_limit 0 rs p)

-- The eleven calls besides `close` and `waitpid`.
pub data Call : Type 0 where
  creat dup2 flock lseek open_file open_mode read remove rename unlink write : Call

abbrev pub made : Call → List Reply → Option Outcome
made creat = Isafe.creat
made dup2 = Isafe.dup2
made flock = Isafe.flock
made lseek = Isafe.lseek
made open_file = Isafe.open_file
made open_mode = Isafe.open_mode
made read = Isafe.read
made remove = Isafe.remove
made rename = Isafe.rename
made unlink = Isafe.unlink
made write = Isafe.write

made-retry : (c : Call) → made c ≡ retry is_busy busy_try_limit 0
unfolding Isafe.creat Isafe.dup2 Isafe.flock Isafe.lseek Isafe.open_file Isafe.open_mode Isafe.read
    Isafe.remove Isafe.rename Isafe.unlink Isafe.write
made-retry creat = refl
made-retry _ = refl

-- The other eleven calls return likewise, after 21 answers that are no interruptions at most, but
-- they retry busy errors only.
pub made_retries :
    (c : Call) (rs : List Reply)
    → busy_try_limit < answers rs
    → (o : Outcome) × (made c rs ≡ some o) × Ends is_busy busy_try_limit 0 rs o
made_retries c rs h =
    let (o, p) = retry_returns is_busy busy_try_limit 0 rs h in
    rw (made-retry c) (o, p, retry-Ends is_busy busy_try_limit 0 rs p)

-- Given an answer that is no interruption, `waitpid` returns the first reply that is no interruption, and never sleeps.
pub waitpid_retries :
    (rs : List Reply)
    → 0 < answers rs
    → (o : Outcome) × (Isafe.waitpid rs ≡ some o) × Ends (λ e. false) 0 0 rs o
unfolding Isafe.waitpid
waitpid_retries [] h = absurd (omega arith)
waitpid_retries (value v ∷ rest) h = (
  record { result = value v; rest = rest; sleeps = 0 },
  refl,
  Ends-now (λ e. false) 0 0 (value v) rest tt,
)
waitpid_retries (fail e ∷ rest) h = elim (Bool-cases (e == eintr)) [
  | inl i ↦
      let more : 0 < answers rest = ground arith in
      let (o, p, v) = waitpid_retries rest more in
      (o, rw i p, Ends-interrupted (λ e. false) 0 0 e rest o (ground arith) v)
  | inr i ↦ (
    record { result = fail e; rest = rest; sleeps = 0 },
    rw i,
    Ends-now (λ e. false) 0 0 (fail e) rest (ground arith, inl refl),
  )
]
