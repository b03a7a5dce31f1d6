-- ===== src/Launch/Reaping.antt =====
-- src/job/launch.cxx: what `reap_zombies` does to the count that `running` gives.
use job.Launch.{
  Pad, Table, ChildStatus, signaled, exited, Called, is_new_or_run, find_pad, erase, update,
  running, ended, call_back, reap_one, reap,
}
use job.Prelude.{
  ℕ, ◌+◌, ◌≤◌, false, List, [], ◌∷◌, some, ◌≡◌, refl, sym, ap, ◌∙◌, arith, ◌==◌, if◌then◌else◌,
  Bool-cases, Option-cases, some_injective, inl, inr,
}

-- What one object adds to the count.
unfoldable pub counted {ℓ} : {U : Type ℓ} → Pad U → ℕ
unfolding is_new_or_run
counted p = if is_new_or_run p.state then 1 else 0

module _ {ℓ} {U : Type ℓ} where
  running-cons : (x : Pad U) (t : Table U) → running (x ∷ t) ≡ counted x + running t
  unfolding running counted
  running-cons x t = refl

  running-erase :
      (pid : ℕ) (t : Table U) (p : Pad U)
      → find_pad t pid ≡ some p
      → counted p + running (erase pid t) ≡ running t
  unfolding find_pad erase
  running-erase pid [] p h = ground arith
  running-erase pid (x ∷ t) p h = elim (Bool-cases (x.pid == pid)) [
    | inl e ↦
        (let same : x ≡ p = some_injective (sym (rw e) ∙ h) in
          rw e (ap (λ y. counted y + running t) (sym same) ∙ sym (running-cons x t)))
    | inr e ↦
        (let ih : counted p + running (erase pid t) ≡ running t =
            running-erase pid t p (sym (rw e) ∙ h) in
          rw e (omega (arith, ih, running-cons x t, running-cons x (erase pid t))))
  ]

  running-update :
      (pid : ℕ) (q : Pad U) (t : Table U) (p : Pad U)
      → find_pad t pid ≡ some p
      → counted p + running (update pid q t) ≡ counted q + running t
  unfolding find_pad update
  running-update pid q [] p h = ground arith
  running-update pid q (x ∷ t) p h = elim (Bool-cases (x.pid == pid)) [
    | inl e ↦
        (let same : x ≡ p = some_injective (sym (rw e) ∙ h) in
          rw e (
            let c : counted x ≡ counted p = ap (λ y. counted y) same in
            omega (arith, c, running-cons x t, running-cons q t)))
    | inr e ↦
        (let ih : counted p + running (update pid q t) ≡ counted q + running t =
            running-update pid q t p (sym (rw e) ∙ h) in
          rw e (omega (arith, ih, running-cons x t, running-cons x (update pid q t))))
  ]

  ended-counted : (st : ChildStatus) (p : Pad U) → counted (ended st p) ≡ 0
  unfolding counted ended is_new_or_run
  ended-counted (signaled sig) p = refl
  ended-counted (exited st) p = refl

  module _ {W : Type ℓ} (cb : Pad U → W → Called W) where
    call_back-running :
        (pid : ℕ) (p q : Pad U) (w : W) (t : Table U)
        → find_pad t pid ≡ some p
        → counted q ≡ 0
        → counted p + running (call_back cb pid q w t).1 ≡ running t
    unfolding call_back
    call_back-running pid p q w t h z = elim (Bool-cases q.has_callback) [
      | inl e ↦ elim (Bool-cases (cb q w).removed) [
        | inl r ↦ rw (r, e) (running-erase pid t p h)
        | inr r ↦
            rw (r, e)
              (let c : counted (record q { has_callback = false }) ≡ 0 = (unfold counted in z) in
                omega (arith, running-update pid (record q { has_callback = false }) t p h, c))
      ]
      | inr e ↦ rw e (
          let c : counted (record q { has_callback = false }) ≡ 0 = (unfold counted in z) in
          omega (arith, running-update pid (record q { has_callback = false }) t p h, c))
    ]

    -- When the end of a known child is reaped, `running` falls by one if the child counted, and is
    -- unchanged if it had been counted out; this holds whether the callback keeps or deletes the object.
    pub running-reap_one :
        (pid : ℕ) (p : Pad U) (st : ChildStatus) (w : W) (t : Table U)
        → find_pad t pid ≡ some p
        → counted p + running (reap_one cb (find_pad t pid) pid st w t).1 ≡ running t
    unfolding reap_one
    running-reap_one pid p st w t h =
        rw h (call_back-running pid p (ended st p) w t h (ended-counted st p))

    reap_one_le :
        (pid : ℕ) (st : ChildStatus) (w : W) (t : Table U)
        → running (reap_one cb (find_pad t pid) pid st w t).1 ≤ running t
    reap_one_le pid st w t = elim (Option-cases (find_pad t pid)) [
      | inl h ↦ (unfold reap_one in rw h (omega arith))
      | inr (p, h) ↦ omega (arith, running-reap_one pid p st w t h)
    ]

    -- Reaping never raises the count of running processes, whatever children have ended and whatever
    -- the callbacks return.
    pub running-reap :
        (l : List (ℕ × ChildStatus)) (w : W) (t : Table U) → running (reap cb l w t).1 ≤ running t
    unfolding reap
    running-reap [] w t = omega arith
    running-reap ((pid, st) ∷ rest) w t = omega (
      arith,
      reap_one_le pid st w t,
      running-reap rest (reap_one cb (find_pad t pid) pid st w t).0
          (reap_one cb (find_pad t pid) pid st w t).1,
    )
