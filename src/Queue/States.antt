-- ===== src/Queue/States.antt =====
-- What `get_states_of_jobs` reports.
use job.File.{State, unk, NameAttrs, Result, ok, err, parse}
use job.Prelude.{
  ℕ, List, [], ◌∷◌, ◌≡◌, refl, ap, ◌∙◌, Option, some, arith, Bytes, ◌==◌, leb, length, Bool-cases,
  Option-cases, inl, inr, ◌⊎◌,
}
use job.Queue.{
  StateMap, count_id, set_state, scanned, scan_names, all_unknown, states, scan_states,
  get_states_of_jobs,
}

-- A name in the list that parses to the id.
abbrev pub Names : ℕ → List Bytes → Type 0
Names id [] = ⊥
Names id (d ∷ ds) = ((a : NameAttrs) × (parse d ≡ ok a) × (a.id ≡ id)) ⊎ Names id ds

module _ (dirs : State → Option (List Bytes)) where
  -- The directory of the state holds a file of the job.
  abbrev pub IsIn : ℕ → State → Type 0
  IsIn id st = (names : List Bytes) × (dirs st ≡ some names) × Names id names

  -- Each job of the map is unknown or in the directory of its state.
  abbrev pub IsSound : StateMap → Type 0
  IsSound [] = Unit
  IsSound ((id, st) ∷ m) = ((st ≡ unk) ⊎ IsIn id st) × IsSound m

  abbrev pub keys : StateMap → List ℕ
  keys [] = []
  keys ((id, st) ∷ m) = id ∷ keys m

  all_unknown-IsSound : (m : StateMap) → IsSound (all_unknown m)
  unfolding all_unknown
  all_unknown-IsSound [] = tt
  all_unknown-IsSound ((id, st) ∷ m) = (inl refl, all_unknown-IsSound m)

  set_state-IsSound :
      (id : ℕ) (st : State) (m : StateMap) → IsIn id st → IsSound m → IsSound (set_state id st m)
  unfolding set_state
  set_state-IsSound id st [] i s = tt
  set_state-IsSound id st ((k, t) ∷ m) i s = elim (Bool-cases (k == id)) [
    | inl e ↦ let same : k ≡ id = ground arith in rw e (inr (rw same i), s.1)
    | inr e ↦ rw e (s.0, set_state-IsSound id st m i s.1)
  ]

  scanned-IsSound :
      (st : State) (r : Result NameAttrs) (m : StateMap) (got : ℕ)
      → ((a : NameAttrs) → r ≡ ok a → IsIn a.id st)
      → IsSound m
      → IsSound (scanned st r (m, got)).0
  unfolding scanned
  scanned-IsSound st (err e) m got i s = s
  scanned-IsSound st (ok a) m got i s = elim (Bool-cases (count_id m a.id)) [
    | inl e ↦ rw e (set_state-IsSound a.id st m (i a refl) s)
    | inr e ↦ rw e s
  ]

  scan_names-IsSound :
      (st : State) (ds : List Bytes) (m : StateMap) (got : ℕ)
      → ((id : ℕ) → Names id ds → IsIn id st)
      → IsSound m
      → IsSound (scan_names st ds (m, got)).0
  unfolding scan_names
  scan_names-IsSound st [] m got i s = s
  scan_names-IsSound st (d ∷ ds) m got i s =
      scan_names-IsSound st ds (scanned st (parse d) (m, got)).0 (scanned st (parse d) (m, got)).1
        (λ id n. i id (inr n))
        (scanned-IsSound st (parse d) m got (λ a e. i a.id (inl (a, e, refl))) s)

  scan_states-IsSound :
      (want : ℕ) (sts : List State) (m : StateMap) (got : ℕ)
      → IsSound m
      → IsSound (scan_states dirs want sts (m, got)).0
  unfolding scan_states
  scan_states-IsSound want [] m got s = s
  scan_states-IsSound want (st ∷ sts) m got s = elim (Bool-cases (leb want got)) [
    | inl e ↦ rw e s
    | inr e ↦ elim (Option-cases (dirs st)) [
      | inl n ↦ rw (e, n) s
      | inr (names, n) ↦
          rw (e, n)
            (scan_states-IsSound want sts (scan_names st names (m, got)).0
              (scan_names st names (m, got)).1
              (scan_names-IsSound st names m got (λ id x. (names, n, x)) s))
    ]
  ]

  set_state-keys : (id : ℕ) (st : State) (m : StateMap) → keys (set_state id st m) ≡ keys m
  unfolding set_state
  set_state-keys id st [] = refl
  set_state-keys id st ((k, t) ∷ m) = elim (Bool-cases (k == id)) [
    | inl e ↦ rw e
    | inr e ↦ rw e (ap (◌∷◌ k) (set_state-keys id st m))
  ]

  scanned-keys :
      (st : State) (r : Result NameAttrs) (m : StateMap) (got : ℕ)
      → keys (scanned st r (m, got)).0 ≡ keys m
  unfolding scanned
  scanned-keys st (err e) m got = refl
  scanned-keys st (ok a) m got = elim (Bool-cases (count_id m a.id)) [
    | inl e ↦ rw e (set_state-keys a.id st m)
    | inr e ↦ rw e
  ]

  scan_names-keys :
      (st : State) (ds : List Bytes) (m : StateMap) (got : ℕ)
      → keys (scan_names st ds (m, got)).0 ≡ keys m
  unfolding scan_names
  scan_names-keys st [] m got = refl
  scan_names-keys st (d ∷ ds) m got =
      scan_names-keys st ds (scanned st (parse d) (m, got)).0 (scanned st (parse d) (m, got)).1
      ∙ scanned-keys st (parse d) m got

  scan_states-keys :
      (want : ℕ) (sts : List State) (m : StateMap) (got : ℕ)
      → keys (scan_states dirs want sts (m, got)).0 ≡ keys m
  unfolding scan_states
  scan_states-keys want [] m got = refl
  scan_states-keys want (st ∷ sts) m got = elim (Bool-cases (leb want got)) [
    | inl e ↦ rw e
    | inr e ↦ elim (Option-cases (dirs st)) [
      | inl n ↦ rw (e, n)
      | inr (names, n) ↦
          rw (e, n)
            (scan_states-keys want sts (scan_names st names (m, got)).0
                (scan_names st names (m, got)).1
              ∙ scan_names-keys st names m got)
    ]
  ]

  all_unknown-keys : (m : StateMap) → keys (all_unknown m) ≡ keys m
  unfolding all_unknown
  all_unknown-keys [] = refl
  all_unknown-keys ((id, st) ∷ m) = ap (◌∷◌ id) (all_unknown-keys m)

  -- `get_states_of_jobs` keeps the jobs of the map, and each of them that it does not leave
  -- unknown has a file in the directory of the state reported.
  pub get_states_of_jobs-IsSound :
      (smap : StateMap)
      → (keys (get_states_of_jobs dirs smap).0 ≡ keys smap)
        × IsSound (get_states_of_jobs dirs smap).0
  unfolding get_states_of_jobs
  get_states_of_jobs-IsSound smap = (
    scan_states-keys (length smap) states (all_unknown smap) 0 ∙ all_unknown-keys smap,
    scan_states-IsSound (length smap) states (all_unknown smap) 0 (all_unknown-IsSound smap),
  )
