-- ===== src/Jobman/Group.antt =====
-- src/jobman.cxx, `group_hug`: group jobs, which are done when all their child jobs are. Each tied
-- job comes with what `scandir` finds when its children are looked up. The move itself is
-- `repath`, which is not modelled: the result is the jobs for which it is called.
use job.File.{State, unk, done}
use job.Prelude.{
  ℕ, Bool, true, false, not, ◌&&◌, ◌||◌, List, [], ◌∷◌, ◌≡◌, refl, sym, ◌∙◌, Option, Bytes,
  if◌then◌else◌, Bool-cases, inl, inr, arith, ◌==◌, subst, ◌⊎◌,
}
use job.Queue.States.{keys, IsIn, IsSound, get_states_of_jobs-IsSound}
use job.Queue.{StateMap, count_id, get_states_of_jobs}

-- A file in the directory of tied jobs: whether it can be loaded, the ids in its `ties`, and the
-- directories at the time of the lookup.
pub record Tied : Type 0 where
  pub id : ℕ
  pub loaded : Bool
  pub ties : List ℕ
  pub dirs : State → Option (List Bytes)

-- `smap[id] = unk`.
unfoldable pub add_unknown : ℕ → StateMap → StateMap
add_unknown id m = if count_id m id then m else (id, unk) ∷ m

unfoldable pub ties_map : List ℕ → StateMap
unfolding add_unknown
ties_map [] = []
ties_map (id ∷ ids) = add_unknown id (ties_map ids)

unfoldable pub is_done : State → Bool
is_done done = true
is_done _ = false

unfoldable pub all_done : StateMap → Bool
unfolding is_done
all_done [] = true
all_done ((id, st) ∷ m) = is_done st && all_done m

-- After the lookup of one job's children: `q.error`, and whether the job is done.
unfoldable pub hug : Bool → StateMap × Bool → Bool × Bool
hug error (smap, found) = (error || not found, all_done smap)

-- `group_hug`, on the flag `q.error`: the flag afterwards, and the jobs moved to done.
unfoldable pub group_hug : Bool → List Tied → Bool × List Tied
group_hug error [] = (error, [])
group_hug error (jf ∷ jfs) =
    let looked = hug error (get_states_of_jobs jf.dirs (ties_map jf.ties)) in
    let rest = group_hug error jfs in
    if not jf.loaded
    then rest
    else if looked.0
    then (looked.0, [])
    else if not looked.1
    then rest
    else (rest.0, jf ∷ rest.1)

-- Each job has a file in the directory of done jobs.
abbrev pub AllDone : (State → Option (List Bytes)) → List ℕ → Type 0
AllDone dirs [] = Unit
AllDone dirs (id ∷ ids) = IsIn dirs id done × AllDone dirs ids

abbrev pub AllHugged : List Tied → Type 0
AllHugged [] = Unit
AllHugged (jf ∷ jfs) = AllDone jf.dirs jf.ties × AllHugged jfs

module _ (dirs : State → Option (List Bytes)) where
  is_done-IsIn :
      (id : ℕ) (st : State) → is_done st ≡ true → (st ≡ unk) ⊎ IsIn dirs id st → IsIn dirs id done
  unfolding is_done
  is_done-IsIn id done h (inl e) = cc
  is_done-IsIn id done h (inr i) = i
  is_done-IsIn id _ h s = cc

  all_done-AllDone :
      (m : StateMap) → IsSound dirs m → all_done m ≡ true → AllDone dirs (keys dirs m)
  unfolding all_done
  all_done-AllDone [] s h = tt
  all_done-AllDone ((id, st) ∷ m) s h = elim (Bool-cases (is_done st)) [
    | inl e ↦ (is_done-IsIn id st e s.0, all_done-AllDone m s.1 (sym (rw e) ∙ h))
    | inr e ↦ absurd (ground (arith, e, h))
  ]

  count_id-IsIn :
      (m : StateMap) (id : ℕ)
      → count_id m id ≡ true
      → AllDone dirs (keys dirs m)
      → IsIn dirs id done
  unfolding count_id
  count_id-IsIn [] id h a = ground arith
  count_id-IsIn ((k, st) ∷ m) id h a = elim (Bool-cases (k == id)) [
    | inl e ↦ (let same : k ≡ id = ground arith in subst (λ x. IsIn dirs x done) same a.0)
    | inr e ↦ count_id-IsIn m id (sym (rw e) ∙ h) a.1
  ]

  add_unknown-AllDone :
      (id : ℕ) (m : StateMap)
      → AllDone dirs (keys dirs (add_unknown id m))
      → IsIn dirs id done × AllDone dirs (keys dirs m)
  unfolding add_unknown
  add_unknown-AllDone id m a = elim (Bool-cases (count_id m id)) [
    | inl e ↦
        (let g : add_unknown id m ≡ m = rw e in
          let b : AllDone dirs (keys dirs m) = subst (λ x. AllDone dirs (keys dirs x)) g a in
          (count_id-IsIn m id e b, b))
    | inr e ↦
        (let g : add_unknown id m ≡ (id, unk) ∷ m = rw e in
          subst (λ x. AllDone dirs (keys dirs x)) g a)
  ]

  ties_map-AllDone : (ids : List ℕ) → AllDone dirs (keys dirs (ties_map ids)) → AllDone dirs ids
  unfolding ties_map
  ties_map-AllDone [] a = tt
  ties_map-AllDone (id ∷ ids) a =
      let (i, b) = add_unknown-AllDone id (ties_map ids) a in (i, ties_map-AllDone ids b)

  looked-AllDone :
      (ids : List ℕ) → all_done (get_states_of_jobs dirs (ties_map ids)).0 ≡ true → AllDone dirs ids
  looked-AllDone ids h =
      let (same, sound) = get_states_of_jobs-IsSound dirs (ties_map ids) in
      ties_map-AllDone ids (
        subst (AllDone dirs) same
          (all_done-AllDone (get_states_of_jobs dirs (ties_map ids)).0 sound h))

-- A group job is moved to done only if each job that it is tied to has a file in the directory of
-- done jobs.
pub group_hug-AllHugged : (error : Bool) (jfs : List Tied) → AllHugged (group_hug error jfs).1
unfolding group_hug
group_hug-AllHugged error [] = tt
group_hug-AllHugged error (jf ∷ jfs) = elim (Bool-cases jf.loaded) [
  | inr l ↦ rw l (group_hug-AllHugged error jfs)
  | inl l ↦ elim (Bool-cases (hug error (get_states_of_jobs jf.dirs (ties_map jf.ties))).0) [
    | inl e ↦ rw (l, e) tt
    | inr e ↦ elim (Bool-cases (hug error (get_states_of_jobs jf.dirs (ties_map jf.ties))).1) [
      | inl d ↦
          rw (l, e, d)
            (looked-AllDone jf.dirs jf.ties (unfold hug in d), group_hug-AllHugged error jfs)
      | inr d ↦ rw (l, e, d) (group_hug-AllHugged error jfs)
    ]
  ]
]

-- Once `q.error` has been set, no group job is moved to done any more, and it stays set.
pub group_hug_error : (jfs : List Tied) → group_hug true jfs ≡ (true, [])
unfolding group_hug
group_hug_error [] = refl
group_hug_error (jf ∷ jfs) = elim (Bool-cases jf.loaded) [
  | inl l ↦ rw l (unfold hug in refl)
  | inr l ↦ rw l (group_hug_error jfs)
]
