-- ===== src/File/Object/Touched.antt =====
-- What the entries that `load` touches are for a reader of the section: nothing.
use job.File.Header.{get_tag, arg_tag}
use job.File.Header.Arguments.{length-set_tag}
use job.File.Object.Disks.{touch, touch_all}
use job.Multipart.Load.{body_tag}
use job.Multipart.Section.{
  Section, find_tag, set_tag, count_tag, same_key, caseless, find_tag-set_tag, lc_same,
  same_key_iff,
}
use job.Prelude.{
  ℕ, ◌≤◌, true, false, Option, none, some, [], ◌∷◌, Bytes, codes, if◌then◌else◌, str_eq, length,
  to_lower, ◌≡◌, refl, ap, sym, ◌∙◌, arith, Option-cases, List, Bool-cases, inl, inr,
}
use job.Text.Trim.{lc}

find_tag_same : (m : Section) (t j : Bytes) → same_key t j ≡ true → find_tag m t ≡ find_tag m j
unfolding find_tag
find_tag_same [] t j h = refl
find_tag_same ((k, v) ∷ m) t j h =
    let e : same_key k t ≡ same_key k j =
      same_key_iff k t ∙ ap (str_eq (lc k)) (lc_same t j h) ∙ sym (same_key_iff k j) in
    rw (e, find_tag_same m t j h)

abbrev value_of : Option Bytes → Bytes
value_of none = []
value_of (some v) = v

get_is : (m : Section) (j : Bytes) → get_tag m j ≡ value_of (find_tag m j)
unfolding get_tag
get_is m j = refl

-- A tag that is not there has the empty value, and so it has when it has been touched.
pub touched :
    (m : Section) (t j : Bytes) → find_tag m t ≡ none → get_tag (set_tag t [] m) j ≡ get_tag m j
touched m t j h =
    let kept : value_of (if same_key t j then some [] else find_tag m j) ≡ value_of (find_tag m j) =
      elim (Bool-cases (same_key t j)) [
        | inl e ↦ (let gone : find_tag m j ≡ none = sym (find_tag_same m t j e) ∙ h in rw (e, gone))
        | inr e ↦ rw e
      ] in
    get_is (set_tag t [] m) j ∙ ap value_of (find_tag-set_tag t [] m j) ∙ kept ∙ sym (get_is m j)

touch_there : (t v : Bytes) (m : Section) → find_tag m t ≡ some v → touch t m ≡ m
unfolding count_tag touch
touch_there t v m e = rw (e, count_tag, touch)

touch_gone : (t : Bytes) (m : Section) → find_tag m t ≡ none → touch t m ≡ set_tag t [] m
unfolding count_tag touch set_tag
touch_gone t m e = rw (e, count_tag, touch)

pub get_tag-touch : (t : Bytes) (m : Section) (j : Bytes) → get_tag (touch t m) j ≡ get_tag m j
get_tag-touch t m j = elim (Option-cases (find_tag m t)) [
  | inl e ↦ ap (λ n. get_tag n j) (touch_gone t m e) ∙ touched m t j e
  | inr (v, e) ↦ ap (λ n. get_tag n j) (touch_there t v m e)
]

find_tag-touch :
    (t : Bytes) (m : Section) (j : Bytes)
    → same_key t j ≡ false
    → find_tag (touch t m) j ≡ find_tag m j
find_tag-touch t m j h = elim (Option-cases (find_tag m t)) [
  | inl e ↦ ap (λ n. find_tag n j) (touch_gone t m e) ∙ find_tag-set_tag t [] m j ∙ rw h
  | inr (v, e) ↦ ap (λ n. find_tag n j) (touch_there t v m e)
]

length-touch : (t : Bytes) (m : Section) → length m ≤ length (touch t m)
length-touch t m = elim (Option-cases (find_tag m t)) [
  | inl e ↦ omega (arith, length-set_tag t [] m, ap length (touch_gone t m e))
  | inr (v, e) ↦ omega (arith, ap length (touch_there t v m e))
]

abbrev more : List Bytes → Section → Section
more [] m = m
more (t ∷ ts) m = more ts (touch t m)

abbrev tags : List Bytes
tags =
    codes "Command"
    ∷ (codes "Job-MNode"
        ∷ (codes "Job-MID"
            ∷ (codes "Job-PID"
                ∷ (codes "Job-Type"
                    ∷ (codes "TTY-Notify" ∷ (codes "Try-Limit" ∷ (body_tag ∷ [])))))))

touch_all_lem : (m : Section) → touch_all m ≡ more tags m
unfolding touch_all
touch_all_lem m = refl

get_tag-more : (ts : List Bytes) (m : Section) (j : Bytes) → get_tag (more ts m) j ≡ get_tag m j
get_tag-more [] m j = refl
get_tag-more (t ∷ ts) m j = get_tag-more ts (touch t m) j ∙ get_tag-touch t m j

abbrev NoneIs : List Bytes → Bytes → Type 0
NoneIs [] j = Unit
NoneIs (t ∷ ts) j = (same_key t j ≡ false) × NoneIs ts j

find_tag-more :
    (ts : List Bytes) (m : Section) (j : Bytes)
    → NoneIs ts j
    → find_tag (more ts m) j ≡ find_tag m j
find_tag-more [] m j h = refl
find_tag-more (t ∷ ts) m j h = find_tag-more ts (touch t m) j h.1 ∙ find_tag-touch t m j h.0

length-more : (ts : List Bytes) (m : Section) → length m ≤ length (more ts m)
length-more [] m = omega arith
length-more (t ∷ ts) m = omega (arith, length-more ts (touch t m), length-touch t m)

-- The values are as before, the arguments too, and nothing is lost.
pub get_tag-touch_all : (m : Section) (j : Bytes) → get_tag (touch_all m) j ≡ get_tag m j
get_tag-touch_all m j = ap (λ n. get_tag n j) (touch_all_lem m) ∙ get_tag-more tags m j

pub find_tag-touch_all :
    (m : Section) (k : ℕ) → find_tag (touch_all m) (arg_tag k) ≡ find_tag m (arg_tag k)
unfolding same_key caseless arg_tag to_lower
find_tag-touch_all m k =
    ap (λ n. find_tag n (arg_tag k)) (touch_all_lem m)
    ∙ find_tag-more tags m (arg_tag k)
        (refl, (refl, (refl, (refl, (refl, (refl, (refl, (refl, tt))))))))

pub length-touch_all : (m : Section) → length m ≤ length (touch_all m)
length-touch_all m = omega (arith, length-more tags m, ap length (touch_all_lem m))
