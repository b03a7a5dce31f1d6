-- ===== src/Seqnum/Writing.antt =====
-- The write loop, whatever the kernel answers.
use job.Isafe
use job.Prelude.{
  ℕ, zero, suc, ◌+◌, ◌≤◌, true, List, [], ◌∷◌, ◌++◌, ◌≡◌, refl, ap, sym, ◌∙◌, inl, inr, arith, ◌==◌,
  length, take, drop, min, Bool-cases,
}
use job.Seqnum.Bytes64.{encode, length-encode}
use job.Seqnum.Reading.{Ensures, bind-Ensures, Same, call-Same, HasRewound, rewind-HasRewound}
use job.Seqnum.{Step, Access, Result, waiting, failed, ok, call, write_value, write_loop, rewind}

drop_none {ℓ} : {A : Type ℓ} (j : ℕ) → drop {A = A} j [] ≡ []
drop_none zero = refl
drop_none (suc j) = refl

drop-take-drop {ℓ} :
    {A : Type ℓ} (n m : ℕ) (xs ys : List A)
    → n ≤ m
    → m ≤ length xs
    → drop m (take n xs ++ drop n ys) ≡ drop m ys
drop-take-drop zero m xs ys h k = refl
drop-take-drop (suc n) zero xs ys h k = absurd (omega arith)
drop-take-drop (suc n) (suc m) [] ys h k = absurd (omega arith)
drop-take-drop (suc n) (suc m) (x ∷ xs) [] h k =
    ap (λ t. drop m (take n xs ++ t)) (sym (drop_none n))
    ∙ drop-take-drop n m xs [] (omega arith) (omega arith)
    ∙ drop_none m
drop-take-drop (suc n) (suc m) (x ∷ xs) (y ∷ ys) h k =
    drop-take-drop n m xs ys (omega arith) (omega arith)

-- A write moves the first `n` bytes over the first `n` of the file.
record HasWritten (s : Access) (n : ℕ) (t : Access) : Type 0 where
  amount : n ≤ 8
  content_is : t.content ≡ take n (encode s.number) ++ drop n s.content
  number_is : t.number ≡ s.number

HasWritten_lem :
    (s t : Access) (k : ℕ)
    → s.position ≡ 0
    → Same s t
    → HasWritten s (min k 8) (record t {
      content =
          take t.position t.content
          ++ (take (min k 8) (encode t.number) ++ drop (t.position + min k 8) t.content);
      position = t.position + min k 8;
    })
HasWritten_lem s t k p v =
    let n = min k 8 in
    let at : t.position ≡ 0 = v.position_is ∙ p in
    record {
      amount = omega arith;
      content_is =
          ap (λ q. take q t.content ++ (take n (encode t.number) ++ drop (q + n) t.content)) at
          ∙ (let z : 0 + n ≡ n = omega arith in
              ap (λ m. take n (encode t.number) ++ drop m t.content) z)
          ∙ ap (λ c. take n (encode t.number) ++ drop n c) v.content_is
          ∙ ap (λ x. take n (encode x) ++ drop n s.content) v.number_is;
      number_is = v.number_is;
    }

write_value-HasWritten : (s : Access) → s.position ≡ 0 → Ensures (HasWritten s) (write_value s)
unfolding write_value
write_value-HasWritten s p =
    bind-Ensures (λ a t. Same s t) (HasWritten s) (call Step.writing true Isafe.write s) _
      (call-Same Step.writing true Isafe.write s) (λ k t v. HasWritten_lem s t k p v)

-- After the write loop: the number's eight bytes, and what the file had behind its first eight.
pub record HasStored (s t : Access) : Type 0 where
  pub content_is : t.content ≡ encode s.number ++ drop 8 s.content
  pub number_is : t.number ≡ s.number

stored_full : (s t : Access) → HasWritten s 8 t → HasStored s t
stored_full s t v = record {
  content_is = v.content_is ∙ (unfold encode in refl);
  number_is = v.number_is;
}

stored_later :
    (s t u w : Access) (n : ℕ) → HasWritten s n t → HasRewound t u → HasStored u w → HasStored s w
stored_later s t u w n v r h = record {
  content_is =
      h.content_is
      ∙ ap (λ x. encode x ++ drop 8 u.content) (r.number_is ∙ v.number_is)
      ∙ ap (λ c. encode s.number ++ drop 8 c) (r.content_is ∙ v.content_is)
      ∙ ap (◌++◌ (encode s.number)) (
          drop-take-drop n 8 (encode s.number) s.content v.amount
            (omega (arith, length-encode s.number)));
  number_is = h.number_is ∙ r.number_is ∙ v.number_is;
}

pub write_loop-HasStored :
    (fuel : ℕ) (s : Access) → s.position ≡ 0 → Ensures (λ a t. HasStored s t) (write_loop fuel s)
unfolding write_loop
write_loop-HasStored zero s p = tt
write_loop-HasStored (suc fuel) s p =
    bind-Ensures (HasWritten s) (λ a t. HasStored s t) (write_value s) _
      (write_value-HasWritten s p)
      (λ n t v. elim (Bool-cases (n == 8)) [
        | inl e8 ↦ let e : n ≡ 8 = ground arith in rw e8 (stored_full s t (rw e at v))
        | inr e8 ↦ rw e8 (
            bind-Ensures (λ a u. HasRewound t u) (λ a w. HasStored s w) (rewind t) _
              (rewind-HasRewound t)
              (λ _ u r. more n t u v r (write_loop-HasStored fuel u r.at_start)))
      ])
  where
    more :
        (n : ℕ) (t u : Access)
        → HasWritten s n t
        → HasRewound t u
        → Ensures (λ a w. HasStored u w) (write_loop fuel u)
        → Ensures (λ a w. HasStored s w) (write_loop fuel u)
    more n t u v r h = weaken (write_loop fuel u) h
      where
        weaken :
            (x : Result ℕ) → Ensures (λ a w. HasStored u w) x → Ensures (λ a w. HasStored s w) x
        weaken waiting k = tt
        weaken (failed e w) k = k
        weaken (ok a w) k = stored_later s t u w n v r k
