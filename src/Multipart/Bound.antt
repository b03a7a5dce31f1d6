-- ===== src/Multipart/Bound.antt =====
-- What `load` of a multipart file does with the boundaries, and at its end.
use job.Multipart.Scanning.{AllPlain}
use job.Multipart.Lines.{AllPlain-append}
use job.Multipart.Load.{
  more, finished, load_line, end_bound, mid_bound, at_bound, byte_at, end_body,
}
use job.Multipart.Order.{at_section_last}
use job.Multipart.Reading.{reader}
use job.Multipart.Section.{Section}
use job.Prelude.{
  ℕ, suc, ◌+◌, ◌<◌, Bool, true, false, List, [], ◌∷◌, ◌++◌, Bytes, codes, length, ◌≡◌, refl, ap,
  arith,
}
use job.Text.Search.{starts_with}

starts_with-append : (b x : Bytes) → starts_with b (b ++ x) ≡ true
unfolding starts_with
starts_with-append [] x = refl
starts_with-append (c ∷ b) x = ground (arith, starts_with-append b x)

-- The byte `i` places behind the boundary.
byte_at-append : (b x : Bytes) (i : ℕ) → byte_at (b ++ x) (i + length b) ≡ byte_at x i
unfolding byte_at
byte_at-append [] x i = (let e : i + 0 ≡ i = omega arith in rw e)
byte_at-append (c ∷ b) x i =
    let e : i + suc (length b) ≡ suc (i + length b) = omega arith in
    rw (e, byte_at) (byte_at-append b x i)

-- `--`, the boundary, and what follows it.
abbrev pub bound_line : Bytes → Bytes → Bytes
bound_line b x = b'-' ∷ (b'-' ∷ (b ++ x))

at_bound_own : (b x : Bytes) → at_bound b (bound_line b x) ≡ true
unfolding at_bound starts_with
at_bound_own b x = starts_with-append b x

behind_bound : (b x : Bytes) (i : ℕ) → byte_at (bound_line b x) (2 + i + length b) ≡ byte_at x i
unfolding byte_at
behind_bound b x i =
    let e : 2 + i + length b ≡ suc (suc (i + length b)) = omega arith in
    rw (e, byte_at) (byte_at-append b x i)

mid_bound_own : (b : Bytes) → mid_bound b (bound_line b (codes "\n")) ≡ true
unfolding mid_bound
mid_bound_own b =
    rw (at_bound_own b (codes "\n"), behind_bound b (codes "\n") 0) (unfold byte_at in refl)

end_bound_mid : (b : Bytes) → end_bound b (bound_line b (codes "\n")) ≡ false
unfolding end_bound
end_bound_mid b =
    rw (at_bound_own b (codes "\n"), behind_bound b (codes "\n") 0) (unfold byte_at in refl)

end_bound_own : (b : Bytes) → end_bound b (bound_line b (codes "--\n")) ≡ true
unfolding end_bound
end_bound_own b =
    rw
      (
        at_bound_own b (codes "--\n"),
        behind_bound b (codes "--\n") 0,
        behind_bound b (codes "--\n") 1,
        behind_bound b (codes "--\n") 2,
      )
      (unfold byte_at in refl)

-- The boundary between two sections ends the body, and the next section begins.
pub load_line-mid :
    (old : List Section) (m : Section) (b st : Bytes) (n : ℕ) (gap body : Bool)
    → load_line (bound_line b (codes "\n")) (reader (old ++ m ∷ []) b st n gap body (length old))
      ≡ more (
          reader
            (old ++ end_body m ∷ [])
            b
            st
            (n + 1)
            false
            false
            (length (old ++ end_body m ∷ [])))
unfolding load_line byte_at
load_line-mid old m b st n gap body =
    rw (end_bound_mid b, mid_bound_own b)
      (ap (λ ss. more (reader ss b st (n + 1) false false (length ss)))
        (at_section_last old m end_body))

-- The last boundary ends the reading.
pub load_line-end :
    (old : List Section) (m : Section) (b st : Bytes) (n : ℕ) (gap body : Bool)
    → load_line (bound_line b (codes "--\n")) (reader (old ++ m ∷ []) b st n gap body (length old))
      ≡ finished (record {
        parts = record {
          sections = old ++ end_body m ∷ [];
          boundary = b;
          substatus = st;
          closed = true;
        };
        lnum = n + 1;
        got_gap = gap;
        in_body = body;
        sec = length old;
      })
unfolding load_line byte_at
load_line-end old m b st n gap body = rw (end_bound_own b) (
    ap
      (λ ss. finished (record {
        parts = record { sections = ss; boundary = b; substatus = st; closed = true };
        lnum = n + 1;
        got_gap = gap;
        in_body = body;
        sec = length old;
      }))
      (at_section_last old m end_body))

-- A boundary is short and on one line.
abbrev pub IsBoundary : Bytes → Type 0
IsBoundary b = AllPlain b × (length b < 80)

pub bound_line-AllPlain : (b x : Bytes) → AllPlain b → AllPlain x → AllPlain (bound_line b x)
bound_line-AllPlain b x h i = (refl, (refl, AllPlain-append b x h i))
