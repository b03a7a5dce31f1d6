-- ===== src/Log/Message.antt =====
-- What the operators `,` make of a message.
use job.Log.Format.Scan.{
  get_chunk-Kept, get_chunk-some, take-replace, length-take, Kept, scan_rounds-Kept,
}
use job.Log.Format.{
  Chunk, get_chunk, replace, npos, scan_rounds, from_percent, conversion, index_from, index_of,
  moved,
}
use job.Log.Operators.{Printf, Arg, buf_of, put_all}
use job.Log.{set, Logger, put, insert, insert_found}
use job.Prelude.{
  ℕ, suc, ◌+◌, ◌≤◌, List, [], ◌∷◌, ◌++◌, Option, none, some, Bytes, codes, length, take, drop, ◌≡◌,
  refl, ap, sym, ◌∙◌, arith, append_assoc, take-length_append, length-append,
}

-- A write at the place `i` is behind the first `k` bytes, if these are.
insert-Kept :
    (buf : ℕ → Bytes → Bytes) (k : ℕ) (fmt : Bytes) (c : Chunk) (o : Option (ℕ × Bytes))
    → c.found ≡ o
    → Kept k fmt c
    → (take k (insert buf c o).fmt ≡ take k fmt) × (k ≤ (insert buf c o).i)
unfolding insert
insert-Kept buf k fmt c none e (same, behind, fits) = (same, behind)
insert-Kept buf k fmt c (some (f, ff)) e (same, behind, fits) = (
  take-replace k c.i (length ff) c.fmt (buf f ff) behind (omega (arith, fits f ff e)) ∙ same,
  omega arith,
)

put-Kept :
    (buf : ℕ → Bytes → Bytes) (k : ℕ) (fmt : Bytes) (l : Logger) (c : Chunk)
    → get_chunk l.i l.fmt ≡ some c
    → Kept k fmt c
    → (take k (put buf l).fmt ≡ take k fmt) × (k ≤ (put buf l).i)
unfolding put insert_found
put-Kept buf k fmt l c e kept = rw e (insert-Kept buf k fmt c c.found refl kept)

put_keeps :
    (buf : ℕ → Bytes → Bytes) (k : ℕ) (l : Logger)
    → k ≤ npos
    → k ≤ l.i
    → (take k (put buf l).fmt ≡ take k l.fmt) × (k ≤ (put buf l).i)
put_keeps buf k l small h =
    let (c, e) = get_chunk-some l.i l.fmt in
    put-Kept buf k l.fmt l c e (get_chunk-Kept k l.i l.fmt small h e)

pub put_all_keeps :
    (p : Printf) (xs : List (Arg p)) (k : ℕ) (l : Logger)
    → k ≤ npos
    → k ≤ l.i
    → take k (put_all p xs l).fmt ≡ take k l.fmt
unfolding put_all
put_all_keeps p [] k l small h = refl
put_all_keeps p (x ∷ xs) k l small h =
    let (same, behind) = put_keeps (buf_of p x) k l small h in
    put_all_keeps p xs k (put (buf_of p x) l) small behind ∙ same

take-inserted :
    (i n : ℕ) (s t : Bytes) → i ≤ length s → take (i + length t) (replace s i n t) ≡ take i s ++ t
unfolding replace
take-inserted i n s t h =
    let size : i + length t ≡ length (take i s ++ t) =
      omega (arith, length-append (take i s) t, length-take i s h) in
    ap (λ w. take w (take i s ++ (t ++ drop (i + n) s))) size
    ∙ ap (take (length (take i s ++ t))) (sym (append_assoc (take i s) t (drop (i + n) s)))
    ∙ take-length_append (take i s ++ t) (drop (i + n) s)

put-found :
    (buf : ℕ → Bytes → Bytes) (l : Logger) (c : Chunk) (f : ℕ) (ff : Bytes)
    → get_chunk l.i l.fmt ≡ some c
    → c.found ≡ some (f, ff)
    → put buf l
      ≡ record { i = c.i + length (buf f ff); fmt = replace c.fmt c.i (length ff) (buf f ff) }
unfolding put insert_found insert
put-found buf l c f ff e found = rw (e, found)

-- What an argument makes of the conversion that is its own stands in the message as `snprintf` made
-- it, behind what stood before the conversion, whatever the later arguments are: nothing of it is read
-- as a conversion. The message is shorter than 2^64 up to there.
pub put_all-cons :
    (p : Printf) (x : Arg p) (xs : List (Arg p)) (l : Logger) (c : Chunk) (f : ℕ) (ff : Bytes)
    → get_chunk l.i l.fmt ≡ some c
    → c.found ≡ some (f, ff)
    → l.i ≤ npos
    → c.i + length (buf_of p x f ff) ≤ npos
    → (take l.i c.fmt ≡ take l.i l.fmt)
      × (l.i ≤ c.i)
      × (take (c.i + length (buf_of p x f ff)) (put_all p (x ∷ xs) l).fmt
          ≡ take c.i c.fmt ++ buf_of p x f ff)
unfolding put_all
put_all-cons p x xs l c f ff e found small fits =
    let (same, behind, ends) = get_chunk-Kept l.i l.i l.fmt small (omega arith) e in
    let b = buf_of p x f ff in
    let now = put-found (buf_of p x) l c f ff e found in
    (
      same,
      behind,
      ap (λ m. take (c.i + length b) (put_all p xs m).fmt) now
          ∙ put_all_keeps p xs (c.i + length b)
              (record { i = c.i + length b; fmt = replace c.fmt c.i (length ff) b }) fits
              (omega arith)
          ∙ take-inserted c.i (length ff) c.fmt b (omega (arith, ends f ff found)),
    )

-- Two per cent signs at the beginning of a format with an argument do not come out as one: a backslash
-- and a per cent sign stand there in the end, whatever the arguments are.
pub put_all_percent :
    (p : Printf) (x : Arg p) (xs : List (Arg p)) (rest : Bytes)
    → take 2 (put_all p (x ∷ xs) (set (codes "%%" ++ rest))).fmt ≡ codes "\\%"
unfolding put_all put insert_found set get_chunk scan_rounds from_percent conversion index_from
    index_of moved replace
put_all_percent p x xs rest =
    let (c, e) = get_chunk-some 0 (codes "%%" ++ rest) in
    let kept =
      scan_rounds-Kept 2 (suc (suc (length rest))) 2 (codes "\\%" ++ rest) (omega arith)
        (omega arith) e in
    let l = set (codes "%%" ++ rest) in
    let (same, behind) = put-Kept (buf_of p x) 2 (codes "\\%" ++ rest) l c e kept in
    put_all_keeps p xs 2 (put (buf_of p x) l) (omega arith) behind ∙ same
