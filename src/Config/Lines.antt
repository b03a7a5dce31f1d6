-- ===== src/Config/Lines.antt =====
-- What `load` of a configuration does with a printed line.
use job.Config.{
  Reader, on, load_line, load_from, count_blanks, section_name, name_rest, is_name_end,
  starts_closing, enter_section, add_entry, print_entry, is_config_id, with_section,
}
use job.Multipart.Entry.{IsValue, scan_line_entry}
use job.Multipart.Scanning.{AllPlain, IsPlain, AllTag}
use job.Multipart.Lines.{AllPlain-append}
use job.Multipart.Parts.{blanks_plain, IsValue-AllPlain}
use job.Multipart.Scan.{scan_line, is_id, scanned_line, scan_loop, finish_line}
use job.Multipart.Section.{set_tag}
use job.Prelude.{
  ℕ, suc, ◌-◌, true, false, [], ◌∷◌, ◌++◌, Bytes, codes, ◌==◌, length, replicate, str_eq, is_blank,
  is_alnum, ◌≡◌, refl, ap, ◌∙◌, arith, append_assoc,
}

-- The bytes of a tag of a configuration.
abbrev pub AllConfigId : Bytes → Type 0
AllConfigId [] = Unit
AllConfigId (c ∷ cs) = (is_config_id c ≡ true) × AllConfigId cs

config_id_byte :
    (c : ℕ)
    → is_config_id c ≡ true
    → (is_blank c ≡ false) × IsPlain c × ((c == b'#') ≡ false) × ((c == b'[') ≡ false)
unfolding is_config_id is_id is_alnum is_blank
config_id_byte c h = (ground arith, ground arith, ground arith, ground arith)

AllConfigId-AllTag : (cs : Bytes) → AllConfigId cs → AllTag is_config_id false cs
AllConfigId-AllTag [] a = tt
AllConfigId-AllTag (c ∷ cs) a =
    let (b, p, _, _) = config_id_byte c a.0 in ((a.0, b, p), AllConfigId-AllTag cs a.1)

AllConfigId-AllPlain : (cs : Bytes) → AllConfigId cs → AllPlain cs
AllConfigId-AllPlain [] a = tt
AllConfigId-AllPlain (c ∷ cs) a =
    let (_, p, _, _) = config_id_byte c a.0 in (p, AllConfigId-AllPlain cs a.1)

-- A printed entry without its newline.
abbrev pub entry_text : Bytes → Bytes → Bytes
entry_text k v = k ++ (codes ": " ++ (replicate (11 - length k) b' ' ++ v))

pub entry_text-AllPlain : (k v : Bytes) → AllConfigId k → IsValue v → AllPlain (entry_text k v)
entry_text-AllPlain k v a h =
    AllPlain-append k (codes ": " ++ (replicate (11 - length k) b' ' ++ v))
      (AllConfigId-AllPlain k a)
      (
        refl,
        (
          refl,
          AllPlain-append (replicate (11 - length k) b' ') v (blanks_plain (11 - length k))
              (IsValue-AllPlain h),
        ),
      )

entry_text_line :
    (k v rest : Bytes)
    → entry_text k v ++ b'\n' ∷ rest
      ≡ k ++ (b':' ∷ (replicate (suc (11 - length k)) b' ' ++ (v ++ b'\n' ∷ rest)))
entry_text_line k v rest = simp append_assoc

pub print_entry_text :
    (c : ℕ) (cs v rest : Bytes)
    → is_config_id c ≡ true
    → print_entry (c ∷ cs) v ++ rest ≡ entry_text (c ∷ cs) v ++ b'\n' ∷ rest
unfolding print_entry str_eq
print_entry_text c cs v rest h =
    let (_, _, no_comment, _) = config_id_byte c h in rw no_comment (simp append_assoc)

-- The line of an entry sets the tag of the section that is open.
pub load_line-entry :
    (r : Reader) (c : ℕ) (cs v : Bytes)
    → AllConfigId (c ∷ cs)
    → IsValue v
    → load_line r (entry_text (c ∷ cs) v ++ b'\n' ∷ [])
      ≡ on (record r { cfg = with_section r.sec (set_tag (c ∷ cs) v) r.cfg })
unfolding load_line load_from count_blanks add_entry
load_line-entry r c cs v a h =
    let (no_blank, _, no_comment, no_section) = config_id_byte c a.0 in
    let line = entry_text_line (c ∷ cs) v [] in
    let read =
      scan_line_entry is_config_id false (unfold is_config_id is_id is_alnum in refl) c cs
        (suc (11 - length (c ∷ cs))) v [] (AllConfigId-AllTag (c ∷ cs) a) h in
    rw (no_blank, no_comment, no_section)
      (ap (add_entry r) (ap (scan_line is_config_id false 0) line ∙ read))

-- The bytes of a section's name.
abbrev pub AllName : Bytes → Type 0
AllName [] = Unit
AllName (c ∷ cs) = (is_name_end c ≡ false) × IsPlain c × AllName cs

AllName-AllPlain : (cs : Bytes) → AllName cs → AllPlain cs
AllName-AllPlain [] a = tt
AllName-AllPlain (c ∷ cs) a = (a.1, AllName-AllPlain cs a.2)

pub name_text-AllPlain : (name : Bytes) → AllName name → AllPlain (b'[' ∷ (name ++ codes "]"))
name_text-AllPlain name a =
    (refl, AllPlain-append name (codes "]") (AllName-AllPlain name a) (refl, tt))

name_rest_name : (cs rest : Bytes) → AllName cs → name_rest (cs ++ b']' ∷ rest) ≡ (cs, b']' ∷ rest)
unfolding name_rest is_name_end is_blank
name_rest_name [] rest a = refl
name_rest_name (c ∷ cs) rest a = rw (a.0, name_rest_name cs rest a.2)

name_no_blank : (c : ℕ) → is_name_end c ≡ false → is_blank c ≡ false
unfolding is_name_end
name_no_blank c h = ground arith

-- The line of a section opens it.
pub load_line-name :
    (r : Reader) (c : ℕ) (cs : Bytes)
    → AllName (c ∷ cs)
    → load_line r (b'[' ∷ ((c ∷ cs) ++ codes "]\n")) ≡ on (record r { sec = c ∷ cs })
unfolding load_line load_from count_blanks section_name enter_section starts_closing is_blank
load_line-name r c cs a = rw (name_no_blank c a.0, name_rest_name cs (b'\n' ∷ []) a.2)

pub load_line-empty : (r : Reader) → load_line r (b'\n' ∷ []) ≡ on r
unfolding load_line load_from count_blanks is_blank scan_line scanned_line scan_loop finish_line
    add_entry
load_line-empty r = refl
