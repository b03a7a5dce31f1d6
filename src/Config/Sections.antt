-- ===== src/Config/Sections.antt =====
-- Writes to the last section of a configuration.
use job.Config.{Config, with_section}
use job.Multipart.Order.{AllBefore, set_tag_last, same_key_self}
use job.Multipart.Section.{Section, set_tag}
use job.Prelude.{[], ◌∷◌, ◌++◌, Bytes, ◌≡◌, refl, ap, ◌∙◌}

with_section_new :
    (c : Config) (sec : Bytes) (f : Section → Section)
    → AllBefore c sec
    → with_section sec f c ≡ c ++ (sec, f []) ∷ []
unfolding with_section
with_section_new [] sec f h = refl
with_section_new ((k, m) ∷ c) sec f h = rw (h.0, h.1, with_section_new c sec f h.2)

with_section_last :
    (c : Config) (sec : Bytes) (f : Section → Section) (m : Section)
    → AllBefore c sec
    → with_section sec f (c ++ (sec, m) ∷ []) ≡ c ++ (sec, f m) ∷ []
unfolding with_section
with_section_last [] sec f m h = rw (same_key_self sec)
with_section_last ((k, n) ∷ c) sec f m h = rw (h.0, h.1, with_section_last c sec f m h.2)

-- The first entry of a new section, and the next one of the last section.
pub with_section-set_tag_new :
    (c : Config) (sec tag v : Bytes)
    → AllBefore c sec
    → with_section sec (set_tag tag v) c ≡ c ++ (sec, (tag, v) ∷ []) ∷ []
unfolding set_tag
with_section-set_tag_new c sec tag v h = with_section_new c sec (set_tag tag v) h

pub with_section-set_tag_last :
    (c : Config) (sec tag v : Bytes) (m : Section)
    → AllBefore c sec
    → AllBefore m tag
    → with_section sec (set_tag tag v) (c ++ (sec, m) ∷ []) ≡ c ++ (sec, m ++ (tag, v) ∷ []) ∷ []
with_section-set_tag_last c sec tag v m h k =
    with_section_last c sec (set_tag tag v) m h
    ∙ ap (λ n. c ++ (sec, n) ∷ []) (set_tag_last m tag v k)
