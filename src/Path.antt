-- ===== src/Path.antt =====
-- src/job/path.cxx: the directories and files of the batch facility under a root directory.
use job.Prelude.{Bool, true, false, [], ◌∷◌, ◌++◌, Bytes, codes, ◌==◌, if◌then◌else◌, ◌≡◌, refl}

pub record Paths : Type 0 where
  pub rootdir : Bytes
  pub bindir : Bytes
  pub cfgdir : Bytes
  pub qcfdir : Bytes
  pub jobdir : Bytes
  pub logdir : Bytes
  pub tmpdir : Bytes
  pub vlbdir : Bytes
  pub cfgfile : Bytes
  pub seqfile : Bytes
  pub tsttmp : Bytes

-- `!root.empty() && root[root.size()-1] == '/'`
unfoldable pub ends_in_slash : Bytes → Bool
ends_in_slash [] = false
ends_in_slash (c ∷ []) = c == b'/'
ends_in_slash (c ∷ (d ∷ s)) = ends_in_slash (d ∷ s)

unfoldable pub paths_of : Bytes → Paths
paths_of rootdir = record {
  rootdir = rootdir;
  bindir = rootdir ++ codes "usr/bin/";
  cfgdir = rootdir ++ codes "etc/job/";
  qcfdir = rootdir ++ codes "etc/job/qdefs/";
  jobdir = rootdir ++ codes "var/spool/job/";
  logdir = rootdir ++ codes "var/log/job/";
  tmpdir = rootdir ++ codes "tmp/job/";
  vlbdir = rootdir ++ codes "var/lib/job/";
  cfgfile = (rootdir ++ codes "etc/job/") ++ codes "job.conf";
  seqfile = (rootdir ++ codes "var/lib/job/") ++ codes "job.seq";
  tsttmp = codes "./test/tmp/";
}

unfoldable pub set_root : Bytes → Paths
unfolding ends_in_slash paths_of
set_root root = paths_of (if ends_in_slash root then root else root ++ codes "/")

ends_in_slash-append : (root : Bytes) → ends_in_slash (root ++ codes "/") ≡ true
unfolding ends_in_slash
ends_in_slash-append [] = refl
ends_in_slash-append (c ∷ []) = refl
ends_in_slash-append (c ∷ (d ∷ s)) = ends_in_slash-append (d ∷ s)

-- A root without a slash at its end gives the paths of the root with one.
set_root_slash :
    (root : Bytes) → ends_in_slash root ≡ false → set_root root ≡ set_root (root ++ codes "/")
unfolding set_root
set_root_slash root h = rw (h, ends_in_slash-append root)
