-- ===== src/Tests/Texts.antt =====
-- src/job/string.cxx and src/job/multipart.cxx at concrete inputs.
use job.Prelude.{◌≡◌, codes, some}
use job.Text.Replace.Shell.{plain, sh_word, sh_word-qq}
use job.Text.Replace.{qq}

sh_word-qq_example : sh_word plain (qq (codes "it's $HOME")) ≡ some (codes "it's $HOME")
sh_word-qq_example = sh_word-qq (codes "it's $HOME")
