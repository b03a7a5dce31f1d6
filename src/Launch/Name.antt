-- ===== src/Launch/Name.antt =====
-- src/job/launch.cxx: `set_process_name`, from the place for the name on.
use job.Prelude.{ℕ, ◌-◌, ◌++◌, Bytes, length, take, replicate}

-- The `size` bytes of the arguments and the environment, which are overwritten by the name.
unfoldable pub set_process_name : ℕ → Bytes → Bytes
set_process_name size name =
    let text = take (size - 2) name in text ++ replicate (size - length text) 0
