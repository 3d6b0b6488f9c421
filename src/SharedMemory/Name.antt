-- ===== src/SharedMemory/Name.antt =====
-- The name of the object in shared_memory.c and shared_memory_block.c, made of the process's number.
use linux_application_layer.Common.{
  ℕ, ◌^◌, ◌<◌, ◌≡◌, List, [], ◌∷◌, ◌++◌, arith, length, drop, decimal, read_from, read_from-decimal,
  length-decimal,
}

-- `sprintf(shmName, "/letter%d", getpid())`; an int has at most ten digits.
abbrev pub shm_name : (pid : ℕ) → List ℕ
shm_name pid =
    let slash_letter = 47 ∷ 108 ∷ 101 ∷ 116 ∷ 116 ∷ 101 ∷ 114 ∷ [] in slash_letter ++ decimal 10 pid

abbrev pub pid_of : List ℕ → ℕ
pid_of name = read_from 0 (drop 7 name)

-- The name of an object holds the process's number, which reads back from it, and
-- it fits with its NUL into the 100 bytes of `shmName`.
pub name_tells_pid :
    (pid : ℕ) → pid < 2 ^ 31 → (pid_of (shm_name pid) ≡ pid) × (length (shm_name pid) < 100)
name_tells_pid pid h =
    (read_from-decimal 10 pid (omega (arith, h)), omega (arith, length-decimal 10 pid))
