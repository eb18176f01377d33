-- ===== src/Daemon/Policy/Bounds.antt =====
-- What holds of the policy of every system.
use symnav.Prelude.{
  if◌then◌else◌, false, ◌≡◌, refl, ℕ, zero, suc, ◌*◌, ◌/◌, ◌≤◌, ◌<◌, max, Bool, true, ◌&&◌, ◌||◌,
  arith, ltb,
}
use symnav.Daemon.Policy.{
  DaemonSystemMemory, ResourcesPolicy, mebibyte, clamp, effective_memory_bytes_of, soft_of,
  resume_of, resources_of, from_system_memory,
}

ordered : ℕ → Bool
ordered x = ltb x 256 || (ltb (soft_of x) x && ltb (resume_of x) (soft_of x))

-- The test of every limit below a number.
table : ℕ → Bool
unfolding ordered
table zero = true
table (suc limit) = if ordered limit then table limit else false

ordered_in_table : (x limit : ℕ) → x < limit → table limit ≡ true → ordered x ≡ true
unfolding table
ordered_in_table x zero lt h = absurd (omega arith)
ordered_in_table x (suc limit) lt h = ground (arith, ordered_in_table x limit)

ordered_table : table 8193 ≡ true
unfolding table ordered soft_of resume_of
ordered_table = refl

-- For a hard limit between 256 and 8192 MiB the lower limits lie below it.
soft_resume : (x : ℕ) → 256 ≤ x → x ≤ 8192 → (soft_of x < x) × (resume_of x < soft_of x)
unfolding ordered
soft_resume x lo hi = ground (arith, ordered_in_table x 8193 (omega arith) ordered_table)

-- The limits on resident memory of the policy of a system.
pub record IsBounded (memory : DaemonSystemMemory) (r : ResourcesPolicy) : Type 0 where
  pub effective : r.effective_memory_bytes ≤ memory.total_bytes
  pub resume_soft : r.resume_process_rss_bytes < r.soft_process_rss_bytes
  pub soft_hard : r.soft_process_rss_bytes < r.hard_process_rss_bytes
  pub hard_least : 256 * mebibyte ≤ r.hard_process_rss_bytes
  pub hard_most : r.hard_process_rss_bytes ≤ 8192 * mebibyte
  pub hard_half :
      512 * mebibyte ≤ r.effective_memory_bytes
      → 2 * r.hard_process_rss_bytes ≤ r.effective_memory_bytes
  pub worker_least : 128 ≤ r.worker_max_old_generation_size_mib
  pub worker_most : r.worker_max_old_generation_size_mib ≤ 4096

effective-le : (memory : DaemonSystemMemory) → effective_memory_bytes_of memory ≤ memory.total_bytes
unfolding effective_memory_bytes_of
effective-le memory = ground arith

resources_of-IsBounded :
    (memory : DaemonSystemMemory) (bytes : ℕ)
    → bytes ≤ memory.total_bytes
    → IsBounded memory (resources_of bytes)
unfolding resources_of clamp
resources_of-IsBounded memory bytes h =
    let hard : ℕ = clamp (max 1 (bytes / mebibyte) / 2) 256 8192 in
    let (a, b) = soft_resume hard (omega arith) (omega arith) in omega (arith, a, b)

-- Whatever the memory of the system, the policy's limits on resident memory are in the order
-- resume, soft, hard; the hard limit is between 256 MiB and 8 GiB, and no more than half of what
-- the process may use if that is at least 512 MiB; the worker's heap is between 128 and 4096 MiB.
pub resources_bounds :
    (memory : DaemonSystemMemory) → IsBounded memory (from_system_memory memory).resources
unfolding from_system_memory
resources_bounds memory =
    resources_of-IsBounded memory (effective_memory_bytes_of memory) (effective-le memory)
