-- ===== src/Process/State.antt =====
-- The states of a process of Kernel/process.c: deletion is final, but for two functions.
use tpe.Base.{ltb, ◌||◌, ◌≢◌, ℕ, ◌<◌, ◌≡◌, true, false, arith}
use tpe.Process.{
  Store, kill_process, is_delete_process, is_blocked_process, block_process, unblock_process,
  unblock_read_process, block_read_process, block_foreground_process, unblock_foreground_process,
}

-- A process that is marked for deletion stays marked through `block_process`, `unblock_process`,
-- `unblock_read_process`, `unblock_foreground_process` and `kill_process` of any process, itself
-- included.
pub delete_is_final :
    (p q : ℕ) (s : Store)
    → is_delete_process p s ≡ true
    → (is_delete_process p (block_process q s) ≡ true)
      × (is_delete_process p (unblock_process q s) ≡ true)
      × (is_delete_process p (unblock_read_process q s) ≡ true)
      × (is_delete_process p (unblock_foreground_process q s) ≡ true)
      × (is_delete_process p (kill_process q s).1 ≡ true)
unfolding is_delete_process block_process unblock_process unblock_read_process
    unblock_foreground_process kill_process
delete_is_final p q s h = (ground arith, ground arith, ground arith, ground arith, ground arith)

-- `block_read_process` and `block_foreground_process` take the mark off again: a process killed
-- before it blocks on a read, or for the foreground, is not deleted.
pub blocking_revives :
    (p : ℕ) (s : Store)
    → 0 < p
    → (is_delete_process p (block_read_process p (kill_process p s).1) ≡ false)
      × (is_delete_process p (block_foreground_process p (kill_process p s).1) ≡ false)
unfolding is_delete_process block_read_process block_foreground_process kill_process
blocking_revives p s h = (ground arith, ground arith)

-- `kill_process` of a pointer that is not NULL returns 1. The process is marked afterwards when its
-- pid is above 1, and otherwise, for INIT and SHELL, when it was before; no other process changes.
pub kill_process_lem :
    (p : ℕ) (s : Store)
    → 0 < p
    → ((kill_process p s).0 ≡ true)
      × (is_delete_process p (kill_process p s).1 ≡ (ltb 1 (s p).pid || is_delete_process p s))
      × ((q : ℕ) → q ≢ p → (kill_process p s).1 q ≡ s q)
unfolding is_delete_process kill_process
kill_process_lem p s h = (ground arith, ground arith, λ q off. ground arith)

-- Blocking and unblocking a process that is not marked makes it blocked and not blocked.
pub block_unblock :
    (p : ℕ) (s : Store)
    → 0 < p
    → is_delete_process p s ≡ false
    → (is_blocked_process p (block_process p s) ≡ true)
      × (is_blocked_process p (unblock_process p (block_process p s)) ≡ false)
      × (is_blocked_process p (unblock_read_process p (block_read_process p s)) ≡ false)
unfolding is_delete_process is_blocked_process block_process unblock_process block_read_process
    unblock_read_process
block_unblock p s h k = (ground arith, ground arith, ground arith)
