-- ===== src/SystemCalls/Pages.antt =====
-- Kernel/systemCalls.c: the pages that a program asks for and gives back.
use tpe.Base.{ℕ}
use tpe.Process.{Process, modify, add_data_page, remove_data_page}
use tpe.Kernel.{Kernel, M, pure, ◌>>=◌, ◌>>◌, update, get_current_process}
use tpe.Mutex.{Ops, get_page, store_page}

-- A change of the structure of the current process.
abbrev pub of_current : (Process → Process) → Kernel → Kernel
of_current f k = record k { processes = modify f (get_current_process k) k.processes }

module _ (ops : Ops) where
  -- The number of bytes is not read.
  unfoldable pub sys_malloc : ℕ → M ℕ
  sys_malloc bytes = do page ← get_page ops; update (of_current (add_data_page page)); pure page

  unfoldable pub sys_free : ℕ → M ℕ
  sys_free address = do update (of_current (remove_data_page address)); store_page ops address
