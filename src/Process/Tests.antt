-- ===== src/Process/Tests.antt =====
-- The theorems on Kernel/process.c at a process with two pages and one open file.
use tpe.Base.{◌≡◌, refl, true, false, [], ◌∷◌, ◌==◌, if◌then◌else◌, replicate}
use tpe.Process.{Status, Process, Store, is_delete_process}
use tpe.Process.Pages.{IsValid, used, occurrences}

abbrev process : Process
process = record {
  st = Status.ready;
  name = [];
  entry_point = 0;
  rsp = 0;
  stack_page = 0;
  n_data_page = 2;
  data_page = 0x501000 ∷ 0 ∷ 0x503000 ∷ replicate 61 0;
  pid = 5;
  ppid = 1;
  open_fds = false ∷ true ∷ replicate 62 false;
}

process-IsValid : IsValid process
unfolding used
process-IsValid = record { size = refl; counted = refl }

page_occurs : occurrences 0x503000 process.data_page ≡ 1
unfolding occurrences
page_occurs = refl

-- The process at 0x700 is marked for deletion, all others are ready.
abbrev store : Store
store p = if p == 0x700 then record process { st = Status.delete } else process

marked : is_delete_process 0x700 store ≡ true
unfolding is_delete_process
marked = refl

unmarked : is_delete_process 0x800 store ≡ false
unfolding is_delete_process
unmarked = refl
