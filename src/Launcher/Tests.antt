-- ===== src/Launcher/Tests.antt =====
-- The theorem on Kernel/executer.c for a program that is started with "ab c".
use tpe.Base.{◌≡◌, some, replicate, codes, arith}
use tpe.Launcher.{Page, EntryCall, fill_page, executer}
use tpe.Launcher.Split.{arguments_of, split_from}
use tpe.Launcher.Arguments.{Called, executer-Called}

abbrev page : Page
page = record { address = 0x501000; pointers = replicate 32 0; strings = replicate 3840 0 }

executer-Called_example :
    (filled : Page) × (call : EntryCall) × (fill_page 0x400100 (codes "ab c") page ≡ some filled)
    × (executer 0x502000 filled ≡ some (call, record filled { address = 0x502000 }))
    × Called 0x400100 page (arguments_of (codes "ab c")) call filled
unfolding arguments_of split_from
executer-Called_example =
    executer-Called 0x400100 page 0x502000 (codes "ab c") (omega arith) (omega arith)
