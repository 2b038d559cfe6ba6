-- ===== src/Launcher/Arguments.antt =====
-- The arguments that a program is given by `execp` and `executer` of Kernel/executer.c.
use tpe.Base.{
  ℕ, ◌+◌, ◌<◌, ◌≡◌, refl, ◌∙◌, some, List, [], ◌∷◌, length, get_elem?, set, length-set,
  get_elem?-set_self, get_elem?-set_ne, arith, lt→ltb,
}
use mathlib.Core.Path.{subst}
use tpe.Launcher.{Page, EntryCall, arg_strings, build_loop, build_arguments, fill_page, executer}
use tpe.Launcher.Split.{Args, ArgsAt, arguments_of}
use tpe.Launcher.Built.{argument_pointers-Args, build_loop-Built}

-- What a program of a page is called with.
pub record Called (function : ℕ) (memory : Page) (ws : List (List ℕ)) (call : EntryCall)
    (filled : Page) : Type 0 where
  pub function_given : call.function ≡ function
  pub same_address : filled.address ≡ memory.address
  pub same_size : length filled.strings ≡ length memory.strings
  pub argv_given : Args (arg_strings memory.address) filled.strings call.argv ws

module _ (function : ℕ) (page : Page) where
  -- The array of pointers with the function in front.
  abbrev with_function : List ℕ
  with_function = set page.pointers 0 function

  fill_page-Built :
      (arg : List ℕ)
      → length arg < length page.strings
      → 1 + length (arguments_of arg) < length page.pointers
      → (s : List ℕ) × (p : List ℕ) × (fill_page function arg page
          ≡ some (record page { strings = s; pointers = p }))
        × (length s ≡ length page.strings)
        × (get_elem? p 0 ≡ some function)
        × ArgsAt (arg_strings page.address) s p 1 (arguments_of arg)
  unfolding fill_page build_arguments arguments_of
  fill_page-Built [] room space = (
    page.strings,
    set with_function 1 0,
    rw
        (
          lt→ltb 0 (length page.pointers) (omega arith),
          lt→ltb 1 (length with_function) (omega (arith, length-set page.pointers 0 function)),
        )
        refl,
    refl,
    get_elem?-set_ne with_function 1 0 0 (omega arith)
        ∙ get_elem?-set_self page.pointers 0 function (omega arith),
    get_elem?-set_self with_function 1 0 (omega (arith, length-set page.pointers 0 function)),
  )
  fill_page-Built (c ∷ arg) room space =
      let (s, p, ran, built) =
        build_loop-Built (arg_strings page.address) (c ∷ arg) 0 0 0 [] page.strings with_function tt
          (omega arith) (omega arith) (omega (arith, length-set page.pointers 0 function)) in
      let ran' : build_loop (arg_strings page.address) (c ∷ arg) 0 0 (arg_strings page.address)
            page.strings with_function
          ≡ some (s, p) =
        subst
          (λ q.
            build_loop (arg_strings page.address) (c ∷ arg) 0 0 q page.strings with_function
            ≡ some (s, p))
          {x = arg_strings page.address + 0} {y = arg_strings page.address} (omega arith) ran in
      (
        s,
        p,
        rw (lt→ltb 0 (length page.pointers) (omega arith), ran') refl,
        built.size,
        built.old_pointers 0 (omega arith)
            ∙ get_elem?-set_self page.pointers 0 function (omega arith),
        built.args,
      )

  -- `execp` fills a page that has room for the line and for a pointer to each of its arguments and
  -- the NULL, and `executer` then calls the function with a pointer to each argument, in their order.
  -- The pointers lead to the page that `execp` filled, not to the copy at `memory`.
  pub executer-Called :
      (memory : ℕ) (arg : List ℕ)
      → length arg < length page.strings
      → 1 + length (arguments_of arg) < length page.pointers
      → (filled : Page) × (call : EntryCall) × (fill_page function arg page ≡ some filled)
        × (executer memory filled ≡ some (call, record filled { address = memory }))
        × Called function page (arguments_of arg) call filled
  unfolding executer
  executer-Called memory arg room space =
      let (s, p, ran, size, front, args) = fill_page-Built arg room space in
      let (ps, read, given) =
        argument_pointers-Args (arg_strings page.address) s p 1 (arguments_of arg) (omega arith)
          args in
      (
        record page { strings = s; pointers = p },
        record { function = function; argv = ps },
        ran,
        rw (front, read) refl,
        record { function_given = refl; same_address = refl; same_size = size; argv_given = given },
      )
