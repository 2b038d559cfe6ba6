-- ===== src/Process/GiveBack.antt =====
-- A data page of Kernel/process.c that is recorded and taken off again.
use tpe.Base.{ℕ, ◌<◌, ◌≡◌, ◌≢◌, refl, ◌∙◌, ap₂, List, [], ◌∷◌, length, set, arith, lt→ltb}
use tpe.Process.{Process, max_data_pages, add_data_page, remove_data_page, find_page}
use tpe.Process.Pages.{IsValid, occurrences, first, find_page-first, first_of_free}

-- The first free place, when it holds `page`, is the first that does.
first-set :
    (page : ℕ) (pages : List ℕ)
    → page ≢ 0
    → occurrences page pages ≡ 0
    → first 0 pages < length pages
    → first page (set pages (first 0 pages) page) ≡ first 0 pages
unfolding first occurrences
first-set page [] ne out h = absurd (omega arith)
first-set page (q ∷ pages) ne out h = ground (arith, first-set page pages ne)

set_back :
    (page : ℕ) (pages : List ℕ) → set (set pages (first 0 pages) page) (first 0 pages) 0 ≡ pages
unfolding first
set_back page [] = refl
set_back page (q ∷ pages) = ground (arith, set_back page pages)

-- A page that is not NULL and that a valid process with fewer than MAX_DATA_PAGES pages does not have
-- is recorded by `add_data_page`; taken off by `remove_data_page` it leaves the process as it was.
pub remove_data_page-add_data_page :
    (page : ℕ) (p : Process)
    → IsValid p
    → page ≢ 0
    → p.n_data_page < max_data_pages
    → occurrences page p.data_page ≡ 0
    → remove_data_page page (add_data_page page p) ≡ p
unfolding add_data_page remove_data_page
remove_data_page-add_data_page page p v ne room out =
    let free : first 0 p.data_page < length p.data_page = first_of_free p.data_page (omega arith) in
    let place : find_page 0 0 p.data_page ≡ first 0 p.data_page =
      find_page-first 0 0 p.data_page ∙ (omega arith) in
    let back : find_page page 0 (set p.data_page (first 0 p.data_page) page) ≡ first 0 p.data_page =
      find_page-first page 0 (set p.data_page (first 0 p.data_page) page)
      ∙ (omega (arith, first-set page p.data_page ne out free)) in
    let inside = lt→ltb (first 0 p.data_page) max_data_pages (omega arith) in
    rw (place, inside, back, inside)
      (ap₂ (λ n pages. record p { n_data_page = n; data_page = pages }) (omega arith)
        (set_back page p.data_page))
