-- ===== src/Process/Pages.antt =====
-- The data pages that Kernel/process.c keeps for a process: the counter counts the pages of the array.
use tpe.Base.{
  ℕ, zero, suc, ◌+◌, ◌≤◌, ◌<◌, ◌≡◌, ◌≢◌, refl, ◌∙◌, List, [], ◌∷◌, ◌==◌, if◌then◌else◌, length, set,
  arith, length-set, lt→ltb,
}
use tpe.Process.{
  Process, max_data_pages, find_page, add_data_page, remove_data_page, collect_pages,
  data_pages_process,
}

-- The pages of the array, in order.
unfoldable pub used : List ℕ → List ℕ
used [] = []
used (q ∷ pages) = if q == 0 then used pages else (q ∷ used pages)

-- How often a page stands in the array.
unfoldable pub occurrences : ℕ → List ℕ → ℕ
occurrences page [] = 0
occurrences page (q ∷ pages) = (if q == page then 1 else 0) + occurrences page pages

pub record IsValid (p : Process) : Type 0 where
  pub size : length p.data_page ≡ max_data_pages
  pub counted : p.n_data_page ≡ length (used p.data_page)

length-used : (pages : List ℕ) → length (used pages) ≤ length pages
unfolding used
length-used [] = omega arith
length-used (q ∷ pages) = ground (arith, length-used pages)

eq_nil_of_length : (pages : List ℕ) → 0 ≡ length pages → [] ≡ pages
eq_nil_of_length [] e = refl
eq_nil_of_length (q ∷ pages) e = absurd (omega arith)

-- The first place that holds `page`, or the length.
unfoldable pub first : ℕ → List ℕ → ℕ
first page [] = 0
first page (q ∷ pages) = if q == page then 0 else suc (first page pages)

pub find_page-first : (page i : ℕ) (pages : List ℕ) → find_page page i pages ≡ i + first page pages
unfolding find_page first
find_page-first page i [] = omega arith
find_page-first page i (q ∷ pages) = ground (arith, find_page-first page (i + 1) pages)

first-le : (page : ℕ) (pages : List ℕ) → first page pages ≤ length pages
unfolding first
first-le page [] = omega arith
first-le page (q ∷ pages) = ground (arith, first-le page pages)

-- Storing a page in the first free place.
store-used :
    (page : ℕ) (pages : List ℕ)
    → page ≢ 0
    → first 0 pages < length pages
    → length (used (set pages (first 0 pages) page)) ≡ length (used pages) + 1
unfolding used first
store-used page [] ne h = absurd (omega arith)
store-used page (q ∷ pages) ne h = ground (arith, store-used page pages ne)

store-occurrences :
    (page x : ℕ) (pages : List ℕ)
    → x ≢ 0
    → first 0 pages < length pages
    → occurrences x (set pages (first 0 pages) page)
      ≡ occurrences x pages + (if page == x then 1 else 0)
unfolding occurrences first
store-occurrences page x [] ne h = absurd (omega arith)
store-occurrences page x (q ∷ pages) ne h = ground (arith, store-occurrences page x pages ne)

-- Clearing the first place of a page.
clear-used :
    (page : ℕ) (pages : List ℕ)
    → page ≢ 0
    → first page pages < length pages
    → length (used (set pages (first page pages) 0)) + 1 ≡ length (used pages)
unfolding used first
clear-used page [] ne h = absurd (omega arith)
clear-used page (q ∷ pages) ne h = ground (arith, clear-used page pages ne)

clear-occurrences :
    (page x : ℕ) (pages : List ℕ)
    → x ≢ 0
    → first page pages < length pages
    → occurrences x (set pages (first page pages) 0) + (if page == x then 1 else 0)
      ≡ occurrences x pages
unfolding occurrences first
clear-occurrences page x [] ne h = absurd (omega arith)
clear-occurrences page x (q ∷ pages) ne h = ground (arith, clear-occurrences page x pages ne)

pub first_of_free :
    (pages : List ℕ) → length (used pages) < length pages → first 0 pages < length pages
unfolding used first
first_of_free [] h = absurd (omega arith)
first_of_free (q ∷ pages) h = ground (arith, first_of_free pages)

first_of_occurs :
    (page : ℕ) (pages : List ℕ) → 0 < occurrences page pages → first page pages < length pages
unfolding occurrences first
first_of_occurs page [] h = absurd (omega arith)
first_of_occurs page (q ∷ pages) h = ground (arith, first_of_occurs page pages)

-- `add_data_page`, for a page that is not NULL and while the process has fewer than
-- MAX_DATA_PAGES pages: the page is recorded once more, every other page as often as before, and the
-- counter still counts the pages.
pub add_data_page-IsValid :
    (page : ℕ) (p : Process)
    → IsValid p
    → page ≢ 0
    → p.n_data_page < max_data_pages
    → IsValid (add_data_page page p)
      × ((x : ℕ)
          → x ≢ 0
          → occurrences x (add_data_page page p).data_page
            ≡ occurrences x p.data_page + (if page == x then 1 else 0))
unfolding add_data_page
add_data_page-IsValid page p v ne room =
    let free : first 0 p.data_page < length p.data_page = first_of_free p.data_page (omega arith) in
    let place : find_page 0 0 p.data_page ≡ first 0 p.data_page =
      find_page-first 0 0 p.data_page ∙ (omega arith) in
    rw (place, lt→ltb (first 0 p.data_page) max_data_pages (omega arith))
      (
        record {
          size = length-set p.data_page (first 0 p.data_page) page ∙ v.size;
          counted = omega (arith, store-used page p.data_page ne free);
        },
        λ x nx. store-occurrences page x p.data_page nx free,
      )

-- `remove_data_page`, for a page that is not NULL and that the process has: it is recorded once
-- less, every other page as often as before, and the counter still counts the pages.
pub remove_data_page-IsValid :
    (page : ℕ) (p : Process)
    → IsValid p
    → page ≢ 0
    → 0 < occurrences page p.data_page
    → IsValid (remove_data_page page p)
      × ((x : ℕ)
          → x ≢ 0
          → occurrences x (remove_data_page page p).data_page + (if page == x then 1 else 0)
            ≡ occurrences x p.data_page)
unfolding remove_data_page
remove_data_page-IsValid page p v ne has =
    let found : first page p.data_page < length p.data_page =
      first_of_occurs page p.data_page has in
    let place : find_page page 0 p.data_page ≡ first page p.data_page =
      find_page-first page 0 p.data_page ∙ (omega arith) in
    rw (place, lt→ltb (first page p.data_page) max_data_pages (omega arith))
      (
        record {
          size = length-set p.data_page (first page p.data_page) 0 ∙ v.size;
          counted = omega (arith, clear-used page p.data_page ne found, length-used p.data_page);
        },
        λ x nx. clear-occurrences page x p.data_page nx found,
      )

clear_free : (pages : List ℕ) → set pages (first 0 pages) 0 ≡ pages
unfolding first
clear_free [] = refl
clear_free (q ∷ pages) = ground (arith, clear_free pages)

-- Freeing NULL while the process has fewer than MAX_DATA_PAGES pages takes no page from the array and
-- still counts one less: from then on the counter is wrong.
pub remove_data_page-null :
    (p : Process)
    → IsValid p
    → p.n_data_page < max_data_pages
    → ((remove_data_page 0 p).data_page ≡ p.data_page) × ¬ IsValid (remove_data_page 0 p)
unfolding remove_data_page
remove_data_page-null p v room =
    let free : first 0 p.data_page < length p.data_page = first_of_free p.data_page (omega arith) in
    let place : find_page 0 0 p.data_page ≡ first 0 p.data_page =
      find_page-first 0 0 p.data_page ∙ (omega arith) in
    rw (place, lt→ltb (first 0 p.data_page) max_data_pages (omega arith), clear_free p.data_page)
      (refl, λ w. omega (arith, w.counted))

collect_pages-used :
    (pages : List ℕ) (n : ℕ) → n ≡ length (used pages) → collect_pages pages n ≡ used pages
unfolding collect_pages used
collect_pages-used [] n e = refl
collect_pages-used (q ∷ pages) zero e = ground (arith, eq_nil_of_length (used pages))
collect_pages-used (q ∷ pages) (suc n) e =
    ground (arith, collect_pages-used pages n, collect_pages-used pages (suc n))

-- `data_pages_process` gives all the pages of the process, in the order of the array, although it
-- stops at the counter.
pub data_pages_process-used : (p : Process) → IsValid p → data_pages_process p ≡ used p.data_page
unfolding data_pages_process
data_pages_process-used p v = collect_pages-used p.data_page p.n_data_page v.counted
