-- ===== src/Tests/Databases.antt =====
-- Databases with one entry.
use mws.Prelude.{ℕ, ◌+◌, ◌≡◌, refl, [], ◌∷◌, some, arith, take, drop}
use mws.Prelude.Bytes.{codes}
use mws.Common.Parcel.{FormulaPath}
use mws.Dbc.{
  MemCrawlDb, MemFormulaDb, find_key, get_data, Outcome, ok, query_formula, query_answers,
}
use mws.Dbc.Crawl.{IsNumbered}
use mws.Dbc.Page.{
  formulas, deliver, query_formula-eq-deliver, answers, collect, query_answers-collect,
}

abbrev path : FormulaPath
path = record { xml_id = codes "page1"; xpath = codes "/*[1]" }

abbrev one_page : MemCrawlDb
one_page = record { data_ = (1, codes "<page/>") ∷ []; next_crawl_id = 1 }

one_page-IsNumbered : IsNumbered one_page
one_page-IsNumbered = record { ids = ((omega arith, omega arith), tt) }

abbrev one_formula : MemFormulaDb
one_formula = (3, record { crawl_id = 1; formula_path = path } ∷ []) ∷ []

-- A callback that counts.
abbrev counter : ℕ → ℕ → FormulaPath → ℕ × Outcome
counter n crawl_id p = (n + 1, ok)

query_formula-eq-deliver_example :
    query_formula one_formula 3 0 10 counter 0
    ≡ deliver counter (take 10 (drop 0 (formulas one_formula 3))) 0
query_formula-eq-deliver_example = query_formula-eq-deliver counter one_formula 3 0 10 0

query_answers-collect_example :
    query_answers (some one_page) one_formula 3 0 10 collect []
    ≡ (answers one_page (take 10 (drop 0 (formulas one_formula 3))), ok)
unfolding find_key get_data
query_answers-collect_example =
    query_answers-collect one_page one_formula 3 0 10 ((codes "<page/>", refl), tt)
