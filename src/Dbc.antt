-- ===== src/Dbc.antt =====
-- src/mws/dbc: the databases in memory (MemCrawlDb, MemFormulaDb) and DbQueryManager. A
-- `std::map` is a list of entries with different keys. The state that a callback keeps is passed
-- through, and an exception is an outcome.
pub mod Crawl
pub mod Page
pub mod Infos
pub mod Lev
use mws.Prelude.{
  ℕ, suc, ◌+◌, ◌%◌, Option, none, some, List, [], ◌∷◌, ◌++◌, length, drop, ◌==◌, ltb, leb,
  if◌then◌else◌,
}
use mws.Prelude.Bytes.{Bytes}
use mws.Prelude.Bits.{u32_mod}
use mws.Common.Parcel.{FormulaPath}

-- `map::find`
unfoldable pub find_key {ℓ} : {A : Type ℓ} → ℕ → List (ℕ × A) → Option A
find_key key [] = none
find_key key ((k, v) ∷ rest) = if k == key then some v else find_key key rest

-- CRAWLID_NULL and CRAWLDATA_NULL
abbrev pub crawl_id_null : ℕ
crawl_id_null = 0

abbrev pub crawl_data_null : Bytes
crawl_data_null = []

pub record MemCrawlDb : Type 0 where
  pub data_ : List (ℕ × Bytes)
  pub next_crawl_id : ℕ

abbrev pub new_crawl_db : MemCrawlDb
new_crawl_db = record { data_ = []; next_crawl_id = crawl_id_null }

-- `putData`: the id that was given out, or `none` for the exception.
unfoldable pub put_data : MemCrawlDb → Bytes → MemCrawlDb × Option ℕ
put_data db crawl_data =
    let crawl_id = (db.next_crawl_id + 1) % u32_mod in
    elim (find_key crawl_id db.data_) [
      | some _ ↦ (record db { next_crawl_id = crawl_id }, none)
      | none ↦ (
        record { data_ = (crawl_id, crawl_data) ∷ db.data_; next_crawl_id = crawl_id },
        some crawl_id,
      )
    ]

-- `getData`; `none` is the exception.
unfoldable pub get_data : MemCrawlDb → ℕ → Option Bytes
get_data db crawl_id = find_key crawl_id db.data_

-- MemFormulaDb::FormulaInfo
pub record FormulaInfo : Type 0 where
  pub crawl_id : ℕ
  pub formula_path : FormulaPath

abbrev pub MemFormulaDb : Type 0
MemFormulaDb = List (ℕ × List FormulaInfo)

-- `mData[formulaId].push_back(formulaInfo)`
unfoldable pub insert_formula : MemFormulaDb → ℕ → ℕ → FormulaPath → MemFormulaDb
insert_formula [] formula_id crawl_id path =
    (formula_id, record { crawl_id = crawl_id; formula_path = path } ∷ []) ∷ []
insert_formula ((k, infos) ∷ rest) formula_id crawl_id path =
    let below = insert_formula rest formula_id crawl_id path in
    if k == formula_id
    then (k, infos ++ record { crawl_id = crawl_id; formula_path = path } ∷ []) ∷ rest
    else (k, infos) ∷ below

-- What a callback or a query comes to: 0, another number, or an exception.
pub data Outcome : Type 0 where
  ok failed thrown : Outcome

-- The loop of `queryFormula`, from the entry at `limitMin` on, in round `i`.
unfoldable pub query_loop {ℓ} :
    {S : Type ℓ} → (S → ℕ → FormulaPath → S × Outcome) → ℕ → ℕ → List FormulaInfo → S → S × Outcome
query_loop callback limit_size i [] s = (s, ok)
query_loop callback limit_size i (info ∷ rest) s =
    if ltb i limit_size
    then (let r = callback s info.crawl_id info.formula_path in
        elim (r.1) [
          | ok ↦ query_loop callback limit_size (i + 1) rest r.0
          | failed ↦ (r.0, failed)
          | thrown ↦ (r.0, thrown)
        ])
    else (s, ok)

unfoldable pub query_formula {ℓ} :
    {S : Type ℓ} → MemFormulaDb → ℕ → ℕ → ℕ → (S → ℕ → FormulaPath → S × Outcome) → S → S × Outcome
query_formula db formula_id limit_min limit_size callback s = elim (find_key formula_id db) [
  | none ↦ (s, ok)
  | some infos ↦
      if leb (length infos) limit_min
      then (s, ok)
      else query_loop callback limit_size 0 (drop limit_min infos) s
]

-- The callback that `DbQueryManager::query` passes on; there need not be a database of crawled data.
unfoldable pub formula_query_callback {ℓ} :
    {S : Type ℓ}
    → Option MemCrawlDb
    → (S → FormulaPath → Bytes → S × Outcome)
    → S
    → ℕ
    → FormulaPath
    → S × Outcome
formula_query_callback crawl_db answer s crawl_id path =
    if crawl_id == crawl_id_null then answer s path crawl_data_null else elim crawl_db [
      | none ↦ answer s path crawl_data_null
      | some db ↦ elim (get_data db crawl_id) [
        | none ↦ (s, thrown)
        | some crawl_data ↦ answer s path crawl_data
      ]
    ]

unfoldable pub query_answers {ℓ} :
    {S : Type ℓ}
    → Option MemCrawlDb
    → MemFormulaDb
    → ℕ
    → ℕ
    → ℕ
    → (S → FormulaPath → Bytes → S × Outcome)
    → S
    → S × Outcome
query_answers crawl_db formula_db formula_id limit_min limit_size answer s =
    query_formula formula_db formula_id limit_min limit_size
      (formula_query_callback crawl_db answer) s
