-- ===== src/Dbc/Page.antt =====
-- What a query delivers.
use mws.Prelude.{
  ℕ, zero, suc, ◌+◌, ◌≤◌, ◌≡◌, refl, ◌∙◌, ap, true, Option, none, some, List, [], ◌∷◌, ◌++◌, arith,
  All, append_assoc, append-nil, Option-cases, Bool-cases, inl, inr, ◌==◌, ltb, leb, if◌then◌else◌,
  length, take, drop,
}
use mws.Prelude.Bytes.{Bytes}
use mws.Common.Parcel.{FormulaPath}
use mws.Dbc.{
  find_key, FormulaInfo, MemFormulaDb, insert_formula, Outcome, ok, failed, thrown, query_loop,
  query_formula, MemCrawlDb, get_data, formula_query_callback, query_answers, crawl_data_null,
}

abbrev pub listed : Option (List FormulaInfo) → List FormulaInfo
listed none = []
listed (some infos) = infos

-- The formulas that are stored under an id.
abbrev pub formulas : MemFormulaDb → ℕ → List FormulaInfo
formulas db id = listed (find_key id db)

-- Inserting a formula appends it to the formulas that are stored under its id, and changes those
-- of no other id.
pub formulas-insert_formula :
    (db : MemFormulaDb) (id j crawl_id : ℕ) (path : FormulaPath)
    → formulas (insert_formula db id crawl_id path) j ≡ (
        if id == j
        then formulas db j ++ record { crawl_id = crawl_id; formula_path = path } ∷ []
        else formulas db j)
unfolding find_key insert_formula
formulas-insert_formula [] id j crawl_id path = ground arith
formulas-insert_formula ((k, infos) ∷ rest) id j crawl_id path =
    ground (arith, formulas-insert_formula rest id j crawl_id path)

module _ {ℓ} {S : Type ℓ} (callback : S → ℕ → FormulaPath → S × Outcome) where
  -- The reference: the callback on each of the formulas, up to the first that does not return 0.
  unfoldable pub deliver : List FormulaInfo → S → S × Outcome
  deliver [] s = (s, ok)
  deliver (info ∷ rest) s =
      let r = callback s info.crawl_id info.formula_path in
      elim (r.1) [ ok ↦ deliver rest r.0 | failed ↦ (r.0, failed) | thrown ↦ (r.0, thrown) ]

  pub query_loop-eq-deliver :
      (limit i n : ℕ) (infos : List FormulaInfo) (s : S)
      → i + n ≡ limit
      → query_loop callback limit i infos s ≡ deliver (take n infos) s
  unfolding query_loop deliver
  query_loop-eq-deliver limit i zero [] s h = refl
  query_loop-eq-deliver limit i (suc n) [] s h = refl
  query_loop-eq-deliver limit i zero (info ∷ rest) s h = ground arith
  query_loop-eq-deliver limit i (suc n) (info ∷ rest) s h =
      let below : ltb i limit ≡ true = ground arith in
      let next =
        query_loop-eq-deliver limit (i + 1) n rest (callback s info.crawl_id info.formula_path).0
          (omega arith) in
      ground (arith, below, next)

  drop_all : (n : ℕ) (infos : List FormulaInfo) → length infos ≤ n → drop n infos ≡ []
  drop_all zero [] h = refl
  drop_all zero (x ∷ infos) h = absurd (omega arith)
  drop_all (suc n) [] h = refl
  drop_all (suc n) (x ∷ infos) h = drop_all n infos (omega arith)

  -- A query for a formula calls the callback on the stored entries from `limitMin` on,
  -- `limitSize` of them at most, in order, up to the first call that does not return 0, and
  -- ends with what that call returned.
  pub query_formula-eq-deliver :
      (db : MemFormulaDb) (id limit_min limit_size : ℕ) (s : S)
      → query_formula db id limit_min limit_size callback s
        ≡ deliver (take limit_size (drop limit_min (formulas db id))) s
  unfolding query_formula deliver
  query_formula-eq-deliver db id limit_min limit_size s = elim (Option-cases (find_key id db)) [
    | inl missing ↦ rw (ap listed missing, missing, query_formula) (empty_page limit_min limit_size)
    | inr (infos, found) ↦ elim (Bool-cases (leb (length infos) limit_min)) [
      | inl short ↦
          rw (ap listed found, found, query_formula, short, drop_all limit_min infos (ground arith))
            (empty_page 0 limit_size)
      | inr long ↦
          rw (ap listed found, found, query_formula, long)
            (query_loop-eq-deliver limit_size 0 limit_size (drop limit_min infos) s (omega arith))
    ]
  ]
    where
      empty_page : (m n : ℕ) → (s, ok) ≡ deliver (take n (drop m [])) s
      empty_page zero zero = refl
      empty_page zero (suc n) = refl
      empty_page (suc m) zero = refl
      empty_page (suc m) (suc n) = refl

-- The data that belongs to a stored formula.
abbrev pub crawl_data_of : MemCrawlDb → FormulaInfo → Option Bytes
crawl_data_of db info =
    if info.crawl_id == 0 then some crawl_data_null else get_data db info.crawl_id

-- The callback of a search, which collects the answers.
abbrev pub collect :
    List (FormulaPath × Bytes) → FormulaPath → Bytes → List (FormulaPath × Bytes) × Outcome
collect seen path crawl_data = (seen ++ (path, crawl_data) ∷ [], ok)

-- The answers that belong to stored formulas whose data is known.
abbrev pub answers : MemCrawlDb → List FormulaInfo → List (FormulaPath × Bytes)
answers db [] = []
answers db (info ∷ rest) = elim (crawl_data_of db info) [
  | none ↦ answers db rest
  | some x ↦ (info.formula_path, x) ∷ answers db rest
]

abbrev pub IsKnown : MemCrawlDb → FormulaInfo → Type 0
IsKnown db info = (x : Bytes) × (crawl_data_of db info ≡ some x)

deliver-collect :
    (db : MemCrawlDb) (infos : List FormulaInfo) (seen : List (FormulaPath × Bytes))
    → All (IsKnown db) infos
    → deliver (formula_query_callback (some db) collect) infos seen ≡ (seen ++ answers db infos, ok)
unfolding deliver formula_query_callback
deliver-collect db [] seen a = rw append-nil
deliver-collect db (info ∷ rest) seen a =
    let (x, known) = a.0 in
    ground (
      arith,
      known,
      deliver-collect db rest (seen ++ (info.formula_path, x) ∷ []) a.1,
      append_assoc seen ((info.formula_path, x) ∷ []) (answers db rest),
    )

-- If the crawled data of every formula of the page is known, a query through the query manager
-- with a collecting callback gives the formulas of the page with their data, in order, and
-- succeeds.
pub query_answers-collect :
    (crawl_db : MemCrawlDb) (formula_db : MemFormulaDb) (id limit_min limit_size : ℕ)
    → All (IsKnown crawl_db) (take limit_size (drop limit_min (formulas formula_db id)))
    → query_answers (some crawl_db) formula_db id limit_min limit_size collect []
      ≡ (answers crawl_db (take limit_size (drop limit_min (formulas formula_db id))), ok)
unfolding query_answers
query_answers-collect crawl_db formula_db id limit_min limit_size a =
    query_formula-eq-deliver (formula_query_callback (some crawl_db) collect) formula_db id
      limit_min limit_size []
    ∙ deliver-collect crawl_db _ [] a
