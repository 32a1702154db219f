-- ===== src/Dbc/Lev.antt =====
-- src/mws/dbc/LevFormulaDb.cpp and LevCrawlDb.cpp: the reading of databases in LevelDB, and
-- DbQueryManager over them. What LevelDB keeps is the list of its entries in the order of their
-- keys, which is what its iterator walks over; a value is given as what `ParcelDecoder` and
-- `strtoul` read of it. `digits` is `std::to_string`. An entry that is not there is an exception.
use mws.Prelude.{
  ℕ, suc, ◌+◌, ◌≡◌, refl, ap, ◌∙◌, Bool, true, false, ◌||◌, ◌&&◌, Option, none, some, List, [], ◌∷◌,
  ◌++◌, ◌==◌, ltb, if◌then◌else◌, drop, take, All, append_assoc, append-nil, arith, zero,
}
use mws.Prelude.Bytes.{Bytes, codes, bytes_eq}
use mws.Common.Parcel.{FormulaPath}
use mws.Dbc.{FormulaInfo, Outcome, ok, failed, thrown, crawl_id_null, crawl_data_null, query_loop}
use mws.Dbc.Page.{collect, deliver, query_loop-eq-deliver}

-- The order of strings.
unfoldable pub is_less : Bytes → Bytes → Bool
is_less a [] = false
is_less [] (y ∷ b) = true
is_less (x ∷ a) (y ∷ b) = let below = is_less a b in ltb x y || ((x == y) && below)

abbrev pub LevFormulaDb : Type 0
LevFormulaDb = List (Bytes × FormulaInfo)

abbrev pub LevCrawlDb : Type 0
LevCrawlDb = List (Bytes × Bytes)

-- `Seek`
unfoldable pub seek {ℓ} : {V : Type ℓ} → Bytes → List (Bytes × V) → List (Bytes × V)
seek key [] = []
seek key ((k, v) ∷ rest) =
    let behind = seek key rest in if is_less k key then behind else (k, v) ∷ rest

-- `Get`
unfoldable pub lev_get {ℓ} : {V : Type ℓ} → Bytes → List (Bytes × V) → Option V
lev_get key [] = none
lev_get key ((k, v) ∷ rest) = if bytes_eq k key then some v else lev_get key rest

module _ (digits : ℕ → Bytes) where
  -- LevCrawlDb::getData
  unfoldable pub lev_get_data : LevCrawlDb → ℕ → Option Bytes
  unfolding lev_get
  lev_get_data db crawl_id = lev_get (digits crawl_id) db

  -- `fmId` and `maxKey`
  abbrev pub first_key : ℕ → Bytes
  first_key formula_id = digits formula_id ++ codes "!"

  abbrev pub max_key : ℕ → Bytes
  max_key formula_id = first_key formula_id ++ 255 ∷ []

module _ {ℓ} {S : Type ℓ} where
  -- The second loop of `queryFormula`, in round `i`.
  unfoldable pub lev_query_loop :
      (S → ℕ → FormulaPath → S × Outcome)
      → Bytes
      → ℕ
      → ℕ
      → List (Bytes × FormulaInfo)
      → S
      → S × Outcome
  lev_query_loop callback last limit_size i [] s = (s, ok)
  lev_query_loop callback last limit_size i ((key, info) ∷ rest) s =
      if ltb i limit_size && is_less key last
      then (let r = callback s info.crawl_id info.formula_path in
          elim (r.1) [
            | ok ↦ lev_query_loop callback last limit_size (i + 1) rest r.0
            | failed ↦ (r.0, failed)
            | thrown ↦ (r.0, thrown)
          ])
      else (s, ok)

  -- LevFormulaDb::queryFormula; the first loop steps over `limitMin` entries of any key.
  unfoldable pub lev_query_formula :
      (ℕ → Bytes) → LevFormulaDb → ℕ → ℕ → ℕ → (S → ℕ → FormulaPath → S × Outcome) → S → S × Outcome
  unfolding seek lev_query_loop
  lev_query_formula digits db formula_id limit_min limit_size callback s =
      lev_query_loop callback (max_key digits formula_id) limit_size 0
        (drop limit_min (seek (first_key digits formula_id) db)) s

  -- The callback that `DbQueryManager::query` passes on.
  unfoldable pub lev_query_callback :
      (ℕ → Bytes)
      → LevCrawlDb
      → (S → FormulaPath → Bytes → S × Outcome)
      → S
      → ℕ
      → FormulaPath
      → S × Outcome
  unfolding lev_get_data
  lev_query_callback digits crawl_db answer s crawl_id path =
      if crawl_id == crawl_id_null
      then answer s path crawl_data_null
      else elim (lev_get_data digits crawl_db crawl_id) [
        | none ↦ (s, thrown)
        | some crawl_data ↦ answer s path crawl_data
      ]

  -- `DbQueryManager::query`
  unfoldable pub lev_query_answers :
      (ℕ → Bytes)
      → LevCrawlDb
      → LevFormulaDb
      → ℕ
      → ℕ
      → ℕ
      → (S → FormulaPath → Bytes → S × Outcome)
      → S
      → S × Outcome
  unfolding lev_query_formula lev_query_callback
  lev_query_answers digits crawl_db formula_db formula_id limit_min limit_size answer s =
      lev_query_formula digits formula_db formula_id limit_min limit_size
        (lev_query_callback digits crawl_db answer) s

-- The entries of a formula stand together: those of lesser keys before them, and those of keys
-- beyond the last behind them.
pub record IsTogether (digits : ℕ → Bytes) (id : ℕ) (before own behind : LevFormulaDb)
    : Type 0 where
  pub less : All (λ (e : Bytes × FormulaInfo). is_less e.0 (first_key digits id) ≡ true) before
  pub from_first :
      All (λ (e : Bytes × FormulaInfo). is_less e.0 (first_key digits id) ≡ false) (own ++ behind)
  pub to_last : All (λ (e : Bytes × FormulaInfo). is_less e.0 (max_key digits id) ≡ true) own
  pub beyond : All (λ (e : Bytes × FormulaInfo). is_less e.0 (max_key digits id) ≡ false) behind

abbrev pub infos_of : LevFormulaDb → List FormulaInfo
infos_of [] = []
infos_of ((key, info) ∷ rest) = info ∷ infos_of rest

drop_none {ℓ} : {A : Type ℓ} (n : ℕ) → drop {A = A} n [] ≡ []
drop_none zero = refl
drop_none (suc n) = refl

seek-append :
    (key : Bytes) (before after : LevFormulaDb)
    → All (λ (e : Bytes × FormulaInfo). is_less e.0 key ≡ true) before
    → All (λ (e : Bytes × FormulaInfo). is_less e.0 key ≡ false) after
    → seek key (before ++ after) ≡ after
unfolding seek
seek-append key [] [] a b = refl
seek-append key [] ((k, v) ∷ after) a b = ground arith
seek-append key ((k, v) ∷ before) after a b = ground (arith, seek-append key before after)

module _ {ℓ} {S : Type ℓ} (callback : S → ℕ → FormulaPath → S × Outcome) (last : Bytes) where
  lev_query_loop_beyond :
      (limit i n : ℕ) (behind : LevFormulaDb) (s : S)
      → All (λ (e : Bytes × FormulaInfo). is_less e.0 last ≡ false) behind
      → lev_query_loop callback last limit i (drop n behind) s ≡ (s, ok)
  unfolding lev_query_loop
  lev_query_loop_beyond limit i n [] s b = rw (drop_none n) refl
  lev_query_loop_beyond limit i zero ((k, v) ∷ behind) s b = ground arith
  lev_query_loop_beyond limit i (suc n) (e ∷ behind) s b =
      lev_query_loop_beyond limit i n behind s b.1

  lev_query_loop-eq-query_loop :
      (limit i n : ℕ) (own behind : LevFormulaDb) (s : S)
      → All (λ (e : Bytes × FormulaInfo). is_less e.0 last ≡ true) own
      → All (λ (e : Bytes × FormulaInfo). is_less e.0 last ≡ false) behind
      → lev_query_loop callback last limit i (drop n (own ++ behind)) s
        ≡ query_loop callback limit i (drop n (infos_of own)) s
  unfolding lev_query_loop query_loop
  lev_query_loop-eq-query_loop limit i n [] behind s a b =
      lev_query_loop_beyond limit i n behind s b ∙ rw (drop_none n) refl
  lev_query_loop-eq-query_loop limit i zero ((k, info) ∷ own) behind s a b = ground (
    arith,
    lev_query_loop-eq-query_loop limit (i + 1) zero own behind
        (callback s info.crawl_id info.formula_path).0 a.1 b,
  )
  lev_query_loop-eq-query_loop limit i (suc n) (e ∷ own) behind s a b =
      lev_query_loop-eq-query_loop limit i n own behind s a.1 b

-- The data of a stored formula.
abbrev pub lev_data_of : (ℕ → Bytes) → LevCrawlDb → FormulaInfo → Option Bytes
lev_data_of digits db info =
    if info.crawl_id == 0 then some crawl_data_null else lev_get_data digits db info.crawl_id

abbrev pub IsLevKnown : (ℕ → Bytes) → LevCrawlDb → FormulaInfo → Type 0
IsLevKnown digits db info = (x : Bytes) × (lev_data_of digits db info ≡ some x)

-- The answers that belong to stored formulas whose data is known.
abbrev pub lev_answers : (ℕ → Bytes) → LevCrawlDb → List FormulaInfo → List (FormulaPath × Bytes)
lev_answers digits db [] = []
lev_answers digits db (info ∷ rest) = elim (lev_data_of digits db info) [
  | none ↦ lev_answers digits db rest
  | some x ↦ (info.formula_path, x) ∷ lev_answers digits db rest
]

deliver-lev_answers :
    (digits : ℕ → Bytes) (db : LevCrawlDb) (infos : List FormulaInfo)
    (seen : List (FormulaPath × Bytes))
    → All (IsLevKnown digits db) infos
    → deliver (lev_query_callback digits db collect) infos seen
      ≡ (seen ++ lev_answers digits db infos, ok)
unfolding deliver lev_query_callback
deliver-lev_answers digits db [] seen a = rw append-nil
deliver-lev_answers digits db (info ∷ rest) seen a =
    let (x, known) = a.0 in
    ground (
      arith,
      known,
      deliver-lev_answers digits db rest (seen ++ (info.formula_path, x) ∷ []) a.1,
      append_assoc seen ((info.formula_path, x) ∷ []) (lev_answers digits db rest),
    )

-- A query through the query manager gives the formulas of the page with their data.
pub lev_query_answers-collect :
    (digits : ℕ → Bytes) (crawl_db : LevCrawlDb) (before own behind : LevFormulaDb)
    (id limit_min limit_size : ℕ)
    → IsTogether digits id before own behind
    → All (IsLevKnown digits crawl_db) (take limit_size (drop limit_min (infos_of own)))
    → lev_query_answers digits crawl_db
        (before ++ (own ++ behind))
        id
        limit_min
        limit_size
        collect
        []
      ≡ (lev_answers digits crawl_db (take limit_size (drop limit_min (infos_of own))), ok)
unfolding lev_query_answers lev_query_formula
lev_query_answers-collect digits crawl_db before own behind id limit_min limit_size t known =
    let callback = lev_query_callback digits crawl_db collect in
    ap (λ z. lev_query_loop callback (max_key digits id) limit_size 0 (drop limit_min z) [])
      (seek-append (first_key digits id) before (own ++ behind) t.less t.from_first)
    ∙ lev_query_loop-eq-query_loop callback (max_key digits id) limit_size 0 limit_min own behind []
        t.to_last t.beyond
    ∙ query_loop-eq-deliver callback limit_size 0 limit_size (drop limit_min (infos_of own)) []
        (omega arith)
    ∙ deliver-lev_answers digits crawl_db _ [] known
