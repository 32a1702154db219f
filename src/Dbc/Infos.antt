-- ===== src/Dbc/Infos.antt =====
-- What a database of formulas holds for a formula id.
use mws.Prelude.{
  ℕ, zero, suc, ◌≡◌, refl, Option, none, some, List, [], ◌∷◌, ◌++◌, arith, get_elem?, length, ◌==◌,
  nat_eq, if◌then◌else◌,
}
use mws.Common.Parcel.{FormulaPath}
use mws.Dbc.{MemFormulaDb, FormulaInfo, insert_formula, find_key}

-- One of the infos of the formula.
pub record HasInfo (db : MemFormulaDb) (id : ℕ) (info : FormulaInfo) : Type 0 where
  infos : List FormulaInfo
  position : ℕ
  found : find_key id db ≡ some infos
  here : get_elem? infos position ≡ some info

get_elem?-front {ℓ} :
    {A : Type ℓ} (xs ys : List A) (i : ℕ) {a : A}
    → get_elem? xs i ≡ some a
    → get_elem? (xs ++ ys) i ≡ some a
get_elem?-front [] ys i h = absurd (cc)
get_elem?-front (x ∷ xs) ys zero h = h
get_elem?-front (x ∷ xs) ys (suc i) h = get_elem?-front xs ys i h

get_elem?-last {ℓ} :
    {A : Type ℓ} (xs : List A) (a : A) → get_elem? (xs ++ a ∷ []) (length xs) ≡ some a
get_elem?-last [] a = refl
get_elem?-last (x ∷ xs) a = get_elem?-last xs a

abbrev new_info : ℕ → FormulaPath → FormulaInfo
new_info crawl_id path = record { crawl_id = crawl_id; formula_path = path }

-- What the formula's own entry becomes.
abbrev appended : Option (List FormulaInfo) → FormulaInfo → List FormulaInfo
appended none info = info ∷ []
appended (some infos) info = infos ++ info ∷ []

abbrev last_position : Option (List FormulaInfo) → ℕ
last_position none = 0
last_position (some infos) = length infos

get_elem?-appended :
    (old : Option (List FormulaInfo)) (info : FormulaInfo)
    → get_elem? (appended old info) (last_position old) ≡ some info
get_elem?-appended none info = refl
get_elem?-appended (some infos) info = get_elem?-last infos info

find_key-insert_formula :
    (db : MemFormulaDb) (id crawl_id k : ℕ) (path : FormulaPath)
    → find_key k (insert_formula db id crawl_id path) ≡ (
        if k == id
        then some (appended (find_key id db) (new_info crawl_id path))
        else find_key k db)
unfolding find_key insert_formula
find_key-insert_formula [] id crawl_id k path = ground arith
find_key-insert_formula ((j, infos) ∷ rest) id crawl_id k path =
    ground (arith, find_key-insert_formula rest id crawl_id k path)

-- The info that was inserted is there.
pub insert_formula-HasInfo :
    (db : MemFormulaDb) (id crawl_id : ℕ) (path : FormulaPath)
    → HasInfo
        (insert_formula db id crawl_id path)
        id
        (record { crawl_id = crawl_id; formula_path = path })
insert_formula-HasInfo db id crawl_id path =
    let old = find_key id db in
    record {
      infos = appended old (new_info crawl_id path);
      position = last_position old;
      found = ground (arith, find_key-insert_formula db id crawl_id id path);
      here = get_elem?-appended old (new_info crawl_id path);
    }

-- Those that were there stay.
pub HasInfo-insert_formula :
    (db : MemFormulaDb) (id crawl_id k : ℕ) (path : FormulaPath) {info : FormulaInfo}
    → HasInfo db k info
    → HasInfo (insert_formula db id crawl_id path) k info
HasInfo-insert_formula db id crawl_id k path h = record {
  infos = if k == id then h.infos ++ new_info crawl_id path ∷ [] else h.infos;
  position = h.position;
  found = ground (arith, find_key-insert_formula db id crawl_id k path, h.found);
  here =
      ground
        (arith, h.here, get_elem?-front h.infos (new_info crawl_id path ∷ []) h.position h.here);
}
