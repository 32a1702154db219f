-- ===== src/Index/Builder/Total.antt =====
-- Indexing an expression without variables into a well-formed index.
use mws.Prelude.{
  ℕ, ◌+◌, ◌≡◌, refl, ap, Bool, true, false, Option, none, some, [], ◌∷◌, arith, Bool-cases, inl,
  inr, All, All-append, if◌then◌else◌,
}
use mws.Prelude.Bytes.{Bytes}
use mws.Common.Parcel.{FormulaPath}
use mws.Dbc.{MemFormulaDb, FormulaInfo, insert_formula}
use mws.Dbc.Infos.{HasInfo, insert_formula-HasInfo, HasInfo-insert_formula}
use mws.Types.CmmlToken.{CmmlToken, token, Tokens, nil, cons, get_xpath}
use mws.Types.CmmlToken.Traverse.{Located, preorder, preorder_of, preorder_list}
use mws.Index.EncodedToken.{EncodedFormula}
use mws.Index.Encoder.{Encoded, harvest, start}
use mws.Index.Encoder.Run.{run, encode-eq-run}
use mws.Index.Encoder.Shape.{IsConstant, IsComplete, encode-IsComplete, pending, All-split}
use mws.Index.TmpIndex.{TmpIndex, TmpIndexNode, leaf, nil, insert_from, insert_data, increment_at}
use mws.Index.TmpIndex.Ordered.{IsOrdered}
use mws.Index.TmpIndex.Insert.{insert_from-IsOrdered, walk-insert_from}
use mws.Index.TmpIndex.Shaped.{
  IsOpen, IsOpen-IsShaped, insert_from-IsShaped, increment_at-IsOrdered, increment_at-IsShaped,
}
use mws.Index.TmpIndex.Reach.{id_at, id_at-insert_from, id_at-increment_at, walk-IsShaped}
use mws.Index.Iterator.Traversal.{IsShaped}
use mws.Index.Builder.{BuildState, index_subexpression, contains}

-- The tree of an index: sorted children, and complete prefix terms on its paths.
pub record IsWellFormed (root : TmpIndexNode) : Type 0 where
  pub ordered : IsOrdered root
  pub open_root : IsOpen 0 root

-- Leaves keep their ids.
abbrev pub KeepsIds : TmpIndexNode → TmpIndexNode → Type 0
KeepsIds old new = (g : EncodedFormula) (id : ℕ) → id_at g old ≡ some id → id_at g new ≡ some id

KeepsIds-trans : (a b c : TmpIndexNode) → KeepsIds a b → KeepsIds b c → KeepsIds a c
KeepsIds-trans a b c p q g id h = q g id (p g id h)

-- What the insertion of a complete formula does: the formula leads to a leaf.
record Inserted (old : TmpIndexNode) (f : EncodedFormula) (index : TmpIndex) (id n : ℕ)
    : Type 0 where
  well_formed : IsWellFormed index.root
  shaped : IsShaped 1 index.root
  there : id_at f index.root ≡ some id
  keeps : KeepsIds old index.root

insert_data-Inserted :
    (index : TmpIndex) (f : EncodedFormula)
    → IsWellFormed index.root
    → IsComplete f
    → (index' : TmpIndex) × (id n : ℕ) × (insert_data index f ≡ some (index', leaf id n nil))
      × Inserted index.root f index' id n
unfolding insert_data pending
insert_data-Inserted index [] w c = absurd (ground arith)
insert_data-Inserted index (t ∷ rest) w c =
    let d = insert_from t rest index.root index.next_id in
    let ordered = insert_from-IsOrdered t rest index.root index.next_id w.ordered in
    let shaped = insert_from-IsShaped 0 t rest index.root index.next_id w.ordered w.open_root c in
    let walked = walk-insert_from t rest index.root index.next_id w.ordered in
    let (id, n, is, there) = walk-IsShaped 1 (t ∷ rest) d.node ordered shaped c walked in
    (
      record { root = d.node; next_id = d.next_id },
      id,
      n,
      ap (λ z. some (record { root = d.node; next_id = d.next_id }, z)) is,
      record {
        well_formed = record { ordered = ordered; open_root = IsOpen-IsShaped 0 d.node shaped };
        shaped = shaped;
        there = there;
        keeps = λ g k h. id_at-insert_from t rest g index.root index.next_id w.ordered h;
      },
    )

mutual
  unfolding preorder_of preorder_list

  constants_below :
      (t : CmmlToken) (parent : Option Bytes) (front : Bool)
      → All IsConstant (preorder_of t parent front)
      → All (λ (l : Located). All IsConstant (preorder l)) (preorder_of t parent front)
  constants_below (token tag attrs text xpath children) parent front h =
      (h, constants_below_list children tag true h.1)

  constants_below_list :
      (ts : Tokens) (tag : Bytes) (front : Bool)
      → All IsConstant (preorder_list ts tag front)
      → All (λ (l : Located). All IsConstant (preorder l)) (preorder_list ts tag front)
  constants_below_list nil tag front h = tt
  constants_below_list (cons t ts) tag front h =
      let (now, later) =
        All-split IsConstant (preorder_of t (some tag) front) (preorder_list ts tag false) h in
      All-append (λ (l : Located). All IsConstant (preorder l)) (preorder_of t (some tag) front)
        (preorder_list ts tag false) (constants_below t (some tag) front now)
        (constants_below_list ts tag false later)

-- The subexpressions of an expression without variables have none.
pub preorder-constants :
    (l : Located)
    → All IsConstant (preorder l)
    → All (λ (m : Located). All IsConstant (preorder m)) (preorder l)
preorder-constants l h = constants_below l.node l.parent_tag l.is_front h

-- Infos stay in the database.
abbrev pub KeepsInfos : MemFormulaDb → MemFormulaDb → Type 0
KeepsInfos old new = (id : ℕ) (info : FormulaInfo) → HasInfo old id info → HasInfo new id info

module _ (rename_ci : Bool) (xml_id : Bytes) (crawl_id : ℕ) where
  -- What the encoder makes of a subexpression.
  abbrev pub encoded : Located → BuildState → Encoded
  encoded l s = run rename_ci harvest (preorder l) (start s.encoder none)

  abbrev pub info_of : Located → FormulaInfo
  info_of l = record {
    crawl_id = crawl_id;
    formula_path = record { xml_id = xml_id; xpath = get_xpath l.node };
  }

  -- The formula leads to a leaf, and an id that is new for the expression has the info.
  abbrev pub IsFindable : Located → BuildState → BuildState → Type 0
  IsFindable l s s' =
      (id : ℕ) × (id_at (encoded l s).formula s'.index.root ≡ some id)
      × (contains id s.unique_formula_ids ≡ false → HasInfo s'.formula_db id (info_of l))

  -- One subexpression in a well-formed index.
  pub record Indexed (l : Located) (s s' : BuildState) : Type 0 where
    pub runs : index_subexpression rename_ci xml_id crawl_id l s ≡ some s'
    pub well_formed : IsWellFormed s'.index.root
    pub keeps_ids : KeepsIds s.index.root s'.index.root
    pub keeps_infos : KeepsInfos s.formula_db s'.formula_db
    pub encoder : s'.encoder ≡ (encoded l s).encoder
    pub findable : (encoded l s).ok ≡ true → IsFindable l s s'

  -- What was inserted with a new id, and with one that the expression had already.
  abbrev with_solution : Located → BuildState → TmpIndex → ℕ → BuildState
  with_solution l s index id = record {
    encoder = (encoded l s).encoder;
    index = record index { root = increment_at (encoded l s).formula index.root };
    formula_db =
        insert_formula s.formula_db id crawl_id
          (record { xml_id = xml_id; xpath = get_xpath l.node });
    unique_formula_ids = id ∷ s.unique_formula_ids;
    num_sub_expressions = s.num_sub_expressions + 1;
  }

  abbrev without_solution : Located → BuildState → TmpIndex → BuildState
  without_solution l s index = record s { encoder = (encoded l s).encoder; index = index }

  runs_with :
      (l : Located) (s : BuildState) (index : TmpIndex) (id n : ℕ)
      → (encoded l s).ok ≡ true
      → insert_data s.index (encoded l s).formula ≡ some (index, leaf id n nil)
      → index_subexpression rename_ci xml_id crawl_id l s
        ≡ some (
            if contains id s.unique_formula_ids
            then without_solution l s index
            else with_solution l s index id)
  unfolding index_subexpression
  runs_with l s index id n ok inserted =
      ground (arith, encode-eq-run rename_ci harvest s.encoder l none)

  pub index_subexpression-Indexed :
      (l : Located) (s : BuildState)
      → IsWellFormed s.index.root
      → All IsConstant (preorder l)
      → (s' : BuildState) × Indexed l s s'
  unfolding index_subexpression
  index_subexpression-Indexed l s w c =
      let out = encoded l s in
      let encodes = encode-eq-run rename_ci harvest s.encoder l none in
      elim (Bool-cases out.ok) [
        | inr fails ↦ (
          record s { encoder = out.encoder },
          record {
            runs = ground arith;
            well_formed = w;
            keeps_ids = λ g id h. h;
            keeps_infos = λ id info h. h;
            encoder = refl;
            findable = λ ok. absurd (cc);
          },
        )
        | inl ok ↦
            let (index, id, n, inserted, i) =
              insert_data-Inserted s.index out.formula w
                (encode-IsComplete rename_ci harvest s.encoder l none encodes ok c) in
            let step = runs_with l s index id n ok inserted in
            elim (Bool-cases (contains id s.unique_formula_ids)) [
              | inl known ↦ (
                without_solution l s index,
                record {
                  runs = ground arith;
                  well_formed = i.well_formed;
                  keeps_ids = i.keeps;
                  keeps_infos = λ k info h. h;
                  encoder = refl;
                  findable = λ yes. (id, i.there, λ new. absurd (cc));
                },
              )
              | inr new ↦
                  let f = out.formula in
                  let o = i.well_formed.ordered in
                  let path : FormulaPath = record { xml_id = xml_id; xpath = get_xpath l.node } in
                  (
                    with_solution l s index id,
                    record {
                      runs = ground arith;
                      well_formed = record {
                        ordered = increment_at-IsOrdered f index.root o;
                        open_root =
                            IsOpen-IsShaped 0 (increment_at f index.root)
                              (increment_at-IsShaped 1 f index.root o i.shaped);
                      };
                      keeps_ids = λ g k h. id_at-increment_at f g index.root o (i.keeps g k h);
                      keeps_infos =
                          λ k info h. HasInfo-insert_formula s.formula_db id crawl_id k path h;
                      encoder = refl;
                      findable = λ yes. (
                        id,
                        id_at-increment_at f f index.root o i.there,
                        λ fresh. insert_formula-HasInfo s.formula_db id crawl_id path,
                      );
                    },
                  )
            ]
      ]
