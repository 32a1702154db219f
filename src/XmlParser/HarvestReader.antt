-- ===== src/XmlParser/HarvestReader.antt =====
-- src/mws/xmlparser/processMwsHarvest.{hpp,cpp}: the data of the reader of harvests, and what it
-- calls. `int` counters are exact; a `std::map` is a list of entries with different keys.
pub mod Handlers
pub mod Reading
pub mod Events
pub mod Children
pub mod Whole
pub mod Safety
pub mod Processor
use mws.Prelude.{
  ℕ, ◌+◌, ◌%◌, Bool, true, false, Option, none, some, List, [], ◌∷◌, ◌==◌, ◌&&◌, ltb, not,
  if◌then◌else◌,
}
use mws.Prelude.Bits.{u64_mod}
use mws.Prelude.Bytes.{Bytes, codes, bytes_eq}
use mws.Dbc.{crawl_id_null}
use mws.Types.CmmlToken.{CmmlToken, Attributes}
use mws.XmlParser.{OpenToken}

-- The virtual functions of HarvestProcessor, over the state of its object; -1 is `none`.
pub record HarvestProcessor (P : Type 0) : Type 0 where
  pub process_expression : P → CmmlToken → Bytes → ℕ → P × Option ℕ
  pub process_data : P → Bytes → P × ℕ

-- What is called of libxml2: the writer that copies an element, the bytes that it leaves in the
-- buffer, and `xmlEncodeSpecialChars`. `none` is the result -1 of `setupCopyToStringWriter`, which
-- the caller ignores, or the null pointer of the encoding.
pub record XmlLibrary (W : Type 0) : Type 0 where
  pub new_writer : Option W
  pub start : W → Bytes → W
  pub write_attribute : W → Bytes → Bytes → W
  pub finish : W → W
  pub write_raw : W → Bytes → W
  pub end_writing : W → Bytes
  pub encode : Bytes → Option Bytes

-- The same where no call fails.
pub record XmlWriter (W : Type 0) : Type 0 where
  pub new_writer : W
  pub start : W → Bytes → W
  pub write_attribute : W → Bytes → Bytes → W
  pub finish : W → W
  pub write_raw : W → Bytes → W
  pub end_writing : W → Bytes
  pub encode : Bytes → Bytes

abbrev pub succeeding : {W : Type 0} → XmlWriter W → XmlLibrary W
succeeding x = record {
  new_writer = some x.new_writer;
  start = x.start;
  write_attribute = x.write_attribute;
  finish = x.finish;
  write_raw = x.write_raw;
  end_writing = x.end_writing;
  encode = λ text. some (x.encode text);
}

-- MwsHarvestState
pub data MwsHarvestState : Type 0 where
  default in_mws_harvest in_mws_expr in_mws_data unknown : MwsHarvestState

-- MwsHarvest_SaxUserData; a writer of `none` is a pointer without a writer behind it.
pub record SaxUserData (P W : Type 0) : Type 0 where
  pub state : MwsHarvestState
  pub unknown_depth : ℕ
  pub ids : List (Bytes × ℕ)
  pub current : Option OpenToken
  pub prev_state : MwsHarvestState
  pub error_detected : Bool
  pub parsed_expr : ℕ
  pub warnings : ℕ
  pub processor : P
  pub should_process_data : Bool
  pub writer : Option W
  pub copy_depth : ℕ
  pub expr_uri : Bytes
  pub data_ : Bytes
  pub local_id : Bytes

-- The constructor, with what `processHarvestFromFd` sets; `copyDepth` is uninitialised.
abbrev pub new_user_data : {P W : Type 0} → P → Bool → ℕ → SaxUserData P W
new_user_data processor should copy_depth = record {
  state = default;
  unknown_depth = 0;
  ids = [];
  current = none;
  prev_state = default;
  error_detected = false;
  parsed_expr = 0;
  warnings = 0;
  processor = processor;
  should_process_data = should;
  writer = none;
  copy_depth = copy_depth;
  expr_uri = [];
  data_ = [];
  local_id = [];
}

unfoldable pub find_id : Bytes → List (Bytes × ℕ) → Option ℕ
find_id key [] = none
find_id key ((k, v) ∷ rest) = if bytes_eq k key then some v else find_id key rest

unfoldable pub assign_id : Bytes → ℕ → List (Bytes × ℕ) → List (Bytes × ℕ)
assign_id key value [] = (key, value) ∷ []
assign_id key value ((k, v) ∷ rest) =
    let below = assign_id key value rest in
    if bytes_eq k key then (k, value) ∷ rest else (k, v) ∷ below

-- The loops over attributes: the last value of a name, or the default.
unfoldable pub last_value : Bytes → Attributes → Bytes → Bytes
last_value key [] found = found
last_value key ((name, value) ∷ rest) found =
    last_value key rest (if bytes_eq name key then value else found)

-- `parsedExpr += ret`, a uint64_t.
unfoldable pub add_parsed : Option ℕ → ℕ → ℕ
add_parsed none n = n
add_parsed (some ret) n = (n + ret) % u64_mod

-- The crawl id that an expression is handed on with.
unfoldable pub crawl_id_of : Bool → Bytes → List (Bytes × ℕ) → ℕ
unfolding find_id
crawl_id_of should local_id ids = elim (find_id local_id ids) [
  | none ↦ crawl_id_null
  | some id ↦ if should then id else crawl_id_null
]

-- A local id without data is forgotten.
unfoldable pub known_id : Bool → Bytes → List (Bytes × ℕ) → Bytes
unfolding find_id
known_id should local_id ids =
    if should && not (bytes_eq local_id [])
    then elim (find_id local_id ids) [ none ↦ [] | some _ ↦ local_id ]
    else local_id

-- The attributes of a copied element.
unfoldable pub write_attributes : {W : Type 0} → XmlLibrary W → Attributes → W → W
write_attributes x [] w = w
write_attributes x ((name, value) ∷ rest) w =
    write_attributes x rest (x.write_attribute w name value)
