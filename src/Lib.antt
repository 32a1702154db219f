-- ===== src/Lib.antt =====
-- MathWebSearch indexes formulas in Content MathML and answers queries that are formulas with
-- variables. A harvest is parsed by a SAX reader to trees of tokens; each expression is encoded as
-- a sequence of tokens, whose constants are numbered by a dictionary of meanings, and put into an
-- index, a tree whose edges are tokens. A query is encoded with the same dictionary and followed in
-- that tree.
--
-- The parts, by file (paths from the repository's root):
--   Common/IdDictionary: src/common/types/IdDictionary.hpp. A record of the entries of the map and
--     `_nextId`; `put`, `get`, `getReverseLookupTable`, `save` and the constructor that loads.
--   Types/VectorMap: src/mws/types/VectorMap.hpp. The vector as a list of pairs; `_find_index`,
--     `find`, `insert`, `operator[]` followed by an assignment (`assign`).
--   Types/CmmlToken: src/mws/types/CmmlToken.cpp. A token is its tag, attributes, text, xpath and
--     children; Traverse has `foreachSubexpression`, Equality has `equals`.
--   Index/EncodedToken: src/mws/index/encoded_token.h. The bit-fields and the ranges of ids.
--   Index/Encoder: src/mws/index/ExpressionEncoder.cpp. `encode` with the state of its loop as a
--     record, both encoders, and the decoder.
--   Index/TmpIndex: src/mws/index/TmpIndex.cpp and TmpIndexAccessor.hpp. `insertData`, which makes
--     the missing nodes of a path, and the reading of nodes.
--   Index/Iterator: src/mws/index/IndexIterator.hpp. The stack of iterators over children; Callback
--     has the loop over CallbackIndexIterator.hpp.
--   Index/Memsector: src/mws/index/memsector.{h,c}, index.h and IndexAccessor.hpp. The file of an
--     index as the structures that are written to it, and the reading of nodes at addresses.
--   Index/Export: `exportToMemsector` and `computeMemsectorSize` of src/mws/index/TmpIndex.cpp.
--   Index/Builder: src/mws/index/IndexBuilder.cpp. `indexContentMath` over the encoder, the index
--     and the database of formulas; Load has `loadHarvestFromFd` over the reader of harvests, Total
--     and Findable follow one expression from the harvest to the query.
--   Query/Context, Query/Backtrack, Query/Search: src/mws/query/SearchContext.cpp. The
--     constructor; the contexts of variables and ranges, and the loop of `getResult` round by round.
--   Query/Engine: src/mws/query/engine.c. The context of a query and its functions, which get their
--     calls as a parameter (Process, Match) and are tied on fuel; a run of constants needs as much
--     fuel as the query has tokens, and one more.
--   Query/Handler: src/mws/daemon/HarvestQueryHandler.cpp and IndexQueryHandler.cpp. A query is
--     encoded, searched and answered; Indexed follows an expression from the harvest to the answer.
--   Query/Schema, Query/SchemaHandler: src/mws/query/SchemaEngine.cpp and
--     src/mws/daemon/SchemaQueryHandler.cpp. `reduceFormula`, `completeExpression`, the hash of a
--     formula and its inverse; Term, Rounds and Reduce, formulas as trees, cut off; Decode,
--     `decodeFormula`; Schemata, `getSchemata`; and the handler.
--   Dbc: src/mws/dbc. MemCrawlDb, MemFormulaDb and DbQueryManager, callbacks with explicit state;
--     Lev, the reading of LevFormulaDb and LevCrawlDb, over the list of entries that LevelDB keeps
--     in the order of their keys.
--   Common/Parcel: src/common/types/Parcelable.cpp, src/mws/types/FormulaPath.hpp.
--   Common/ControlSequence, Common/Text: src/common/types/ControlSequence.cpp, the strings of
--     src/common/utils/util.cpp, and getBoolType.cpp.
--   XmlParser/QueryReader, XmlParser/HarvestReader: src/mws/xmlparser/readMwsQuery.cpp and
--     processMwsHarvest.cpp. The SAX callbacks as functions from user data and event to user data
--     (Handlers), the same documents read as trees (Reading), and their agreement. The current
--     token is its root with the number of steps to a last child.
--   Prelude: numbers, lists, bytes compared as by memcmp, and decimal numerals.
--   Tests: each theorem with hypotheses at concrete data.
--
-- Bounds and fuel: strings are lists of bytes. Counters of 32 bits wrap (`% u32_mod`), and the
-- fields of a token keep 8 and 24 bits. Loops run on fuel: the binary search on one round more
-- than there are entries, the traversals of a token tree on its size; which is enough.
-- `reduceFormula` runs on one round for each token, and `decodeFormula` on two, since a round uses
-- up a token or an entry of the stack that a token made. The search runs on the fuel it is given, and an
-- index iterator on that of the setting; for a query of constants one round more than there are
-- tokens is enough.
-- A loop over an index runs, behind its first round, on one round for each leaf, which is enough
-- for an index of complete formulas.
-- Sizes that the source keeps in `int` or `size_t` are exact numbers.
--
-- Not modelled: parent pointers of tokens, which a located token replaces; double arithmetic of
-- ranges, and of the percentage of a depth, which are parameters; the search of an exported index
-- with SearchContext; files, sockets, threads and daemons; the writing of answers and of the databases in LevelDB; LevelDB, libxml,
-- json-c, microhttpd and the copies of googleurl and crc32; the crawler.
pub mod Prelude
pub mod Common
pub mod Types
pub mod XmlParser
pub mod Index
pub mod Dbc
pub mod Query
pub mod Tests
