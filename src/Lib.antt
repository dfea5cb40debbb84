-- ===== src/Lib.antt =====
-- go-msi reads and writes Windows Installer databases: a compound file whose streams hold tables,
-- the strings of all tables in one pool, and a SQL dialect to query and change them. This library
-- models the parts that decide what is stored and what is asked for, in Go's order of tests, and
-- proves the properties below.
--
-- The parts, from the bytes up:
--
-- * internal/streamname/streamname.go packs the names of streams into runes of a private range.
--   Utf8 is Go's decoding and encoding of runes on byte strings, StreamName the functions Encode,
--   Decode, EncodedLen and Reserved, StreamName/ByRune reads Encode rune by rune.
-- * msidb/column.go is Column. msidb/format.go is Format: encodeInt and decodeInt, packType and
--   unpackType, the reserved names, and the widths of columns (column_widths, total).
-- * msidb/encode.go and msidb/decode.go write and read the records of a table column by column:
--   encode_records and decode_records in Records. Rows are lists of raw cells, as in Go.
-- * internal/sql/scan.go is Sql/Token (kinds and keywords) and Sql/Scan: scan takes a Scanner to a
--   token and the Scanner behind it.
-- * internal/sql/parse.go is Sql/Parser (the parser's state, accept, expect, lists and values),
--   Sql/Parser/Expr (parseOr, parseAnd, parsePrimary) and Sql/Parser/Stmt (the statements).
--   internal/sql/sql.go is Sql: the statements and Params; Parse is in Sql/Parser/Stmt.
-- * internal/stringpool/stringpool.go is StringPool: Lookup, LookupID, Intern, Release and LongRefs.
--   newPool, SetCodepage and Validate, with the code pages of internal/stringpool/encoding.go, are in
--   StringPool/Codepages.
-- * internal/blobstore/blobstore.go is Blobs: Create, Write, Close of a writer, and Delete, with the
--   file as a function from offsets to bytes. Blobs/System runs any number of writers on one store,
--   in any order: every method holds the lock from its start to its end.
-- * msidb/table.go is Table: newTable, the order of keys, find, and in Search the binary search that
--   it shares with the windows. msidb/errors.go is Errors: error values with what went wrong as data.
-- * msidb/convert.go is Convert: the values of a statement are normalized and converted for their
--   column, encodeValue makes a cell of them, and Convert/Assign scans a cell into a variable.
-- * msidb/query.go is Query: the tables and columns of a statement, and Query/Named what a
--   reference to a column names. Query/Compile is where and compile, which make tests for the
--   levels of the walk and windows for the search; Query/Walk is window, walk and gather. What a
--   statement means is told by nested loops over all records, in Query/Select, and by the values
--   of cells, in Query/Meaning.
-- * msidb/dml.go is Dml: execSelect with sortTuples and distinct, into the Rows of msidb/rows.go;
--   Dml/Answer has what it promises, with Dml/Combos, Dml/Shown and Dml/Order, in words of the
--   tables alone. The insertion of execInsert is in Table/Insert.
-- * internal/guid/guid.go is Guid: Parse and Format of GUIDs.
--
-- How they interact: a statement's markers are the arguments of msidb's Query and Exec; a cell of a
-- record is an integer as encodeInt writes it or the number of a string in the pool, 2 or 3 bytes
-- wide as LongRefs says; a table's stream is named by Encode. The state of Go's methods is passed
-- explicitly: a method on *scanner, *parser or *Pool takes the record and returns the new one.
--
-- Machine integers are natural numbers with their wrap-around written out where the code relies on
-- it. Bytes are natural numbers below 256, strings are lists of bytes. Loops over a string recur on
-- fuel equal to its length, of which a round takes one byte at least. The parser recurs on three
-- times the length of its text and six: there are three calls to a token, and a token has a byte.
-- Write of a blob recurs on the number of bytes, of which a round writes one at least.
--
-- The binary search recurs on the distance of its bounds, a decimal has twenty digits at most, and
-- the records that gather returns are cut into tuples on as much fuel as there are records.
--
-- Not modelled: opening and writing files (msidb/database.go, and the package go-cfb with its
-- oleps, which are not part of the repository); INSERT, UPDATE and DELETE in msidb/dml.go apart
-- from the insertion of a record; msidb/ddl.go and msidb/stream.go; of msidb/rows.go the methods;
-- of msidb/table.go refresh, moved and the readers of streams; of msidb/convert.go the scanning of
-- streams, and assignFallback, which works by reflection, but for a byte slice and an integer; the
-- summary information, the readers and the closing of the blob store, the texts of errors, and the
-- helpers of the tests. The encodings of golang.org/x/text are not modelled: whether an encoder
-- can write a rune is a parameter of SetCodepage and Validate, and the two streams that the string
-- pool is stored in are left out. What WriteAt does on the blob store's file is a parameter too,
-- for every call of Write another.
pub mod Prelude
pub mod Column
pub mod Format
pub mod Records
pub mod Utf8
pub mod StreamName
pub mod Sql
pub mod StringPool
pub mod Guid
pub mod Blobs
pub mod Search
pub mod Table
pub mod Errors
pub mod Convert
pub mod Query
pub mod Dml
mod Tests
