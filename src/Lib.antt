-- ===== src/Lib.antt =====
-- A model of the native core of ApxDB, an embedded document database in C, and what holds of it.
--
-- The program: src/native/apxdb.c keeps the engine's state behind one mutex (opening, closing, the status
-- of the GPU backend) and a table of documents outside of any collection. src/native/apxdb_schema.c has
-- the registries of document schemas and of fixed layouts. src/native/apxdb_collection.c has the
-- collections: documents are validated against a schema, stored as JSON text and as a blob, entered into
-- indexes, and found by queries; a write transaction guards the changes. src/native/apxdb_json.c parses
-- the JSON texts of documents and of queries.
--
-- The files:
--   Common, with its children: names of the libraries, numbers and tests, C strings (lists of bytes
--     without the terminator), lists, integers, and results that may fail or run out of fuel.
--   Libc: what the program uses of the C library (isspace, strtoll, how far strtod reads, decimals). The
--     values of `double` and their comparison are the interface `Doubles`; how they are stored is
--     `Stores`, and how they are read from their bytes `Loads`.
--   Json: `apxdb_json_value_t` and the accessors; Json.Strings, Json.Number and Json.Parser are the
--     functions of apxdb_json.c under their names, and `append_json_string` of apxdb_collection.c.
--     Json.Fuel, Json.Shorter, Json.Depth and Json.StringRound have their proofs.
--   Engine: the globals of apxdb.c as the record `Engine`; Engine.Lifecycle and Engine.Documents are its
--     calls, a call being one step since the mutex is held; Engine.Invariant, Engine.Opening,
--     Engine.Numbering and Engine.Lookup are about them. What the engine calls of the collections and the
--     registries is the interface `Collections`.
--   Schema: the schemas of apxdb_schema.h; Schema.Layout builds the fixed layouts and Schema.Registry has
--     the registries; Schema.Rows, Schema.Registered and Schema.Reachable are about them.
--   Blob: the size of a document (Blob.Size) and its bytes (Blob.Write), without a fixed layout; Blob.Fuel,
--     Blob.Agree and Blob.Embedded compare them. Blob.Read finds and reads the bytes of a field,
--     Blob.Match compares them with a query, Blob.Print prints them as JSON, and Blob.LayoutRead finds a
--     field where there is a fixed layout. Blob.Written, Blob.Fetch, Blob.Parts and Blob.FieldPayload are
--     about finding a field in what was written, Blob.Meets says when a value meets a query, independently
--     of its bytes, and Blob.Bytes, Blob.PlainField, Blob.ElementReads, Blob.ListMeets, Blob.ValueMeets, Blob.PrintLists,
--     Blob.PayloadLength and Blob.MatchFuel are about reading, comparing and printing.
--   Collection: the records of apxdb_collection.c; Collection.Entries and Collection.Indexing are the
--     indexes, Collection.Validate the validation, Collection.Transactions the write transaction,
--     Collection.Store the globals and what loads a collection, and Collection.Operations the calls on
--     documents. Collection.Signature is the signature of a schema, Collection.Saved the bytes of the file
--     of a collection, and of the file of its indexes, whose reader is Collection.IndexFile;
--     Collection.Loaded and Collection.LoadFile read a collection's file. A file is a list of bytes, and Collection.Disk
--     says which files there are and gives the calls the `load_collection_from_file` of them. The other
--     children hold their proofs.
--   Query: lists of ids (Query.Ids), the combination of queries (Query.Combine), the operators of numbers
--     (Query.Operators), one member by an index (Query.Member) or by a scan of the documents (Query.Scan),
--     and the calls `apxdb_find_documents` and `apxdb_count_documents` with the arrays they return
--     (Query.Calls). Query.Matches says what a query means, independently of the order of the search, and
--     Query.Satisfies what a document's value must satisfy, independently of blobs and indexes; Query.Answers
--     joins the two, and the other children are the proofs about ids, rounds, ranges and scans.
--   Csv: rows of a CSV file and the escaping of their fields, of src/native/apxdb_import_csv.c; Csv.Rows and
--     Csv.Escape are about them.
--   Examples: inputs at which the theorems are used.
--
-- Fuel: the parser gets three units for each byte of its text and three more (Json.Parser, `parse_fuel`),
-- and the functions on documents one for each level of nesting. The scan gives the
-- comparison of a payload with a query two units more than the payload has bytes (Blob.MatchFuel); the
-- printers take theirs as an argument.
--
-- Assumptions: memory is there, except where a flag (`Memory`, `Room`, `Host`, `allocated`) says that an
-- allocation fails. Schemas are finite trees. Texts contain no NUL. Numbers are stored with the low byte
-- first. Sums of sizes do not reach 2^64. A handle of a transaction is not used again after it was freed,
-- and an address that was freed does not come back. What happens after a blob was freed twice, or over the
-- freed entries of an index, is undefined: the results `blob_freed_twice` and `index_freed` of
-- Collection.Loaded stand for it.
--
-- Not modelled: writing and printing a blob with a fixed layout (parameters, `Blobs`), the answers of the
-- GPU backends (a parameter, `Gpu`) and their caches' contents, metrics, the paths of files, saving and
-- loading all collections, writes to a file that fail, the schema and the files of the CSV import, and
-- the bindings, benchmarks and tests.
pub mod Common
pub mod Libc
pub mod Json
pub mod Engine
pub mod Schema
pub mod Blob
pub mod Query
pub mod Collection
pub mod Csv
pub mod Examples
