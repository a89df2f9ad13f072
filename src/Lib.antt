-- ===== src/Lib.antt =====
-- The verification library of epochs, a version-controlled document store in Rust.
--
-- The program. epochs-core keeps objects in an append-only store that is addressed by content
-- (epochs-core/src/cas), documents in a persistent hash trie over it (epochs-core/src/hamt), and
-- commits over the tries (epochs-core/src/commit.rs, epochs-core/src/store, epochs-core/src/dag), with
-- branch refs in files (epochs-core/src/repo). epochql is a query language over that core, and
-- epochs-cli, epochs-server and epochs-bench are programs on top.
--
-- What models what.
--   Common, Assoc, Text, Outcome: numbers, bits, lists, the maps of the standard library, UTF-8,
--     the error values of epochs-core/src/error.rs, and methods on `&mut self` (Outcome.Action).
--   Codec, Codec.Pool: epochs-core/src/codec. A decoder method is a reader of the cursor.
--   Hash: epochs-core/src/hash.rs. Crc: epochs-core/src/crc32.rs.
--   Record, Index, Cas.Segment, Cas.Store, Cas.Mem: epochs-core/src/cas. Lru: epochs-core/src/cache.rs.
--   Commit: epochs-core/src/commit.rs.
--   Hamt.Node, Hamt.Chunk, Hamt.Tree: epochs-core/src/hamt, over the interface `CasBackend`. Hamt.Trie
--     is the trie as a value, and Cas.Laws what the trie relies on of a backend.
--   Dag: epochs-core/src/dag/algorithms.rs, over any function that loads commits.
--   Repo: epochs-core/src/repo/manifest.rs and branch.rs; Repo.RefPath is the path of a name. Disk: epochs-core/src/store.
--   Ql.Chars, Ql.Token, Ql.Lexer, Ql.Error: epochql/src/lexer.rs and error.rs. The lexer's state has
--     the characters from its position on in place of all of them and the position.
--   Ql.Ast: epochql/src/ast.rs. Ql.Parser: the methods on tokens of epochql/src/parser.rs, with
--     Ql.Parser.Expressions, Patterns and Statements for those of the grammar. The parser's state has
--     the current token and those behind it in place of all of them and the position. The arms of
--     a `match` on the current token are a function of its kind (`primary_of` of `parse_primary`), and
--     a loop is a function of its own (`or_loop` of `parse_or`). Ql.Parser.Grammar is the grammar of
--     expressions as relations.
--   Ql.Schema: epochql/src/schema. Ddl is the parser of migrations, on the state of Ql.Parser, which
--     has the same fields and methods as DdlParser. Registry is the schema, Migrate the statements on
--     it and the run over the files, a list of names and texts, from the texts of schema.lock and
--     schema.state to those it writes, which Lock and State read and print.
--   Epx.Base64, Epx.Frame: epochs-server/src/epx.rs. The socket of a connection is the list of the
--     bytes that are still to come.
-- The definitions carry the names of the Rust functions. Bytes are numbers below 256, a hash is
-- the list of its 32 bytes, and a text is the list of its UTF-8 bytes, in Ql that of its
-- characters. A word keeps the cast that the code writes as a remainder.
--
-- Parameters. BLAKE3 is another crate's: the record Hash.Blake3 asks for a digest of 32 bytes. The
-- clock is an argument of what reads it. The type f64 and its parser are arguments of the
-- lexer, its negation one of the parser, and the answer to a request is one of a connection.
--
-- Fuel. The recursion of the trie takes one round for each level (Hamt.Tree.max_rounds
-- is 64, and a hash has 256 bits, five for a level). The walks of Dag and Disk take
-- fuel as an argument, Index.open_index takes one round more than the file has bytes, and
-- Ql.Lexer.tokenize one round more than the source has characters. The parsers take one round for
-- each token: the recursion of expressions uses one for each level of parentheses and maps, and each
-- loop one for each time it is run. The size of the machine's stack is not modelled. The loop of a
-- connection takes fuel as an argument too.
--
-- Not modelled: the effect of fsync, failures of the operating system other than a missing or
-- short file, branch names that start with `/` or have a `..` part or a zero byte, migration and
-- schema files that are no UTF-8, the upkeep of path indexes and the engine of epochql, epochs-cli,
-- epochs-bench, and of epochs-server all but the frames, the connections and the base64 of its
-- protocol.
pub mod Common
pub mod Outcome
pub mod Codec
pub mod Text
pub mod Hash
pub mod Crc
pub mod Record
pub mod Assoc
pub mod Index
pub mod Commit
pub mod Lru
pub mod Cas
pub mod Hamt
pub mod Ql
pub mod Repo
pub mod Dag
pub mod Disk
pub mod Epx
pub mod Tests
