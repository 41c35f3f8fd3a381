-- ===== src/Lib.antt =====
-- cm is a proxy in front of MySQL servers: it speaks the MySQL protocol to its clients, parses
-- their statements, plans them, sends the work to the servers and answers reads by primary key from
-- a row cache.
--
-- Common holds what the parts share: lists over the native numbers, texts as lists of bytes, and
-- Go's outcomes (a value, an error, a panic). A byte slice or a string is a list of numbers; a case
-- change is that of ASCII.
--
-- mysql/util.go is Mysql.LenEnc: LengthEncodedInt, LengthEnodedString, SkipLengthEnodedString and the
-- functions that write these forms. An index outside a slice panics, as in Go; uint64 wraps around.
-- Its FormatBinaryDate, FormatBinaryDateTime and FormatBinaryTime are Mysql.BinaryTime.
-- mysql/packetio.go is Mysql.Packet: ReadPacket and WritePacket over the bytes to be read and the bytes
-- sent, with the sequence number that both count modulo 256. The reader's fuel is the number of bytes
-- that arrive and one more, since each call reads a header; the writer's is the length of its buffer and
-- one more, since each round takes bytes off it.
-- router/key.go, router/numkey.go and router/shard.go are Router.Key, Router.NumKey and Router.Shard:
-- ranges of keyspace ids and of numbers, their sharding specs, and the shard that a key belongs to.
--
-- mysql/field.go is Mysql.Field: Parse and Dump. mysql/resultset.go is Mysql.Resultset, with
-- Resultset.Decimal (strconv's decimal numbers) and Resultset.Binary (the rows of prepared statements);
-- mysql/resultset_sort.go is Resultset.Sort. What is done to floating-point numbers is the argument
-- Floats, a float64 being its bits, and sort.Sort is known by the swaps it makes. mysql/result.go and
-- the readers of mysql/conn.go are Mysql.Client, over the payloads of the packets that arrive: each loop
-- takes a packet in each round. mysql/charset.go is Mysql.Charset.
--
-- sqltypes/sqltypes.go is Sqltypes.Escape, the escape tables and the SQL literal of a string, and in
-- Sqlparser.Query and Sqlparser.Analyzer BuildValue and BuildNumeric.
-- sqlparser/ast.go is Sqlparser.Ast, the statements, and Sqlparser.Format, their Format methods as the
-- sequence of writes they make on a TrackedBuffer. sqlparser/tracked_buffer.go is Sqlparser.Tracked,
-- which runs the writes; sqlparser/parsed_query.go is Sqlparser.Query: GenerateQuery with the bind
-- variables and their encoding. sqlparser/analyzer.go is Sqlparser.Analyzer. sqlparser/token.go is
-- Sqlparser.Keywords, with the numbers of the keywords, and Sqlparser.Token: the reader and scanString;
-- Token.Words, the scanners of identifiers, bind variables, numbers, comments and hexadecimal strings;
-- Token.Scan, Scan and Lex. The fuel of a string is the length of the input and two more, since each
-- round reads a character and none goes on at the end; the other loops go down the input.
--
-- vt/schema/schema.go is Vt.Schema. vt/tabletserver/planbuilder is Vt.Planbuilder: the plans of
-- plan_type.go and plan.go; Where, the conditions of select.go; IndexAnalysis, index_analysis.go;
-- QueryGen, query_gen.go; Select, Dml and Insert, the files of these names; Plan, analyzeSQL of plan.go
-- and ddl.go. The planner takes the table getter as an argument and calls the analyzer, the schema and
-- the formats. Select.Stages follows the plans through the stages of an analysis.
--
-- proxy/conn_tx.go, proxy/conn_set.go and getConn of proxy/conn_query.go are Proxy.Tx: a session's
-- transaction as a step relation, with a trace of what was asked of the servers' connections. What the
-- servers and the pool answer is an argument of each operation.
--
-- proxy/conn.go, proxy/conn_resultset.go and proxy/conn_select.go are Proxy.Packets, the payloads that a
-- session sends (writeOK, writeError, writeEOF, writeResultset, writeFieldList), and Proxy.Rows, the rows
-- it makes (buildResultset, buildSimpleSelectResult) and merges (mergeSelectResult and mergeExecResult
-- of proxy/conn_query.go). bindStmtArgs of proxy/conn_stmt.go is Proxy.Stmt.
-- Packets.Read and Packets.Replies put them in front of Mysql.Client.
-- vt/tabletserver/rowcache.go is Vt.Tabletserver.RowCache, over a record Memcache of memcache's
-- operations with the laws that its documentation gives. The rest of proxy/conn_query.go is Proxy.Cache:
-- Keys, the keys and the select by key; Fill, the rows that the cache answers and takes; Handlers,
-- handleSelect and handleExec, where what the shards answer to a query is an argument. Cache.Coherence
-- sets the cache beside the servers' rows and lets selects, other statements and memcache take turns.
-- The lock on a key is held while handleExec or the filling select runs, so each is one step of its key.
--
-- Not modelled: the parser that goyacc generates, network calls, memcache itself, configuration, logging,
-- floating point (strconv.ParseFloat is an argument of analyzeSet, which keeps a float64 by its text),
-- and the parts that the list below says nothing about.
pub mod Common
pub mod Sqltypes
pub mod Sqlparser
pub mod Mysql
pub mod Router
pub mod Proxy
pub mod Vt
