-- ===== src/Lib.antt =====
-- Verification of libtabula, a C++ library around the client of an SQL server. The development models
-- the library's own logic: how SQL text is built, escaped and sent, how connections are pooled, and
-- the small parsers and printers around it. The code is C++; each function is translated from its
-- source, with state passed explicitly and exceptions as values.
--
-- The parts, the files that model them, and how they correspond to the code (paths from the
-- repository's root; src/ is the directory of the library):
--
-- Escape: SQLStream::escape_string_generic() of src/sqlstream.cpp, both overloads. `escape_char` is the
--   switch, `escape_string_generic` the loop, `escape_into` the overload for a string with the size of
--   the buffer that it allocates.
-- Pool: ConnectionPool of src/cpool.h and src/cpool.cpp, every operation under its own name. The mutex
--   makes each operation one step; `Op`, `step` and `run` are sequences of steps of any threads.
--   create(), max_idle_time(), ping() and the clock are arguments; destroyed connections are recorded.
--   Pool.Scoped has ScopedConnection of src/scopedconnection.cpp, around the steps of its scope.
-- Adapter: SQLBuffer, SQLTypeAdapter and the tests of FieldType that decide on quotes and escapes
--   (src/sql_buffer.cpp, src/stadapter.cpp, src/field_type.h). An adapter always has its buffer, and
--   the look-up of a C++ type for a field type does not fail.
-- FieldType: the table of types, annotate(), id() and the comparisons of FieldType
--   (src/field_type.h, src/field_type.cpp). A C++ type is the name that the table has for it.
-- Query: template queries of src/query.cpp and src/qparms.h. `pprepare` and `proc` expand a template
--   with parameters and defaults; Query.Parse has parse(), the reader of templates, and Query.Names the
--   access to parameters by name.
-- Run: reset(), str() and the overloads of execute(), store() and use() (src/query.cpp,
--   src/query.h, src/autoflag.h), which call str() and one another. It uses Query for the expansion.
-- Insert: Query::insertfrom() and replacefrom() of src/query.h, which fill statements row by row as a
--   policy of src/insertpolicy.h allows, inside a Transaction (src/transaction.cpp). The two differ in
--   the words of the statement, the `Verb`. The policy and the server are arguments;
--   RowCountInsertPolicy, SizeThresholdInsertPolicy and MaxPacketInsertPolicy are translated.
--   Insert.Build has insert(), replace() and update(), which only build the text of a statement, and
--   Insert.Begin the constructors of Transaction.
-- Listed: the manipulators of src/manip.cpp on a Query, `written`, and on parameters, `as_param`; the
--   lists of values and of equalities of src/vallist.h and create_vector() of src/vallist.cpp. It uses
--   Adapter for what is quoted, and meets Query where a template expands a parameter. A list that is
--   read past its end has no result.
-- Calendar: Date, Time and DateTime of src/datetime.h and src/datetime.cpp with Comparable: printing,
--   conversion, comparison.
-- Tcp: TCPConnection::parse_address() and connect() of src/tcp_connection.cpp. The service database
--   and Connection::connect() are arguments.
-- RefCount: RefCountedPointer of src/refcounted.h, over a heap of blocks with counts. `Op` is what a
--   program does with its pointers.
-- Driver: the options of src/options.h, DBDriver of src/dbdriver.h and src/dbdriver.cpp, and
--   MySQLDriver of src/mysql/driver.cpp with its options and its connection. The C API is the record
--   `Api`, over states of its own; `impl_compress` and the like are the overloads of set_option_impl().
-- Connection: Connection of src/connection.h and src/connection.cpp over a driver, the record
--   `DbDriver`. It uses Tcp for addresses; what a pipe or a socket file is, is an argument.
-- Nullable: Null of src/null.h, over a type with its own == and <; its Behavior is an argument.
-- Rows: the look-up of a field by its name or place in FieldNames and Row (src/field_names.cpp,
--   src/row.h, src/row.cpp), ResultBase::field_num() of src/result.cpp, create_vector() by names, and in
--   Rows.Lists the lists of a row, which Listed prints.
-- Results: the constructors of StoreQueryResult and UseQueryResult and fetch_row() (src/result.h,
--   src/result.cpp) over the C API, the record `ResultApi`, with fetch_fields() and fetch_row() of
--   src/mysql/driver.cpp. Results.Filled is a stored result, and Results.Loops the loops over rows of
--   src/query.h.
-- Strings: String of src/mystring.h and src/mystring.cpp: bounds and comparisons, Strings.Numbers the
--   conversion to an integer, which reads as the streams of C++ do, and Strings.Dates those to dates.
-- Sets: Set of src/myset.h with std::set<std::string>: set2container() and the printer.
-- Values: the constructors of SQLTypeAdapter from C++ values, its at() and compare()
--   (src/stadapter.cpp, src/stream2string.h). It uses Calendar and Nullable, and meets Strings where a
--   String shares the adapter's buffer.
-- Ssx: ParseV2 of src/ssx/parsev2.h and src/ssx/parsev2.cpp, the reader of SSQLS v2 files, and the
--   generator of src/ssx/genv2.cpp. Ssx.Tokens has tokenize() and split_path(), Ssx.Options the options
--   and the field types, Ssx.Lines fields, tables and the printer, Ssx.Paths the search for a file, and
--   Ssx.Files the reader of lines, Line::parse() and the constructor, `parse_file`. The file system is
--   an argument, and a file is the list of its lines.
-- Prelude: the names, tests, lists, texts, integers and decimal numbers that the parts share.
--
-- A text is a list of bytes. Machine integers keep their wrap-around where the code can reach it: the
-- signed char of a template position, the unsigned bytes of a date, the counter of rows. Lengths are
-- below the limits of their types. atoi() on a number that no int holds has no result in the model.
--
-- Fuel: the reader of templates has one unit more than the input has bytes, since every round consumes
-- one; the overloads of Run have five, since no chain of their calls is longer; safe_grab() has as many
-- as rounds are looked at; a printed number has five digits at most. A tokenizer has as many as the
-- line has bytes, since every token takes one. The loops of Results have one for each row and one more.
-- The bound of `parse_file` is on the depth of the includes: a rank of the files that falls with each
-- include is enough. Other loops are structural.
--
-- Not modelled: the calls of the C API that the driver only passes on and clone(), the queries that
-- Connection sends, mutexes, the conversions to and from time_t, tiny_int, whose operators are those of
-- C++, the copies of result sets, the access to the members of a field, the generated structures, and
-- the examples; the driver's answers are arguments where they matter. Of Query, storein(), which picks
-- a container, and store_next(). Of src/ssx, main() and the messages.
pub mod Prelude
pub mod Escape
pub mod Pool
pub mod Adapter
pub mod Query
pub mod Insert
pub mod Listed
pub mod Calendar
pub mod Tcp
pub mod Run
pub mod RefCount
pub mod FieldType
pub mod Driver
pub mod Connection
pub mod Nullable
pub mod Rows
pub mod Results
pub mod Strings
pub mod Values
pub mod Sets
pub mod Ssx
