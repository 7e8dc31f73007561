-- ===== src/Lib.antt =====
-- fio.relic, the program under prototype/: a writer takes the blocks and traces of a FIO chain
-- from Chronicle over a websocket and stores them in a MariaDB database, a cleaner deletes old
-- history.
--
-- Utils: prototype/utils.cpp, utils.h: formatted output, log levels, exceptions, getFileName;
-- Utils/Logging the same file by file, and the functions that utils.h declares.
-- Options, Main: prototype/options.cpp, options.h, main.cpp: the names of the options and the
-- printed configuration, the choice of the part that runs, the catch clauses; Options/Parsing
-- what getOptions uses of boost::program_options; Main/Program the objects that main runs and
-- destroys.
-- Server: prototype/WebsocketServer.cpp, WebsocketServer.h: WebsocketServer::Run, read,
-- acceptAsync and Close over any onRead and onDisconnect, which class Writer gives; Server/Object
-- has the object with its acceptor and stream, Server/Class its functions together.
-- Database: prototype/Database.cpp, Database.h: an interface with laws, the two classes that
-- inherit it, and in Database/Object the object itself with its pointer to a connection.
-- Tables: the rows of prototype/sql/mysql/Relic_mysql.sql, and each SQL statement that the writer
-- and the cleaner prepare as a function on them.
-- Writer: prototype/Writer.cpp, Writer.h and Database.cpp. Writer/State has the object and its
-- transactions: `working` is what this session sees, `committed` what the others see.
-- Writer/Batch has forkTraces, saveTrace and sendTracesBatch; Writer/Messages the cases 1001 and
-- 1003 of processData; Writer/Block and Writer/Takeover, with Writer.antt, the case 1010;
-- Writer.antt processData, onRead and onDisconnect; Writer/Startup getOptions, sanityCheck,
-- initialize, Run and Close; Writer/Configuration GetOptionsDescription and the parsing in
-- getOptions; Writer/Class the functions together. The other modules below Writer hold proofs:
-- Rules, KeptByBlocks, Checked and Kept say what a property has to survive for a message to keep
-- it, Runs has the steps of a writer and what it reaches; History and Sequence compare the
-- reading of a stream of blocks with a store that is given; Store has one that writes each trace
-- at once, and Growth, Chain, Settled, Ignored, Buffers, Wire, Served, Stream, Undone, Rewritten,
-- Cut, Started, Whole, Repeated and Resumed compare a master with it; Slave/Mirror has one that
-- backs each trace up, and the other modules of Slave compare a slave with it; Chapters has the
-- blocks with the forks between them.
-- Cleaner: prototype/Cleaner.cpp, Cleaner.h: the rounds of Cleaner::Run and their batches, Close
-- and the destructor; Cleaner/Configuration the options, Cleaner/Class the functions together.
-- External: rapidjson, the result sets of the MariaDB connector and their getInt, as parameters,
-- with the documented behaviour of the latter two as hypotheses; that of the option library
-- stands in Options/Parsing.
-- Base: what these share: integers, bytes, decimal texts, lists, and methods that change an
-- object and may throw.
--
-- A method is a function from the state to an outcome, a value or the place of the throw, and a
-- new state; what was written before a throw stays written. What the program meets outside, such
-- as the clock, the state of the connection and the answers of the sockets, comes in as
-- arguments. Block numbers are integers, and the conversions to a 32-bit int are written out. The
-- loops over answers of the database take a number of rounds, and throw `out_of_rounds` when
-- these run out; a documented cursor ends them at their first test, so that one round is enough;
-- the loop over the batches of the cleaner is given one more round than there are blocks to go,
-- which is enough where no int overflows, since a batch moves the bound by at least one block.
-- The endless loop of the cleaner takes a list of passes, and throws `out_of_rounds` at its end,
-- since only an exception leaves it. Closing a connection may throw, and then the object keeps
-- it.
--
-- Not modelled: the text of log lines, statements of the writer that fail while the connection is
-- valid, the sleep of the takeover, the figures of the report but for their division by the count
-- of blocks, overflow of the counters and of the product of days and blocks, the copies of
-- rapidjson and appbase under prototype/externals, the SQL and shell scripts under scripts/, and
-- the order in which a std::map is walked.
pub mod Base
pub mod Utils
pub mod External
pub mod Tables
pub mod Database
pub mod Server
pub mod Writer
pub mod Cleaner
pub mod Options
pub mod Main
pub mod Tests
