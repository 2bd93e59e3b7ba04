-- ===== src/Lib.antt =====
-- smarty-appserver, a FastCGI server that runs scripts of a small state language. A script is a map
-- from numbers to states; a request gives variables, and the server goes from state to state until
-- the number ENDSTATE.
--
-- The parts, and how they meet:
--   Prelude       Boolean tests and lists over the native numbers, byte strings, association lists,
--                 and `int` as ℤ.
--   Errors        include/myexceptions.hpp: what a call does. `exit` is log_error, which ends the
--                 process; `undefined` is a use of memory that is gone or of a null pointer;
--                 `out_of_fuel` is a loop that has not ended.
--   Action        calls with a state that is passed on; Action/Ensures has a rule for each way to
--                 build one that keeps an invariant, Action/Ends for what a call leaves, Action/Gives
--                 for the value of a call that may fail in any way, Action/Leaves for a part of the
--                 state that a call leaves as it is.
--   CppString     the methods of std::string that the program uses.
--   Regex         include/cregex.hpp, src/cregex.cpp: a compiled regex is what regexec does with it.
--                 Regex/Collection is CRegexCollection: fill, add and operator<<;
--                 Regex/Names is its lookup by a C string, with the buffer of the exception.
--   State         include/cstate.hpp: the records of the twelve classes of states, and the
--                 constructors. The virtual methods are functions by cases on the class:
--                 State/Parse is `parse`, State/Verify is `verify`, State/Execute is `execute`
--                 (Output, Matching and Services have the classes of src/*state.cpp, Payload the
--                 callback of src/mailstate.cpp, Reply that of src/httpstate.cpp, Ready what `verify`
--                 and the parser give a run, Transient and Kept the members that a run changes), and
--                 `getPropositional` is in Assigner/Evaluate, which calls it.
--   Database      src/cdbmanager.cpp, src/cpgdatabase.cpp: the sections, and the row of a query;
--                 Database/Connect is connectDBs, disconnectDBs and the connection string.
--   Parser        src/parser.cpp: is_matched, is_variable and the helpers; Parser/Assignment is
--                 parseAssignment, Parser/Comment the cut of a comment, Parser/Script parseScript,
--                 whose Induction goes over the lines of a file once for all invariants.
--   World         what a running state works on: the symbol table, the FastCGI output, the outside.
--   Assigner      src/cassigner.cpp: CAssigner. Assigner/Evaluate is `evaluate` and `assign`, with a
--                 reference semantics of texts in Assigner/Evaluate/Segments; Assigner/Held is the
--                 table that holds the name of the script.
--   Http          src/http.cpp: HTTPstatus and urlDecode.
--   Server        src/preforked.cpp, processRequest: the loop over the states; Server/Request is the
--                 rest of a round of `while(1)`, from the parameters to r_finish (its children have
--                 the variables of a request, Import, the choice of a script, Outcome, and requests
--                 one after the other, Isolated and History); Server/Child is the start of a child,
--                 the loop over what it accepts, and its exit.
--   Pool          src/preforked.cpp, include/preforked.hpp: the parent process, its counts and its
--                 table of slots: forkChildren, needFork, the signal handlers and what a child writes
--                 to its slot. Pool/Steps joins them to a step relation, and Pool/Interrupts has the
--                 statements of forkChildren one by one, with handlers between them.
--   Service       src/preforked.cpp, runPreforked, and around it the end of main (src/appserver.cpp) and
--                 daemonize (src/utils.cpp): the calls of the system in their order, and the main loop.
--   Start         src/appserver.cpp: main up to daemonize, with the loading of the scripts, and
--                 freeAllScripts; findConfigFile and openRegexCollection of src/parser.cpp.
--   Logging       src/utils.cpp: the buffer of a log message, and in Logging/PidFile write_pid.
--   Tests         concrete libraries, scripts and requests.
--
-- A function of the source is a function of the same name in lower case with underscores; what
-- branches on a computed value has a helper (`on_...`). A state that changes when it runs comes back
-- with its result, and the map of states is updated with it. Two names of a script that have one file
-- share its states, so scripts are looked up by name and then by file.
--
-- The libraries are parameters: the record Externals (lexical_cast, split, sscanf, regcomp, the
-- configuration and the regex collection) and the record System (memcached, files, popen, curl, the
-- database, JSON and XML, date and uuid), each over a state of the outside of any type. The one law
-- that is asked of them is IsLawful: the regexes of variables match no empty text, and a number that
-- lexical_cast finds negative begins with '-'. The regexes of conf/regexlib.dat are such.
--
-- Numbers: state numbers are ℤ and never computed with. Offsets are ℕ; `eo - so` on size_t wraps at
-- 2 ^ 64 where the source subtracts size_t. PARAMBUF_LENGTH is 1024.
--
-- Fuel: evaluation has the length of the text, and is shown to need no more; parse_terms has the
-- length of the string that is left, enough where the regexes of the terms match no empty text; the
-- loop of `fill` has the length of the file; the reads of a mail have more than its lines; a script
-- may loop for ever, so the loop over the states has fuel from its caller, and enough is given where
-- the states fall along a rank.
--
-- The value of a variable is an owned string, a held one, to which scriptName of processRequest points
-- as well, or `dangling`, the address of a buffer that has been destroyed: the http and shell states
-- store such an address. An assignment to the variable of a held string leaves scriptName without it,
-- and its next read is undefined. A line of a mail may be longer than the buffer that curl gives
-- payload_writer. The safety theorems therefore leave the classes http, shell and mail out, ask for no
-- assignment to the script selector and for SERVER_PROTOCOL, and take texts in which no sign of a variable stands before a '-', since a
-- negative group number reads in front of an array.
--
-- The way to a request: Start reads the section [script], Parser makes the maps and fills the table of
-- database sections, Pool forks the children, Database/Connect connects a child's sections, and Server
-- serves requests over the maps. Start/Ready and Server/Child/Safety join them.
--
-- The parent: fork, waitpid, kill and /proc are the record Os over a state of the processes of any
-- type, and IsPosix says that fork adds a child to count and waitpid takes one away. The float test
-- busy / count > 0.79 is 79 * count <= 100 * busy, which is the same for all counts up to 1024. In
-- Pool/Steps a signal handler runs while the parent sleeps, in Pool/Interrupts between any two
-- statements of forkChildren; `children_running++` is one of them. The handler of SIGCHLD has fuel
-- for the number of children, enough since each waitpid takes one away; the statements of forkChildren
-- have 69, and the main loop of Service more than the number of the sleep in which all children end.
-- The other calls of the system are the record Kernel, and the session keeps those that were tried, whether they succeed or not.
--
-- Not modelled: the file locks, which are held around each access of the table of slots; rfcDate, which
-- is the parameter date; the text of the exceptions of the regex collection; signals in the start of
-- the parent; the test programs. Log messages have no effect but the reads of scriptName.
pub mod Prelude
pub mod Errors
pub mod Action
pub mod CppString
pub mod Regex
pub mod State
pub mod Database
pub mod Parser
pub mod World
pub mod Assigner
pub mod Http
pub mod Server
pub mod Service
pub mod Pool
pub mod Start
pub mod Logging
pub mod Tests
