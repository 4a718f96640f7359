-- ===== src/Lib.antt =====
-- An online judge in C++: a web server (oj_server) with users, questions and their progress in
-- MySQL hands submissions to compile servers (compile_server), which compile and run them. This
-- library models both.
--
-- The parts and their files. Texts are lists of character codes, and numbers are natural numbers
-- or `ℤ` of Comm/Int; `Result` of Base/Result is a value, an exception, or undefined behaviour.
--   Base            the shared tests, lists, texts and results
--   Comm            comm/util.hpp. Numbers: StringUtil::isValidNumber, and in Int the conversions of
--                   the C++ library; Paths: PathUtil; Cookie: SessionUtil::get_cookie_value; Files:
--                   FileUtil on a disk; Hex: UUIDUtil, MD5Util and the session ids; HostStatus:
--                   HostStatusUtil on the texts of /proc, read by the Streams; Clock: TimeUtil; Log:
--                   comm/log.hpp
--   Json            jsoncpp, as a record of functions
--   CompileServer   Runner: compile_server/compiler.hpp and runner.hpp; Job: compile_run.hpp, where
--                   `reach_end` is CompileAndRun::Start up to the label END, `answer` what is built
--                   there and `clean_up` the end of it; Parallel: several of them at
--                   once, as a schedule of their steps; and the first handler of
--                   compile_server.cc; Status: its other one, /status
--   Balance         oj_server/oj_control.hpp, classes Machine and LoadBalance; Judge: the loop of
--                   Control::Judge. A submission is posted to a machine that SmartChoice picks, and
--                   the machine's compile server answers what Job models. System: several
--                   threads in that loop, as a relation of steps, each of them what the lock of one
--                   machine guards, and the signal that brings machines online again. Status: what
--                   UpdateStatus makes of the answer to /status. Locked: the calls of LoadBalance
--                   with the lock that they take by hand and with the exceptions that leave them,
--                   and the loop of Judge over them
--   Model           oj_server/oj_model2.hpp: the records, the statements sent to MySQL and what is
--                   made of the rows; Connection: its class MySQLConnection and the bodies that use
--                   it, as the calls that they make of the client library; Listed: the older
--                   oj_server/oj_model.hpp, on files
--   View            oj_server/oj_view.hpp: the dictionaries that pages are expanded from
--   Control         oj_server/oj_control.hpp, classes Control (Questions), UserControl (Users) and
--                   UserProgressControl (Progress); Verdicts puts the two servers together
--   Server          oj_server/oj_server.cc: the sessions and one function for each HTTP handler. A
--                   `Site` is what the handlers share: the database, the sessions and the machines.
--                   Requests puts the handlers under one function, `serve`; Threads: the calls of
--                   several handlers on the nodes of the map of sessions, as a schedule of turns.
--
-- What comes from elsewhere is a parameter: boost::split (`split` of load_conf), jsoncpp
-- (`JsonCpp`, `StatusJson`), MySQL and the calendar (`Backend`), its client library (`Driver`), the
-- MD5 digest (`Md5`), ctemplate (`Expand`), the operating system with g++ and the submitted
-- programs (`Host`), the network with the other servers (`Poll`, `Round`), the clock and the random
-- numbers (plain arguments). The database is the list of the statements executed so far: what a
-- statement is answered is a function of those before it.
--
-- Loops: `judge_loop` is the one loop of the program that may not end; its fuel, a number of
-- rounds, is a parameter of everything above it, and `none` says that it has run out, as `running`
-- does for the same loop in Locked.
-- `print_digits` takes one round for a digit, and a number has no more digits than the number and
-- one, which is its fuel. All others are recursion on a list.
--
-- What is taken for granted, and where. Nothing in the program confines a submitted program: in
-- `Host` it may read, change and remove any files. The theorems on answers say that the programs of
-- a host do not, by `IsConfined`. g++ reads the source alone, not what the source includes. File
-- names come of UniqFileName, whose counter two calls may read at once (Comm/Files/Race): calls at
-- once have different names by a hypothesis. In Threads each call on the shared map of sessions is
-- one step, which is the best that can be hoped for: the map has no lock, so that calls at once are
-- a data race. What is stated there is an error that comes even so, and what handlers do that
-- nothing interrupts.
--
-- What is left out. The handlers run one at a time; only the threads in Judge, between what the
-- locks of the machines guard, the calls of handlers on the sessions, the calls of Start
-- on a compile server, step by step, and the accesses to the counter of file names are interleaved.
-- Loads are computed in exact thousandths in place of doubles, and the floats of /status are exact
-- fractions, which have the sign of the floats. Columns are never NULL, counters of
-- attempts stay in the range of `int`, and the machines' locks are there. Not modelled: what is
-- appended to the lines of the log, which is only printed, the source of the random numbers, httplib,
-- the routing and sockets of both mains. Everywhere but in Connection a database that is not reached
-- is taken to end in the exception that the constructor means to throw.
pub mod Base
pub mod Comm
pub mod Json
pub mod CompileServer
pub mod Balance
pub mod Model
pub mod View
pub mod Control
pub mod Server
