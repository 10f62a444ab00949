-- ===== src/Lib.antt =====
-- The operations procedure support: its script interpreter, which is the files of
-- ops-enm-parser/src/main/cpp/parse that hold values and variables, that load a command file and
-- move over its commands, and that manage the files which include one another; and of its parser
-- library the intervals and the orders of the scheduler.
--
-- Parts, and the files that model them:
--   Value          OZT_Value.C: values are texts; conversions, arithmetic, comparisons, justification
--   VarStore       OZT_VarStore.C: the variables, under names in upper case
--   ErrHandling    OZT_ErrHandling.C and .H: result codes and the flags of the error handler
--   Misc           OZT_Misc.C: isEmptyLine and trim
--   SourceInfo     OZT_SourceInfo.C: one command file. Lines moves over commands, Comments strips
--                  comments, Blocks searches for the other lines of a block, Branches holds @IF and
--                  @SWITCH, Loops @FOR, Labels @GOTO, @GOSUB and @RETURN, Load the reading of a file
--   Flow           OZT_Flow.C: what the interpreter asks for after a command
--   SourceMgr      OZT_SourceMgr.C: the stack of files, the progress counters, and Advance, the loop
--                  over flows, with Includes on @INCLUDE
--   CmdRspBuf      OZT_CmdRspBuf.C: the lines that a network element has answered. Split cuts a text
--                  into lines, Search looks for a key, Received and Marks hold what stays true
--   RspCatcher     OZT_RspCatcher.C: the waiting for texts in those lines and for their end,
--                  Waiting how it ends, and Answers by which event
--   RspReceiver    OZT_RspReceiver.C: the texts of immediate, delayed and spontaneous responses, Kept
--                  where they go and Texts in which order
--   CmdSender      OZT_CmdSender.C: the sending of commands. Events holds the answers, Calls what the
--                  library and the user call, Commands sendCmd and the check of a reply, Connect
--                  the connection to a network element, Keys the strings of `@/w1,...,wn/`;
--                  Connect/Answers, Awake, Retries, Shown, Attempts and Replies hold what is true
--                  of them
--   OzTime         OZT_Time.C: points in time, and Intervals the intervals added to them
--   Clock          OZT_Clock.C: the delays of a script, and Delays how long they take
--   EventHandler   OZT_EventHandler.C: the clients of the event loop, and Dispatch its rounds
--   FileMgr        OZT_FileMgr.C: the file that a script reads (Pieces and Reading), and Disk the
--                  operations on files and directories
--   Interval       ops-parser-lib/src/main/cpp/common/CHA_Interval.C: intervals of numbers, and what
--                  Difference and Union say of removeInterval and concatenate
--   Orders         ops-parser-lib/src/main/cpp/sched/AM_auxFunctions.C: the orders of the scheduler as
--                  lines of text. Write and Read are the two directions, Escapes the escaped `#`,
--                  Pieces and Members what lies between them, and Dates the dates that users write
--   Tools          the classes of Tools.h++ that these files use, as a parameter
--   Common         tests, lists, integers and texts over the native numbers
--   Tests          the theorems at concrete scripts
--
-- Each operation is a function of the state before it to the state behind it and its result. The
-- source manager calls the operations of its current file and stores the file that they give back;
-- `SourceMgr` hands the store of variables to the operations of loops. Vectors are lists. A stack is
-- kept with its last element first. Line numbers count from 0, and -1 is "no line".
--
-- Integers: an `int` has 32 bits and a `long` 64, and results are wrapped around (Value/Words).
-- Division of the least `long` by -1, which C++ leaves undefined, wraps around too.
--
-- Fuel: digits are written with 20 rounds, which are enough for 64 bits. The loops of skipElse and
-- findElseStatement have one round for each line of the file and one more. The loop of
-- SourceMgr::advance has two rounds for each file of the stack and three more.
--
-- Parameters: regular expressions, upper case, tokens and the order of texts are fields of
-- `Tools`; insertKeyAndValue of the dictionaries leaves the value of a key that is there, as the
-- comment in OZT_VarStore.C says; paths and file contents are fields of `System`. `ReadsNumerals`
-- is the one hypothesis on the expressions: the one for numbers is found in the numerals and
-- nowhere else. Tools/Engine is a concrete matcher, and Value/Convert/Numerals shows the
-- hypothesis for it. `Calendar` holds mktime and its like, `Outside` the callbacks, the clock and
-- the processes of the event loop, or what happens while RspCatcher sleeps (a parameter of its own
-- in Clock), and `FileSystem` the system calls of the file manager; what a theorem needs of them
-- stands in its hypotheses. `CmdSender.Library` and `CmdSender.Connect.Network` hold the command
-- sender and the connection of the parser library, whose calls may change the whole station, since
-- they may call the sender back; the network session's texts are arguments of RspReceiver's
-- operations. A station is a desk of RspReceiver, the buffer and the event handler, with the
-- sender, the error handler and the world as its rest; the sender calls the operations of the
-- receiver and the buffer on it.
--
-- Fuel of the event loop: one more than the length that its lists may reach. The loop that cuts a
-- response into lines has one round for each byte. ltoa has one round for each of the 14 digits that
-- its array holds, and no text for a longer number. RspCatcher.wait_loop has as many rounds as given; with
-- a number of seconds, two more than that are enough. OzTime.advance has as many rounds as given.
-- CmdSender.Keys.set_scan_str has a round for each word, and Clock.delay_loop one for each second and
-- one more.
--
-- Not modelled: the lexer and the grammar, the network sessions behind the responses, the file
-- names of @Z in OZT_CmdSender.C, processes, interfaces, logs and most of the parser library; of
-- the intervals the constructor from a text, and of AM_auxFunctions.C the checks of file
-- permissions.
pub mod Common
pub mod Tools
pub mod ErrHandling
pub mod Value
pub mod Misc
pub mod VarStore
pub mod SourceInfo
pub mod Flow
pub mod SourceMgr
pub mod CmdRspBuf
pub mod OzTime
pub mod EventHandler
pub mod Clock
pub mod FileMgr
pub mod Interval
pub mod Orders
pub mod RspCatcher
pub mod RspReceiver
pub mod CmdSender
pub mod Tests
