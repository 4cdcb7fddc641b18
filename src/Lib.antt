-- ===== src/Lib.antt =====
-- The olympiad judging system: the contester takes unchecked solutions from a database, and has
-- each built and run on every test of its problem by the checker, which writes a verdict as JSON.
--
-- checker_rc is the checker. `main` (checker_rc/main.cpp) calls `check` (checker_rc/checker.cpp),
-- which reads the configuration (checker_rc/reader.cpp), builds the source
-- (checker_rc/builder.cpp), runs the program on each test under its limits
-- (checker_rc/executor.cpp), and lets the external checker of the problem decide on the output
-- (checker_rc/matcher.cpp). `serizlize` prints the verdict.
--
-- contester/src is the contester. `main` (contester/src/contester.cpp) reads its settings and
-- loops on the unchecked solutions; `solution` and the other structures (contester/src/data.cpp)
-- are read from the tables, and `checker::run` writes the source and the configuration, runs
-- checker_rc as a command and saves the result. An exception about one solution is reported, and
-- the next one is taken.
--
-- Files:
--   Base, Text, Words   lists, Booleans and integers, `std::string` as its bytes, and the 32-bit
--                       numbers of a Win32 build, with the wrap-around written out
--   Effect              actions: the state of the system is passed on, and an action returns,
--                       throws or ends the process; Effect/Laws has the rules for postconditions
--   System, Json        the operating system and rapidjson, which are not code of the repository,
--                       as records of operations; what a theorem needs of them is one of its
--                       conditions; Json/Document has documents as trees, the calls that write
--                       them, and what a parsed value must answer to stand for one
--   Assert              checker_rc/checker_assert.cpp: `_checker_assert`
--   Paths               checker_rc/reader.cpp: the functions on paths
--   Config, TestReader  checker_rc/reader.cpp: `config_reader::read_main_config`,
--                       `test_reader::read`; Config/File and Reading say what is read from a file with
--                       all its members, Config/Space has `delete_first_space`
--   Builder             checker_rc/builder.cpp: `parse_compiler_config`, `build_from_source`
--   Executor            checker_rc/executor.cpp: `executor`, whose object is a record that the
--                       methods take and give back; the field `correct` is called `verdict`
--   Tool                checker_rc/executor.cpp: the static `executor::execute`
--   Matcher             checker_rc/matcher.cpp: the comparisons
--   Judge               checker_rc/matcher.cpp: `answers_match` of the external checker, and
--                       checker_rc/checker.cpp: `check`
--   Main                checker_rc/checker.cpp: `serizlize`, and checker_rc/main.cpp
--   Contester           contester/src: Numbers and Database are `db`, Data the rows of the tables,
--                       Solution and Checker the structures of these names, Main contester.cpp; the
--                       MySQL library is a record of operations; the modules named Stored say when
--                       the tables hold an object, Solution/Reading joins the writer of the
--                       configuration with its reader, Checker/Verdict and Main/Verdict join the
--                       two programs, Main/Reading says what the settings are, and
--                       Main/Steps has the inner loop as steps
--   Contester/Queue     the contester's work as the tables show it: the solutions, of which some
--                       wait, what it is to finish one, and a turn (Queue/Turn), apart from the
--                       code; Contester/Tables is what is relied on of the server and its tables, a
--                       view of the solutions in them (TableView); Main/Turns, Finish and Drain compare the
--                       loop with this, for Main/Waiting, Start and Judged, with the states of a
--                       run in Main/Since; Main/Mixed and Stuck, with Queue/Mixed, are about
--                       solutions that cannot be run
--   Progress            in Paths, TestReader, Builder, Judge and Main: how the checker comes to an
--                       end, on a system that behaves as Judge/Progress says
--   Complete            in the same, and in Contester: what must not be missing for no assertion to
--                       end the checker, said of every state that the system can be in, and what
--                       the programs do then; Main/Sound is about this and broken solutions
--   Simulation, Tests   a machine and a JSON library that can be run, and instances of the theorems
--
-- Loops that wait for a process or read a pipe take fuel, and end as `out_of_fuel`, which has no
-- counterpart in the program, when it is used up. For the two loops that watch a process,
-- Executor/Clock says which fuel is enough: a round for each nanosecond until the time limit and
-- 2049 milliseconds are over, since the clock advances in each round. The loop on a pipe needs a
-- round for each call of `fgets`. The other loops go over lists or positions.
--
-- Reads of variables without a value and indices out of range end as `undefined`; so does the copy
-- of the buffer of `GetFullPathName` where no name was written to it, which comes before the
-- assertion on the value returned. The signed 32-bit sum in `clock_t` of contester.cpp is taken to
-- wrap around. Memory
-- exhaustion is not modelled, and neither is the translation of line ends in text files. Values of
-- `size_t` that no arithmetic is done on are not cut again. `solution::get_cfg_json`, an
-- `assert(false)` that nothing calls, is not modelled; the copy of the MySQL client
-- (contester/contrib) is another project's. The endless loop of the contester is on fuel, and what
-- is said of it is that after so many turns it goes on from some state as from its start. Other
-- clients of the tables, such as the site that inserts the solutions, are not modelled: in a view
-- of the tables (TableView) only the contester's own statements change them. The two programs
-- share the state of the system; that the contester's command runs the `main` of checker_rc is a
-- condition of the theorems on both (Launches).
pub mod Base
pub mod Text
pub mod Matcher
pub mod Effect
pub mod System
pub mod Assert
pub mod Paths
pub mod Words
pub mod Executor
pub mod Tool
pub mod Builder
pub mod Json
pub mod Config
pub mod TestReader
pub mod Judge
pub mod Main
pub mod Contester
pub mod Simulation
pub mod Tests
