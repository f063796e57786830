-- ===== src/Lib.antt =====
-- Vaulkeeper: the parts of the C++ sources that decide what happens to a user's files and what the
-- processes say to each other. Paths are from the repository's root.
--
-- Util models src/core/util: the error codes of error.hpp, `Result` of result.hpp, with which all other
-- parts fail, the time points of time.cpp, and in Util.Interner the class `StringInterner` of
-- string_intern.cpp, whose hash map is an association list and whose lock has no part in the model.
-- Util.Pool is `ThreadPool` of thread_pool.cpp as a state machine, between whose locks the calls of
-- `submit` and the steps of the workers come in any order.
--
-- Ipc models src/core/ipc: Ipc.Checksum is `computeHmac` of message.cpp, Ipc.Message its `serialize`
-- and `deserialize`, Ipc.Pipe is `PipeClient::request`, one connection of `PipeServer::runLoop` and
-- the handler of src/agent/elevated/service.cpp. A message goes from the client's `serialize` through
-- the server's `deserialize` to the handler and back; the Windows calls on the pipe are the record
-- `PipeCalls`. Numbers of w bits wrap at 2 ^ w. The bytes of padding in the header are an argument.
--
-- Fs is `std::filesystem` and `std::fstream` as a record of functions on a disk, whatever that is;
-- code that is not in the repository appears as such records only. An overload that throws is taken
-- as one that does not.
--
-- Fs.Erase models `secureDeleteFile` of src/core/fs/secure_delete.cpp on the bytes of a file. A pass runs
-- on fuel, the size of the file and one, which is enough for a buffer that is not empty. A file is
-- assumed to keep its size while it is overwritten.
--
-- Mft models src/platform/windows/mft/ntfs_mft.cpp: Mft.Fixup is `applyUpdateSequence`, Mft.Boot what
-- `readBootSector` makes of a sector, Mft.Record the walk over the attributes of a record, Mft.Stream
-- `NtfsMftReader::stream`, which hands the files to the sink and their names to the interner. A copy
-- from outside of a record is a value of its own. The walk runs on fuel, the size of the record and
-- one, which is enough where no offset wraps. The calls of Windows are the record `VolumeCalls` and
-- the function `utf8`; the sink is always there.
--
-- Quarantine models src/core/quarantine/quarantine.cpp: Quarantine.Json is `escapeJson` and
-- `JsonScanner`, Quarantine.Index the loops of `persistIndex` and `loadIndex` on text, and
-- Quarantine.Store the class with its operations on the disk. A time point counts ticks of 100 ns. The
-- two loops of `loadIndex` run on fuel, the length of the text and one: each round reads a character.
-- The id that `makeItemId` draws and the clock are arguments of `capture`.
--
-- Duplicates models src/core/duplicates/duplicate_finder.cpp, with the sizes and the hashes of files as
-- arguments. Its hash maps are lists of groups in the order in which the keys came up.
--
-- Rules models src/core/rules: rule.hpp in Rules, `parseRulesFromYaml` in Rules.Parser and
-- `writeRulesToYaml` in Rules.Writer over the calls of yaml-cpp on its nodes, the record
-- `YamlCalls`, whose laws are in Rules.Parser.Laws, and `RuleEngine` in Rules.Engine. What a
-- directory iterator finds below a path, the errors of its entries, the sizes, and what each
-- capture draws are arguments; execution calls `capture` of Quarantine.Store. The journal is the
-- list of the entries that it is given.
--
-- Scheduler models src/core/scheduler/cron.cpp: Scheduler.Cron is `parseField`, `fillField`,
-- `parseCron` and `nextFire`. A bit set is the list of its bits; the C library's calendar is the record
-- `Calendar`. The loop over the values of a part has as many rounds as the upper bound and one more,
-- which is enough for steps of 1 and above; a step that would overflow `int` is not wrapped.
-- Scheduler.Loop is the class of scheduler.cpp as a state machine: the calls of `schedule`, `cancel`
-- and `stop` come in any order between the steps of the thread's `loop`, which are cut where it gives
-- up the lock, and the clock is part of the events.
--
-- Scan models src/core/scan: Scan.Tree is `TreeBuilder::add` of tree_model.cpp with the interner that
-- it shares, Scan.Totals its `propagateTotals` and `build`, Scan.Engine the walk of scan_engine.cpp.
-- What the directory iterators give, and what each reading of the flag that cancels gives, is an
-- argument of the walk; so is how a path falls into segments. Fs.Entry is src/core/fs/file_entry.hpp.
--
-- Updater models the versions of src/updater/update_check.cpp: `splitVersion` and
-- `newerThanCurrent`, where none stands for a read behind the end of a vector.
--
-- Not modelled: the scheduling of threads, the random numbers, the user interface, the command line, the shell
-- extension and the installer (input and output), the other adapters of src/platform/windows (calls of
-- Windows), the journal (SQLite) and the hashes (libraries outside of the repository).
pub mod Prelude
pub mod Util
pub mod Updater
pub mod Duplicates
pub mod Fs
pub mod Ipc
pub mod Mft
pub mod Quarantine
pub mod Rules
pub mod Scan
pub mod Scheduler
