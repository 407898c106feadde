-- ===== src/Lib.antt =====
-- A model of smbctl, the program that runs Samba for the Android module: it keeps the settings, decides
-- which addresses count as a trusted LAN, starts and stops the server programs, and watches the
-- network, the storage and the server.
--
-- The parts, each with the file of native/smbctl/src that it models:
--   Text      what the program uses of Rust's `str` and `String`; a text is the list of its scalar
--             values, and Text/Utf8 has its bytes
--   Config    config.rs: Config/Map is the `BTreeMap`, as a list sorted by its keys; Config/Validate is
--             `validate`; Config is `parse`, `update`, `load` and the text that `save` writes;
--             Config/Atomic is `atomic`
--   Password  password.rs: `nt_hash`; MD4 is a parameter
--   Os        os.rs: Os/Network is `trusted`, `network` and `key`, from the list of `getifaddrs` on;
--             Os/Interfaces, Os/Processes, Os/Sockets and Os/Terminate are the functions of these
--             names, Os/Process is `start`, Os/Lock is `Lock`, and Os/Descriptors is `fd`, `poll`,
--             `inotify`, `netlink` and `drain`
--   Storage   storage.rs: `user`, `ready`, `directory_events` and the scope of `Events`;
--             Storage/WaitEquals is `wait_equals`
--             and Storage/Events the thread of `Events`, both beside the area of Storage/Property
--   Logs      logs.rs: `boot_id`, `changed`, the label of an archive and the choice of `prune`;
--             Logs/Prepare is `prepare` on the directories of Logs/Disk, and Logs/Bytes is `bytes`
--   App       main.rs: App/World has the state and the system calls; App/Server has `load`, `pids`,
--             `password`, `effective`, `ready_with` and `halt`; App/Template, App/Templates and App/Conf
--             are `conf`, with user.conf and guest.conf; App/Card is `status` and `card`; App/Control is
--             `start`, `stop` and `prepare_logs`; App/Commands and App/Queries are the commands of
--             `dispatch` that change the state and those that only print, and App/Queries has
--             `selfcheck`; App/Log, App/Version and App/Legacy are `log`, `version` and `retire_legacy`;
--             App/Dispatch is `dispatch` and App/Main is `App::new` and `main`. App/History is the state
--             over any sequence of these actions
--   Watch     watch.rs: Watch is `reconcile`; Watch/Loop is the state of the loop of `run`, Watch/Run
--             one turn of it, and Watch/Setup the whole of `run`; Watch/Stop is `stop`
--
-- An action of `App` is a function from the state (the files, the server processes, the launches of
-- smbd so far with what each read, and the records: the log directories, the cached version and the lines
-- logged) to a result and a new state. `os::processes` may skip a server that is there, and
-- `os::terminate` ends the processes that it was given. The answers of the system are the environment's choice, at
-- each call anew, and so is which processes have exited by themselves. There `config::atomic` is one
-- step: it replaces a file as a whole, or fails, and a failure of its last sync may leave the file
-- replaced. The lock control.lock, whose exclusion is in Os/Lock/Exclusive, makes a command or a
-- `reconcile` one uninterrupted action; `boot` gives it back in between. An operand
-- of `&&` whose value is not needed may be asked of the system all the same, which only moves the clock
-- of the answers.
--
-- Where others act between two calls, they are part of the model: `processes` and what chooses from its
-- result read a process table by the time of each read; the two waits for a property are steps in any
-- order with the writers of properties; `atomic` and `prepare` keep each state that the disk passes
-- through, since a crash may leave any of them. What libc promises of the serial numbers of properties
-- (Storage/Property), and the kernel of `flock` (Os/Lock/Exclusive) and of handles and start times of
-- processes (Os/Owner), is a hypothesis.
--
-- Bounds: numbers are unbounded and wrap-around is written out; a failure count is a `u32`. Loops that
-- wait for a deadline run over the list, or the count, of their rounds before it, so no fuel runs out.
-- Times of the watcher are in milliseconds.
--
-- Not modelled: the text of the first line of a new log in logs.rs; the lines that watch.rs logs;
-- `property` in storage.rs, a wrapper of one call; the JSON of `status` beyond what `card` reads and what
-- asks the system; what commands other than the queries print, and `notify` in main.rs, which tells the
-- user and changes no state; the modes of files; the tests of each file; the vendored crates, the shell
-- scripts and the web interface.
pub mod Common
pub mod Text
pub mod Config
pub mod Password
pub mod Os
pub mod Storage
pub mod Logs
pub mod App
pub mod Watch
pub mod Tests
