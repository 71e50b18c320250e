-- ===== src/Lib.antt =====
-- ezhpcy opens an SSH tunnel from a user's machine to a worker: a job that a cluster's scheduler runs on a
-- compute node, with an sshd in it. The tunnel connects to the login node, submits the job, waits for the
-- worker to say on which port it listens, forwards a local port there, and then renews a lease as long as
-- it runs; the worker's watchdog cancels the job once the leases stop.
--
-- The parts, and the files that model them (source paths are below `src/ezhpcy/`):
--   * Scheduler.Defs, Scheduler.Lsf and Scheduler.Pbs: `scheduler/base.py`, `scheduler/lsf.py` and
--     `scheduler/pbs.py`. Operations that run commands are state passing over the login node, a parameter:
--     `submit`, `inspect`, `cancel`. The commands they build are read back by readers of `bsub`'s and
--     `qsub`'s options (Lsf.Request, Pbs.Request) that know nothing of how the commands are built.
--   * Scheduler.Interactive: `submit_interactive` of `scheduler/base.py` and the draining of its output.
--   * Shell: `shlex.join`, which the commands of `ssh.py` rest on, with a reader of shell words (Shell.Words).
--   * Config and TimeLimit: `config.py` (`validate_alias`, `inheritance_chain`, `resolve_profile`,
--     `reject_stored_password`) and the time limit of `types.py`.
--   * Cli.Password: `cli/_password.py`, the sources of a login's password in their order; files, descriptors and
--     the keyring are parameters.
--   * Worker: `worker/control.py` (Worker.Control, over any SFTP server), `worker/job.py` (Worker.Job, also
--     the shell programs in it: the lease reader, the watchdog, the published status), its command with the paths in it and its
--     loop over the ports (Worker.Command) and `worker/sshd.py` (Worker.Sshd).
--   * Tunnel.Session: `tunnel/session.py` and `tunnel/status.py`, a state that changes by the steps that the
--     main task and the background tasks make between two awaits, in any order.
--   * Tunnel.Waiting: the loops of `tunnel/session.py` that wait for the job, for the worker's port and for its
--     endpoint, over the answers they get in turn, and the banner that it reads.
--   * Tunnel.Startup: `_start` of `tunnel/session.py`, the calls that it awaits in turn with the cleanup steps that
--     it registers, and `_finish`, by which a submission that the stop overtakes still ends, unless its time limit
--     passes.
--   * Tunnel.Heartbeats, Tunnel.Output and Tunnel.Unwinding: of `tunnel/session.py`, the loop that renews the lease, the lines
--     of an interactive job's output, and how the cleanup steps of the startup are run within their time limits.
--   * Tunnel.Lock: `tunnel/lock.py`, over a table of the aliases' lock files with who holds each.
--   * Tunnel.SshConfig: `tunnel/ssh_config.py`: the Host block of a tunnel, with a reader that splits lines into
--     arguments as OpenSSH does (SshConfig.Block), the directory of blocks (SshConfig.Directory), the pruning of stale
--     ones, and the check of what `ssh -G` prints.
--   * Text, Path and Json are the parts of Python's `str`, `pathlib` and of JSON values that the source uses;
--     Prelude holds what all modules share.
--
-- A text is the list of its code points. Durations are microseconds, as `timedelta` keeps them, and the
-- clock of a session and of the watchdog is a natural number. asyncssh is a `Connection` or an `Sftp`: a state
-- and calls on it, of which nothing is assumed but what a theorem names (`FileSystem`). What Rich makes of a text, by
-- `Text.append` and `Text.from_ansi`, is a parameter. `json.loads` and
-- `str` of a JSON value are parameters too, and `secrets.randbelow` is a list of what it returns in turn.
--
-- `inheritance_chain` runs on fuel, one round more than there are profiles; it is shown to be enough. The
-- numbers are printed by dividing by ten, with one round more than the number, which is enough as well. The
-- worker script's loop takes a port off a text in each round, and runs on as many rounds as the text is long. The loop of
-- `connect_interactive` has five rounds: three for passwords, one for a host key and one more. That is shown to be enough.
--
-- Not modelled: pydantic's loading and validation of fields, the display of messages and of the tunnel's status, the opening
-- and naming of the log file, the command line, and operating system calls. Cancellation in the middle of a call
-- appears as the way the call ends (Tunnel.Startup), and the order in which asyncio runs tasks that are ready as the
-- order of a session's events. The operating system's locks are a table whose entries are freed when their holder ends.
pub mod Cli
pub mod Config
pub mod Forwarding
pub mod Json
pub mod Logging
pub mod Messages
pub mod Path
pub mod Prelude
pub mod Provision
pub mod Remote
pub mod Scheduler
pub mod Shell
pub mod Tests
pub mod Text
pub mod TimeLimit
pub mod Tunnel
pub mod Worker
