-- ===== src/Lib.antt =====
-- ngxborg: a server for Borg backups over SSH, its tenants, repositories and keys, with a web
-- interface, a command line and tools for agents.
--
-- The program is a set of packages below internal/ that act on one machine. The interfaces
-- (internal/webui, internal/mcpserver) check who asks and call the packages that do the work:
-- internal/posix (accounts), internal/sshaccess (keys and ports), internal/borgrepo
-- (repositories), internal/provision (setup and diagnosis). These read and write files, and run
-- commands through internal/system. The same packages are called from every interface, and they
-- share no state but the machine; the web server has its sessions besides.
--
-- Files, and what they model:
--   Base, Text         helpers on lists, Booleans and texts (lists of character codes); what the
--                      code uses of the packages strings, path/filepath, strconv and bufio
--   Machine            the machine's state `World` (file tree, accounts, commands run, clock,
--                      random bytes) and the package os on it; `M` is a state monad with errors
--   System             internal/system/exec.go, service.go, apt.go, secret.go; Exec/Traces is which
--                      commands a step can run
--   Posix              internal/posix/posix.go, group.go, shadow.go
--   Sshaccess          internal/sshaccess/keys.go (Files, PublicKey, KeyLine, Keys), sshd.go (Sshd)
--   Borgrepo           internal/borgrepo/borgrepo.go: Name (ValidateName), Place (repoDir), Repo,
--                      Trash (Delete, Purge), Stamp (the time in a trash name)
--   Facts              internal/facts/facts.go
--   Provision          internal/provision/context.go, setup.go, service.go, doctor.go
--   Authpam            internal/authpam/authpam.go
--   Webui              internal/webui/session.go, auth.go, handlers.go, server.go, cert.go (Cert);
--                      Listen is how server.go chooses the certificate;
--                      Server/Runs is what may happen to the running server, as a relation of steps
--   Logx               internal/logx/logx.go: `Log` is the package's variables with all that was
--                      written so far; Calls is a call as a value
--   Cli                internal/cli/cli.go (Run), identity.go, password.go and prompt.go (Input),
--                      repo.go, userkey.go, user.go, setup.go and web.go (SetupCommands); Flags is
--                      what these use of the package flag; the constants of internal/build/build.go
--   Mcpserver          internal/mcpserver/server.go
--   Tests              runs at concrete inputs
--
-- A Go function is the definition with its name in snake case; a loop of it with logic of its own
-- is a definition beside it, by recursion on the list that it goes over. An error is a value of
-- `Error`; the state that a function leaves when it fails is the state at that point. A request
-- handler takes the decoded request and gives the response with the new state.
--
-- A command of the command line gives the calls of logx that it ends with, or its error; `Run`
-- then makes them, with the summary of warnings, and gives the exit status.
--
-- Parameters: `Host` is what external commands do to the machine and answer, which are on PATH,
-- and which file is the running program; `Pam` is the PAM library; `Crypto` is the libraries for
-- keys and certificates; `Net` is the listener until it ends; `describe` is the text of an error;
-- `Stdin` is the standard input. Every command that runs is recorded in `World.history`.
--
-- Bounds and fuel: digits are printed with one unit of fuel more than the number, which is enough,
-- since each digit divides by ten. All other recursion is structural. Integers that Go parses are
-- refused outside 64 bits; user and group ids wrap at 32 bits; the limits of bufio.Scanner are
-- those of the code.
--
-- Not modelled: what the lower packages print through logx, the prompts, the print of a generated
-- password and the messages of the package flag, the mutex of logx (each call is one step) and
-- its isTTY and SetOutput, HTTP, JSON and the agents' protocol, timeouts, symbolic links, and
-- permission bits as a reason to refuse. The umask is 022, dates are in UTC, and texts are valid
-- UTF-8. A request is handled in one step.
pub mod Base
pub mod Text
pub mod Machine
pub mod System
pub mod Posix
pub mod Sshaccess
pub mod Borgrepo
pub mod Logx
pub mod Facts
pub mod Provision
pub mod Authpam
pub mod Webui
pub mod Cli
pub mod Mcpserver
pub mod Tests
