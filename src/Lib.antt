-- ===== src/Lib.antt =====
-- A verification development for mpsystemd, the systemd client of this repository for CPython and
-- MicroPython: service notification, watchdog, socket activation and the native journal protocol.
--
-- The package is a set of serialisers and readers of environment variables over a thin layer of
-- libc calls. The model follows that: pure code is functions into Result, and code that calls
-- libc or touches the environment is in the state monad of Exec over the World, which keeps the
-- environment and the trace of calls with their answers. libc with the kernel is a parameter, a
-- function that answers each call from the trace before it; under CPython, in Cpython, the
-- functions of its own modules take that place, and the Process that of the World.
--
--   Prelude, Prelude/       types and lemmas that all parts share: Boolean tests, lists, integers
--   Errors                  mpsystemd/errors.py: the exceptions, and results that may be one
--   Exec                    sequencing, try/finally and try/except of code with state
--   World, World/           the environment, the calls of libc, and _check of
--                           mpsystemd/_impl_mp.py
--   Utf8, Utf8/             str.encode and bytes.decode for UTF-8, as CPython does them
--   Text, Text/             the methods of str that the package calls, int(text) and str(int)
--   Address, Address/       mpsystemd/_address.py: encode_unix_address, is_abstract, describe
--   Payload, Payload/       mpsystemd/daemon.py: build_payload, check_fdname and their helpers
--   Notifier, Notifier/     mpsystemd/daemon.py: the class Notifier, where Notifier.close models
--                           its close and so on, with_notifier a `with` block; notify_available;
--                           the functions of the module in Notifier/Oneshot, and what the service
--                           manager gets of a trace in Notifier/Log
--   Watchdog, Watchdog/     mpsystemd/daemon.py: watchdog_enabled, and mpsystemd/watchdog.py, whose
--                           coroutine is in Watchdog/Task
--   Signals, Signals/       mpsystemd/signals.py, over an interface to a platform's SignalSource
--   Activation, Activation/ mpsystemd/activation.py
--   Install, Install/       mpsystemd/testing.py: install_listen_fds
--   Datagram, Datagram/     mpsystemd/testing.py: the class Datagram
--   Listener, Listener/     mpsystemd/testing.py: the class FakeNotifyListener, and close_fds
--   Journal, Journal/       mpsystemd/journal.py: the serialiser, with an independent reader of
--                           the protocol in Journal/Protocol, the class JournalWriter in
--                           Journal/Writer, the writer that the module shares and the tests for a
--                           path (with mpsystemd/util.py) in Journal/Shared, what journald
--                           gets of a trace in Journal/Writer/Received, and the class
--                           JournalHandler with journal_handler in Journal/Handler
--   Native, Native/         mpsystemd/_impl_mp.py, and poll_fd of _platform.py: the wrappers of
--                           libc, the packing of C values, the control buffer of SCM_RIGHTS, the
--                           datagram socket, the sealed memfd, the signalfd, and the search for
--                           libc in Native/Linking
--   Cpython, Cpython/       mpsystemd/_impl_cpy.py: the same wrappers, socket and memfd over the
--                           modules of CPython, and the signal source over asyncio
--   Platform, Platform/     mpsystemd/_platform.py: what the package takes from a back end, and
--                           the two back ends as records of it
--   Aio                     mpsystemd/_aio.py
--   Descriptors,            an accounting of the descriptors that calls of libc give and close
--   Descriptors/            take back, with rules for sequencing and clean-up; the files of this
--                           name under the parts apply it to them
--   Tests, Tests/           concrete runs
--
-- The Notifier calls Payload, Address and Native; Activation, Watchdog and Install read and write
-- the World's environment; the Datagram is what the Listener makes of what Payload wrote; Signals
-- runs over either source. A coroutine is a function that runs to its end: what happens while it
-- is suspended is a parameter, or, in Cpython/Signals/Schedule, an explicit sequence of steps of
-- the loop.
--
-- Texts are lists of code points and bytes lists of numbers. Upper casing and reading digits
-- outside ASCII depend on the runtime, so they are a parameter (Runtime). The size of a word and
-- the byte order are a parameter too (Abi); the results that need it ask for 4 or 8 bytes. An
-- exception carries its class and a reason where the code has a message. Loops are recursions on
-- the list or the count they run over. A few recursions take fuel: `digits` takes a number's
-- successor, which exceeds its count of digits, `read_entry` the number of fields, `write_all`,
-- the loop that fills a memfd, a number of rounds, of which the count of bytes is enough where
-- the kernel makes progress, and `drain`, the loop of receive_all, one round more than there are
-- datagrams. The loops that only a signal or an exception ends take the number of rounds that a
-- run is followed for: those of SignalWatcher.wait give up after them, and watchdog_loop is
-- cancelled in the sleep after them.
--
-- Not modelled: mpsystemd/__init__.py, which only passes names on, the wording of messages, and
-- the tests. The pointers inside msghdr and iovec are modelled for their layout alone: a call of
-- sendmsg or recvmsg carries the buffers themselves. The struct module of MicroPython is taken to
-- keep the low bytes of a number that does not fit; that of CPython raises struct.error. That two handlers may hold one writer object
-- is in Journal/Handler/Making a mark on the handler, and no more.
pub mod Prelude
pub mod Errors
pub mod Exec
pub mod World
pub mod Native
pub mod Watchdog
pub mod Notifier
pub mod Activation
pub mod Install
pub mod Utf8
pub mod Cpython
pub mod Signals
pub mod Text
pub mod Address
pub mod Journal
pub mod Aio
pub mod Platform
pub mod Datagram
pub mod Descriptors
pub mod Listener
pub mod Payload
pub mod Tests
