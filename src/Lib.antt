-- ===== src/Lib.antt =====
-- Blocks runs Lua functions as processes that send one another messages, and serves HTTP with Lua
-- scripts on top of its message bus. The library has a part for each of four folders of the source, and
-- one of helpers.
--
-- * `src/blocks` (module Blocks): `process.c` has a queue of tasks and worker threads that take tasks
--   from it; each task has a Lua state and a mailbox. `mailbox.c` has the mailboxes: a sender posts a
--   message and notifies the task, a worker takes the message, runs the task's function and replies.
--   `lua_message.c` turns the values on a Lua stack into the bytes of a message and back.
-- * `src/http` (module Http): `main.c` keeps a pool of parsers, one for each connection;
--   `file_util.c` makes a file name of a request's path; `request_processor.c` chooses what serves a
--   request.
-- * `src/comm` (module Comm): `channel.c` has the message bus: sockets, and the loop that accepts
--   connections and gives what they send to the three callbacks of a handler.
-- * `src/util` (module Util): the evaluation of the function on a Lua stack, which `src/blocks` and
--   `src/http` use.
-- * The helpers (module Prelude): tests with values in Bool, lists with numbers of the native ℕ, and
--   the `int` that can be negative.
--
-- Blocks.Store has the shared objects of `mailbox.c` and `process.c`: messages, mailboxes, tasks and
-- contents at addresses, and the task queue. A function that works on them is a command on that store,
-- and `none` is a fault: an access to what is not allocated, or a second `free`. What one mutex guards
-- is one command. Blocks.Mailbox and Blocks.Process have the functions under their own names;
-- `post` is the part of `mailbox_send` that the mailbox's mutex guards. Blocks.Process.Sched has the
-- workers and senders as interleaved steps of these commands; the evaluation of Lua code is a step that
-- may do anything but change the state of a task or the task queue. The loop of one `worker` is a list of
-- rounds, with what the task's function leaves in each. Blocks.Bindings has what the methods that Lua code
-- calls in `blocks.c` make of these functions, and follows messages from `send` over the worker to `get`.
-- Blocks.Threads has the list of the pool's threads.
--
-- Blocks.LuaState has the Lua states of processes, as far as the code uses them: the stack, the registry with
-- the userdata of `mailbox.h` that it refers to, the metatables and the table `blocks`. Its commands work on
-- these and on the store of Blocks.Store, in which a task has only the mailbox that `mailbox_get` finds;
-- `process_spawn` stands in both. FirstRun has the first run of a task, which loads the function from the
-- string that `copy_function` has made, and evaluates it.
--
-- Blocks.LuaMessage has the codec, on lists of bytes. What a Lua stack holds is the data type LuaValue;
-- what fresh memory holds is a parameter. Blocks.Copy has the copy of a parent's stack for a process that
-- it spawns, on values whose tables are trees; it tells an error in the parent's state, which `spawn` raises,
-- from one in the new state, which ends the program and is `none` in Blocks.LuaState.
--
-- Http.FullPath has `get_full_path` on the bytes of its buffer, Http.SendFile the loop that copies a file
-- to the client, and Http.ParserPool the pool of parsers, with the addresses that
-- `request_processor_init` returns as a parameter. Http.LuaStates has the stacks of idle Lua states and
-- the choice of a script, Http.Request the callbacks of the HTTP parser for one connection; `serve` calls
-- them in the order in which the parser does for one request. A request uses `get_full_path` for the name
-- of a file, and a stack of Lua states for a script. Http.Parsers has the parsers with the
-- strings that are allocated for them. Http.Config has the loading of the configuration
-- (`httpd_conf.c`), which makes these stacks and the table of MIME types, from what the globals of a Lua
-- state hold. Http.Server has the callbacks of `main.c`, which give the connections of Comm.Channel to the
-- parsers of Http.ParserPool, and `main`; what is done with a parser's own data is a parameter there, and may
-- fault.
--
-- Comm.Channel has `mb_channel_receive`: each call of `select` is an event, with what `accept`, `recv` and
-- `realloc` answer in that round; the handler is a record of three functions on a state of its own, and
-- `IsLawful` says what such a handler needs of the order of its calls and keeps. Comm.Socket has the other
-- functions of `channel.c`, with the answers of the socket calls as parameters.
--
-- Bounds: `count` of a mailbox is an unsigned int and wraps at 2 ^ 32; `ref_count` and
-- `parser_stack_top` are integers that may be negative; the size of a message's heap is cut to the 32 bits of
-- an `int`. Four loops recur on fuel. That of `get_full_path`
-- starts with one more than the path's length, and each round moves on. That which empties the mailbox of
-- a dying task takes one message in each round, so that more fuel than the mailbox has messages is enough.
-- That of `send_file` reads at least one byte in each round, and has one more than the file's length.
-- The inner loop of `mb_channel_receive` starts with FD_SETSIZE (1024), and the descriptors end there.
-- Every other loop recurs on the list or the number that it counts through.
--
-- Not modelled: the Lua library and its API; the vendored HTTP parser (`3rd-party/http-parser`); threads,
-- condition variables and signals as such; the collection of garbage, but for the two `__gc` methods that it
-- calls; what `lua_dump` makes of a function, which is a string here; and what is only printed.
pub mod Prelude
pub mod Http
pub mod Blocks
pub mod Comm
pub mod Util
