-- ===== src/Lib.antt =====
-- CloudSystem: a garden that is watched and controlled over the web. A device (src/client.c)
-- holds the climate of a garden with its sensors, fan, pump and lamps, and is connected to a
-- server (src/server.c) by a socket. Web pages (cgisrc/) talk to the server through a System V
-- message queue: a page puts a request under the type that its device's name has, the thread
-- of that device takes it, passes it on to the device, and puts the answer back under twice
-- that type. The drivers of the device's hardware are Linux kernel modules (mydev/).
--
-- Message models include/myhead.h: the messages, their types and the queue. `msg_t` is the
-- record `Msg`, and a queue is a list, oldest first, with `msgrcv` and `msgsnd` as they are
-- documented.
--
-- Server models src/server.c. Server/Link is the list of devices on an explicit heap: `malloc`
-- gives the address that is an argument, and a command returns, exits, is undefined, or runs
-- out of fuel; Server/Link/Lifetime runs the list from `create_link` to `destroy_link`.
-- Server/World is what the threads share, over the list that Server/Link refines to.
-- Server/Handler is `handl_thread` as a state machine with one state for each blocking call,
-- Server/Login `login_thread`, Server/Inspect `show_list` and `insprct_thread`, with calls
-- that may never return, and Server/Startup `main`, `network_init` and `sig_handler` as
-- sequences of effects; Server/Startup/Accept is the variable `accept_fd` that `main` and the
-- handler threads share.
--
-- Client models src/client.c: the globals are a record, and what a thread asks of the drivers
-- and of the socket is a list of requests. Client/Control is `ctrldev_thread`, Client/Env
-- `hold_envthread` and `getenv_thpread`, Client/Config `setlimit_thread` and `read_config`,
-- whose file is the list of its bytes, Client/Shutdown `close_device` with `PRINT_ERR`,
-- Client/Start `main` up to its loop, and Client/Main the loop with the threads that it starts
-- and the buffer that they share. `float`, `double` and their reading and printing are the
-- parameter of Floats.
--
-- Cgi models cgisrc/: Cgi/Session is what the three garden pages share, Cgi/Dev the form of
-- garden_stuff_dev.c, Cgi/View the page of garden_stuff_view.c, Cgi/Limits the form of
-- garden_stuff_set.c, Cgi/Login is login.c and Cgi/Register register.c. SQLite is the
-- parameter `Database`, with the laws `IsLawful` that say what the statements of these pages
-- do on fields without quotes; Cgi/Register/Memory is a database that has them.
--
-- Control joins the control form, the device and the view page, and Exchange a page, the
-- message queue, the threads of the server and the loop of the client: a device that connects,
-- one request of each page and back to it, page after page (Session and Sequence), requests
-- that wait at once (Burst), an answer that comes too late (Behind), a heartbeat between a
-- request and its answer (Crossed), a device that hangs up (Gone), one whose socket gives
-- errors (Echo), two devices at once (Twins), and a user whose messages have the type of the
-- answers (Doubled).
--
-- Driver models mydev/: Driver/Fan, Driver/Motor, Driver/Led, Driver/Light (Ambient-light) and
-- Driver/Climate (temp-hume). Registers are natural numbers below 2 ^ 32, and what the kernel
-- and the I2C bus answer are arguments.
--
-- Garden joins the client and the drivers on one record of the hardware: what
-- `hold_envthread`, `ctrldev_thread` and `close_device` ask for is carried out by the models
-- of mydev/, and the sensors are asked over their buses. Garden/Rounds has the threads' turns
-- at the hardware, one at a time, Garden/Web the way from the control page to the registers,
-- Garden/Truth what the view page shows of the hardware, and Garden/Programs the programs
-- test.c of mydev/, which use the same drivers: Stale and Recovery have the client after them,
-- and Failure a climate sensor that does not answer. The kernel copies every buffer in these
-- runs, and its `kstrtoint` is an argument.
--
-- Loops take fuel where they follow pointers or start over: a walk over a list of n nodes is
-- given more than n rounds, and `show_list` n * n + 2 n + 1, since each of the n deletions
-- starts the walk again; a run of n operations on a list of m nodes is given more than m + n.
-- The alarm of login.c is given more rounds than there are requests before its own. `char` is
-- signed in the server and unsigned in the client, and `int` has 32 bits, as on the machines
-- the program is for.
--
-- Not modelled: cgic.c, a copy of a library; SQLite, the kernel and the C library, which are
-- arguments; the HTML text of the pages; the address that the server binds and the printed
-- messages.
mod Base
pub mod Floats
pub mod Message
pub mod Server
pub mod Client
pub mod Cgi
pub mod Control
pub mod Driver
pub mod Exchange
pub mod Garden
