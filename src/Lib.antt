-- ===== src/Lib.antt =====
-- A verification library for device2, a server that shares laboratory devices between programs.
--
-- A client sends GET requests over HTTP (server/http_server.cpp). The server finds the device that the
-- request names in its configuration (server/dev_manager.cpp), and lets the connection use, lock, log or
-- ask it (server/device.cpp) through a driver: a program that speaks the Simple Pipe Protocol, a serial
-- port, or a power supply with Modbus over one (server/drv_*.cpp).
--
-- The files and what they model:
--
-- - Base and its modules: lists, texts as lists of bytes, results and the monad of code that throws
--   (Base/Throwing: an exception is `err`, and undefined behaviour, such as a call through a null
--   pointer, is `crash`).
-- - Map: std::map and std::set as lists of entries in the order of the keys.
-- - Device: class Device, one function per method. Device/Invariant has its invariant, Device/Safety
--   null pointers, Device/Locking users and locks, Device/Log the log buffers.
-- - Manager: class DevManager. Manager/Url is parse_url, Manager/Actions the requests on one device,
--   Manager/Conf read_conf, Manager/Names the connections and their names, Manager/Run the method run.
--   The destructors of drivers run where close, a reload or the end of the manager drop the drivers.
--   Manager/Kept goes once through what every method does to the map of devices; Soundness and Serving
--   use it for the soundness of the devices, and Listing for the order of their names. Safety is about null
--   pointers, Naming and Names/Distinct about the names of connections, Reload, Failure and Configured
--   about the configuration, Addressing about the URLs.
--   Manager/Access is a specification of users and locks that knows neither drivers nor logs; its
--   modules show that requests meet it, one (Enters, Lock, Leave, Refines) or any sequence (Traces).
--   Manager/Entries is the grammar of configuration files, with the files that read_conf takes
--   (Entries/Accepted) and the devices that it reads from them (Entries/Reading).
-- - Manager/Threads: use, lock, unlock, ask and close of one device as the threads of several
--   connections interleave them. Manager/Threads/Alone compares it to Device, Exclusive and Open say
--   what the guards keep, and Races what they do not. Manager/Requests puts these threads on the map of
--   all devices, with the shared mutex around it, reloads and the loop of conn_close; Fits and Dangling
--   follow the devices that a thread has found, Held and Locking the mutexes of the devices, and Sweeps
--   the loop of conn_close when a reload has come before it.
-- - Server: ProcessRequest and ConnFunc of server/http_server.cpp and ReloadFunc of
--   server/device_d.cpp, as steps between states of the server. Server/Kept and History are about any
--   sequence of them, Server/Listing about the list of devices, Server/Responses about the two calls
--   that make one request, Server/Liveness about the lock of a connection that is lost. Server/Start
--   has the constructor and the destructor of HTTP_Server, and Server/Programs follows requests for a
--   program through all parts (Server/Programs/Session), also to another server where the program is
--   the client (Server/Programs/Chain).
-- - Client: class Downloader of server/device_c.cpp, and Client/Main its main function. Client/Requests
--   joins it to the server, Client/Session and Reading are about what its loops print, and
--   Client/Relay lets Driver_spp read it. The loop of monitor is run for a number of rounds.
-- - Daemon: server/device_d.cpp. Daemon/Main is its main function, Daemon/Options the options and the
--   configuration file, Daemon the user, the log and the daemon mode, Daemon/PidFile the pid file,
--   Daemon/Serve the server with its signals and its loop (Daemon/Serve/Loop and Reloading). The wait of
--   the option stop takes a number of rounds, and the loop a list of what happens until a signal.
-- - Ping: server/device_ping.cpp, with the device of Device. Tunnel: server/tun.cpp.
-- - Driver/Factory: Driver::create, and Driver/Objects the drivers behind it. Driver/Test:
--   server/drv_test.h. Driver/Utils: server/drv_utils.cpp. Driver/Spp:
--   Driver_spp::read_spp, write and ask, and Driver/Spp/Open its constructor. Driver/Serial:
--   Driver_serial::read, write and ask, and Driver/Setup its constructor, where an unsigned int of
--   flags is the function that gives its bits. Driver/Modbus: the checksum and the two functions of
--   server/drv_serial_hm310t.cpp, and Driver/Hm310t its values, queries and commands.
--   Driver/Presets: the options of the drivers of server/drv_serial_*.h. Driver/Usbtmc:
--   server/drv_usbtmc.cpp. Driver/Net: server/drv_net.cpp, and Driver/Net/Prologix
--   server/drv_net_gpib_prologix.h. Driver/Gpib: server/drv_gpib.cpp, with its constructor in Open and
--   the handles that it keeps open in Handles and Closed. Driver/Vxi: server/drv_vxi.cpp, and
--   Driver/Vxi/Refused the options that it refuses.
-- - Tests: the definitions on concrete inputs, and each theorem applied to some.
--
-- What the program calls outside is an argument: `Drivers` is Driver::create, the method ask of what
-- it creates and its destructor, `Libs` the option map, the reader of words, the printing of numbers and the clock, `Sys`
-- and `Tty` the system calls on a serial port, `Options`, `Doubles` and the constants `bits` what its
-- constructor uses, `Usb`, `Sockets` and `Ib` those on a USBTMC device, on a socket and of the GPIB
-- library, `VxiCalls` the VXI-11 library, `OptMap` the option map with its laws, `Port` the serial
-- driver below the power supply, `Values` its numbers and words, `Curl` libcurl, `Parts` what
-- Driver/Objects takes, `Os` the system calls of the daemon, `Mhd` the HTTP library, `OptionLibs`,
-- `PingLibs` and `TunnelLibs` what the options of the daemon, the tool and the tunnel use, and
-- `Outside` the rest of what the client calls. Doubles are never computed with here. What the calls do
-- goes through a type `World` that is an argument too. Hypotheses on them are `NoCrash` (a driver call
-- gives a result or throws), `Injective` (numbers print as distinct texts), `HandleLaws` (which calls
-- of the GPIB library open and close handles), `Escapes` (curl_easy_escape does not fail), `IsServed`
-- (paths without dot segments reach the server and are unescaped there) and, for the ports, what they give.
--
-- Bounds: the counter of connections wraps at 2^64, the checksum is kept in sixteen bits. Two loops
-- need fuel, those of Driver_serial::read and Driver_usbtmc::read, which end when the port or the device
-- says so: the fuel is the number of calls of ::read, and as many are enough as the answer has pieces,
-- and one more for USBTMC.
--
-- Elsewhere than in Manager/Threads and Manager/Requests each call of the HTTP library runs alone.
-- There the memory is sequentially consistent, and ask is one step from its mutex on, so that the data
-- races on users, locked and the log buffers of a device are left out. Threads over the names of
-- connections, which no mutex guards, are not modelled, and neither is the text of the log file. The
-- HTTP library, the options and the words of the configuration file come from other repositories. The
-- Tcl client, which is apart from the server, is not modelled. Driver/Objects takes the drivers of
-- serial ports, USBTMC and VXI-11 as an argument, since the models of their calls do not tell one open
-- device from another.
pub mod Base
pub mod Map
pub mod Ping
pub mod Device
pub mod Manager
pub mod Client
pub mod Daemon
pub mod Driver
pub mod Server
pub mod Tunnel
pub mod Tests
