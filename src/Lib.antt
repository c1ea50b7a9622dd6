-- ===== src/Lib.antt =====
-- The sensor gateway. Sensor nodes send readings over TCP to the connection manager (connmgr.c),
-- which puts them in a shared buffer (sbuffer.c). The data manager (datamgr.c) looks at each reading
-- in the buffer, keeps the last five per sensor in pointer lists (lib/dplist.c), and logs rooms that
-- are too hot or too cold. The storage manager (sensor_db.c) then removes the reading and appends it
-- to a file. All of them write messages to a log process (main.c). The reading with id 0, which the
-- connection manager inserts last, ends the stream.
--
-- Common: names passed on from the libraries, Boolean tests, lists measured by native numbers,
-- signed integers, and `Cmd`, code on a state that may fault. A fault stands for undefined behaviour
-- and for an abort: NULL, a dangling pointer, a failed assertion, an overflowing `int`.
-- Config (config.h): the record of a reading and the constants. A sensor value is a C `double` and is
-- a type parameter.
--
-- Dplist (lib/dplist.c): `dpl_*` bear the names of the code. The heap maps addresses to nodes and to
-- list structs, the elements live in a memory that only the callbacks touch. Memory has the structs
-- and the reads and writes, Chain says which nodes a list consists of, Spec is the list that
-- lib/dplist.h promises, and the other modules prove the operations, one each: Read, Lookup, Insert to
-- InsertAt, Remove to Removal, Free, RoundTrip. Loops are structural recursion on a counter that the
-- code computes too; `size_loop` counts up to the largest `int`, past which `count++` is undefined.
--
-- Sbuffer (sbuffer.c): Memory has the structs, Queue the abstract queue of readings with their flags
-- and the value of `condition`, Chain the nodes that represent one. `sbuffer_remove` and
-- `sbuffer_peek` block, so each is a step function over `Stand`, the places where a call can be; a
-- step is what the code does between taking the mutex, or waking, and waiting or returning. The write
-- of `condition` after the unlock at the end of the stream is a step of its own. `sbuffer_free` runs
-- on fuel, and more fuel than there are readings is enough. Refine, Remove, Peek, Insert and Free
-- prove that the code does on nodes what the queue does. System is the step relation of the threads
-- (the loops of sensor_db.c and datamgr.c around the two calls): any thread may run next, and waking
-- without a signal is allowed. Invariant, Removing, Peeking and Inserting prove what holds between
-- steps, Safety that every reachable state has it, Order, Faults and Progress what
-- follows.
--
-- Datamgr (datamgr.c): the loop of `datamgr_init` and what it calls, with the times and the results of
-- `sbuffer_peek` as inputs. Its lists are those of Dplist.Spec, which the functions of lib/dplist.c
-- implement; it uses them through `insert_at` and `remove_at`, and the `for` loops that search a list
-- are recursion on it. Values has the operations on `double` that the code uses. Window is about one
-- sensor's readings, Readings about those of all sensors, Mappings about the map file and the whole run,
-- Warnings about the messages.
-- MapFile is the text of the map file as `fscanf` reads it, on fuel; more rounds than the text has
-- characters are enough.
-- Datamgr/Store is the same code on the nodes and blocks in memory behind the two kinds of list, with the
-- callbacks on them: Points is `insert_data_point`, Averages `calculate_average_sensor`, Rounds the loop
-- of `datamgr_init`, MapLines its beginning and end and `insert_mappings`. Owned says which blocks
-- belong to a sensor, Contents and Agreeing what they hold, Freeing and Clearing prove what is freed.
-- Evicting and Updating are about one sensor's readings, Changing, Access and Refining about all,
-- DataPoint, Reading, Following, Ending, Adding, Added, Mapping and Starting compare the code with the abstract
-- lists; Missing is about a map file that cannot be opened. `until_fclose` is `datamgr_init` up to its
-- call of `fclose`. The addresses that `malloc` returns are inputs; one that has just been freed may come
-- again for a reading's block, not for a node within the same call.
-- Connmgr (connmgr.c): `handle_client` over the results of its receive calls, three per round. Stream
-- says what one client's bytes become. Manager is the step relation of `connmgr_init` and the threads
-- of its clients, with what all receive calls of a client will return chosen when it is accepted;
-- Invariant and Steps prove what holds between steps, Ended what has been inserted at the end.
-- Interleaving is the order in which the clients' threads insert.
-- Tcpsock (lib/tcpsock.c): the functions, as functions of what the system calls return; the results list
-- the calls that open and close descriptors. Connecting has the two ends of a connection and the
-- getters. Receiving, Opening and Connected prove what follows from the results.
-- Pipeline: all of these together, from what the sensor nodes send to what the storage manager and the
-- data manager get. Sensors is about the readings of one sensor among those of all.
-- SensorDb (sensor_db.c): `sensor_db_runner` and what it calls. A file is its text, and
-- the results of `fopen`, `fprintf`, `fclose` and `sbuffer_remove` are inputs, as is what `%g` writes for a
-- `double`. Rows reads the lines back, knowing only their form, and Storing is about what stands in the
-- file.
-- Logger (main.c): `write_to_log_process`, `end_log_process` and the child's loop in
-- `create_log_process`, on lists of characters. `tokens` is what `strtok` returns call by call. Framing
-- is about one buffer, RoundTrip about the whole log, and Child has every result of `read`.
-- Gateway (main.c): the tests of the arguments, and what `main` does, in order, as a list of actions.
-- A call of `pthread_create` or of `malloc` for a thread's parameters that fails makes `main` fault, as
-- its results are not tested. Arguments is about the tests, Tidy about the order.
-- SensorNode (sensor_node.c): the test client, with the macro LOOPS as a parameter. Sending joins it to
-- `handle_client`.
-- FileCreator (file_creator.c): the two files that it makes. RoomSensorMap is what the data manager reads
-- from the one, Measurements the records of the other.
-- CString: what the programs use of the C library's strings and numbers. Decimal and Progress are about
-- numbers in text.
--
-- Taken as parameters: the address that `malloc` returns (a free one), what system calls, `time`,
-- `drand48` and the calls on streams return, and in Dplist the callbacks of a list.
-- Not modelled: the bound of the `int` that numbers the log's lines; a `sendto` that sends a part of a
-- value; the signals themselves, since a thread may wake at any time; fairness; a failing
-- `sbuffer_insert` in a client's thread; text that is only compiled with
-- DEBUG or LOG_SENSOR_DATA.
pub mod Common
pub mod Config
pub mod Dplist
pub mod Sbuffer
pub mod CString
pub mod Datamgr
pub mod Tcpsock
pub mod Connmgr
pub mod FileCreator
pub mod Logger
pub mod Gateway
pub mod Pipeline
pub mod SensorDb
pub mod SensorNode
