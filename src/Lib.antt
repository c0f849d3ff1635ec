-- ===== src/Lib.antt =====
-- A CPU scheduler simulation in C, with a paged memory for its round-robin mode.
--
-- The program. A generator (process_generator/) reads a list of processes and sends them, at their
-- arrival times, to one scheduler. scheduler/ runs round robin, highest priority first, or a
-- distribution over two sub-schedulers (sub-sched/) with work stealing; rr_scheduler/ runs round
-- robin over processes (process/) whose memory requests go through a page table in a RAM of 32
-- frames (MMU/). A clock (clk.c) counts ticks. The parts talk by message queues, semaphores,
-- shared memory and signals.
--
-- The files.
--   Base        Boolean tests, integers over the native numbers, lists.
--   Types       The structs of data structs/structs.h.
--   Run         Calls that return, meet undefined behaviour, or end the program; Run/Ends is about
--               the calls that return.
--   Platform    The C library and kernel: floats, strtoul, fork. Every model is parametric in it.
--   Queue       data_structures/PCB/Sch_PCB.c: createQueue is create_queue, dequeue_by_id is
--               dequeue_by_id and so on. Queue/Order is about priorities, Queue/Contents about
--               what leaves a queue and its counter.
--   Nodes       The same queue down to its nodes on the heap, for data_structures/PCB/Sch_PCB.c,
--               data_structures/REQ/requests.c and process_generator/process_generator_functions.c:
--               enqueue is enqueue_node, enqueueReq enqueue_req, pg_enqueue pg_enqueue and so on.
--               Chain says when nodes stand for a list. ById and Sorted have dequeue_by_id and
--               enqueue_priority.
--   Memory      MMU/mmu_functions.c. State has RAM and the PCBs; Pages has get_process, check,
--               define_page_table, put_page_in_frame and clear_recent; Victim the search for a
--               frame in fault_handler; Faults has swap and fault_handler; Release freeReserved and
--               freePageTable; Address parse_hexa_address and validate. Mapping says when page
--               tables and frames agree, and its children which changes keep that; Same is about what the calls of
--               the memory unit leave alone.
--   Perf        PerfVars, the finish statistics and write_perf of the three schedulers.
--   RoundRobin  rr_scheduler/: Blocking has checkBlockEnd; Dispatch has runProcess and RR_algo;
--               Requests has handleRequests and checkReqs; Lifecycle has receiveProcesses and
--               handleFinishedProcesses; Loop has the body of main's loop as tick.
--               Track follows the PCBs through the queues, call by call, and Track/Reached
--               through the whole loop from its start, with the clock and the child between ticks.
--   Scheduler   scheduler/: Dispatch has runProcess, RR_algo and HPF_algo; Routing the distribution
--               of FCFS_algo; Stealing has check_threshold and FCFS_algo; Loop the body of main's
--               loop as tick.
--   SubScheduler  sub-sched/: Receiving has the loops that empty the message queue; Dispatch FCFS_algo
--               and runProcess; Stall stall_sig and the end of a stall; Stealing steal_handler; Loop
--               finishLogic and the body of main's loop as round. Steps puts rounds, handlers and the
--               surroundings in sequences; Transfer follows a stolen process to the other CPU.
--   Generator   process_generator/process_generator.c: Input has the reading of the processes, Sending
--               the loop that sends them as send_loop and generate. Pipeline joins it to
--               receiveProcesses of rr_scheduler/.
--   Child       process/process.c (work_loop) and process/RR_process.c (read_requests, child_loop);
--               Args has to_int of headers.h, Start both programs up to their loops, Exec the arguments
--               that the schedulers give them.
--   Ipc         The objects of the kernel that scheduler/ and sub-sched/ share: Create has
--               create_2cpu_ipcs and destroy_2cpu_ipcs, Attach attach_2cpu_ipcs, create_ipcs and the
--               cleanup of sub-sched/ as sub_cleanup, Teardown the cleanup of scheduler/ and the end of
--               its main as shutdown. Objects, Semaphores, Sharing and Own say what is made and found,
--               Removal, Cleanup and Foreign what is removed.
--   TestGenerator  test_generator/test_generator.c.
--   Tests       The inputs at which the results with conditions are applied.
--
-- How the code is read. An int is an unbounded integer, since signed overflow has no defined
-- result; unsigned values are cut to 32 bits. A queue is the list of what its nodes hold, beside its
-- counter. A pointer to a PCB is a number that the store of the memory unit maps to the PCB while
-- it is allocated; in scheduler/ a PCB has one holder at a time and is modelled by its value. A
-- read through a null or dangling pointer or outside an array is a fault, exit an exit. malloc and
-- msgsnd succeed. What msgrcv delivers, in a tick, is an input of the functions that read it. The
-- clock stands still within a handler, but for wait_N_secs, which moves it on. Signals to children
-- and lines of the logs are events in the state. The loops over frames and nodes are structural; the
-- digit loop of validate has its argument as fuel, which is enough since every pass divides it by ten.
--
-- sscanf and strtol are parameters. In process/RR_process.c a write behind the end of an address is
-- undefined behaviour. In Generator/Pipeline the order in which msgrcv delivers is a parameter too,
-- with what is documented for the type -5: the lowest type first. The loops that wait for the clock
-- or for a tick are functions of the readings or of the number of grants; the loop of freeQueue has
-- its rounds as fuel, and the counter of the queue is enough. A sub-scheduler's handlers run
-- between the steps of its loop.
--
-- In Ipc the kernel is a parameter whose state is its own; Laws has the documented behaviour of its
-- calls, among them that IPC_RMID fails with EPERM for an object that the user may not remove;
-- OneUser says that all objects may be removed. clear_pending has as fuel one round more than
-- messages wait.
--
-- Not modelled: the other objects of the kernel (those of rr_scheduler/ and of the generator) and the
-- waiting on semaphores; log files; the choice of the scheduler and the start of the programs by the
-- generator; the clock process, which counts seconds; the programs that print test runs.
pub mod Base
pub mod Types
pub mod Queue
pub mod Nodes
pub mod Run
pub mod Memory
pub mod Platform
pub mod Perf
pub mod RoundRobin
pub mod Scheduler
pub mod SubScheduler
pub mod Generator
pub mod Child
pub mod Ipc
pub mod TestGenerator
pub mod Tests
