-- ===== src/Lib.antt =====
-- Verification library for the Nachos kernel of nachos-3/code (nachos-1,2 holds an earlier state
-- of the same kernel). The kernel runs on a machine that it simulates itself: a MIPS CPU with
-- paged memory executes the user programs, and traps into the kernel for system calls and faults.
-- The kernel keeps its tables in bit maps, its threads apart by semaphores, and its files on a
-- disk of sectors.
--
-- Files, by the code that they are about:
-- Machine: machine/machine.h, machine.cc. The record Machine has the fields of the class that
--   a run reads or writes; a register is the pattern of 32 bits of its `int`, a byte of memory a
--   number below 256. Machine/Translate is Machine::Translate, Machine/Memory is ReadMem and
--   WriteMem of machine/translate.cc, on a little-endian host. The kernel's ExceptionHandler is
--   the parameter `handler`.
-- Cpu: machine/mipssim.h and mipssim.cc. Cpu has Instruction::Decode with its two tables,
--   Cpu/Mult the function Mult, Cpu/Execute the cases of the switch of OneInstruction (the clauses
--   are in Cpu/Execute/Dispatch), Cpu/Step the rest of OneInstruction. It calls Machine.
-- BitMap: userprog/bitmap.h, bitmap.cc. FdTable and FileHeader call it.
-- FdTable: filesys/fdtable.h, fdtable.cc. The file system's Open is the parameter `open_file`.
-- FileHeader: filesys/filehdr.h, filehdr.cc. Directory: filesys/directory.h, directory.cc.
-- Semaphore: threads/synch.h, synch.cc. P and V run with interrupts off, so each pass of them is
--   one step; Semaphore/Schedule has every interleaving of the threads on one semaphore.
-- STable: threads/STable.h, STable.cc, Sem.h, Sem.cc. It calls Semaphore and BitMap.
-- Process: threads/PCB.h, PCB.cc, PTable.h, PTable.cc. Process/Handshake has the steps of a parent
--   in JoinUpdate and of its child in ExitUpdate, in every order; each call on the PCB is a step of
--   its own. It calls Semaphore and BitMap.
-- Kernel: userprog/exception.cc, with SynchConsole of threads/synchcons.cc in Kernel/Console.
--   Kernel/Transfer copies between the kernel and the memory of the program, Kernel/Text, Files and
--   Names have the cases of ExceptionHandler, by what they work on, Kernel/Handler the switch.
--   A case is named sys_ and the call. A run returns, sleeps, halts Nachos or stops (Run). It calls
--   Machine, FdTable and STable; the file system and the process table are the parameter Services.
-- LinkedList: threads/list.h, list.cc, as elements in memory with their pointers; LinkedList/Chain
--   says what sequence a list stands for.
-- Interrupt: machine/interrupt.h, interrupt.cc, on LinkedList. The handlers of the devices are the
--   parameter run_handler; Interrupt/Draining has what OneTick relies on in them.
-- Scheduler: threads/scheduler.h, scheduler.cc, thread.h, thread.cc, on LinkedList;
--   Scheduler/Steps has every order of what the threads do.
-- OpenFile: filesys/openfile.cc, on FileHeader and the contents of the disk (machine/disk.cc).
--   Read and Write count in bytes, the disk in sectors of 128; SynchDisk makes each request one step.
--   OpenFile/Reading and OpenFile/Writing see the file as a sequence of bytes.
-- FileSystem: filesys/filesys.cc (the build with FILESYS), on all of these. FileSystem/Layout has the
--   bytes of a bit map, a directory and a header, with the FetchFrom and WriteBack of
--   userprog/bitmap.cc, filesys/directory.cc and filesys/filehdr.cc.
-- Prelude: numbers, lists, bits, C strings, and Option as the monad of code that may stop.
--
-- The method of a class is a function on the record of the class, with the same name in snake
-- case, that returns the record that the method leaves. `none` is a failed ASSERT or an effect that
-- C++ leaves undefined (an index out of an array, a buffer overrun, INT_MIN / -1). Signed sums and
-- shifts wrap around, as the simulation of the CPU relies on; only in OpenFile is a sum that is no
-- `int` undefined. What `new` leaves in memory is a parameter. Loops are recursion on the number of
-- rounds that the code's own bound leaves, so they need no fuel, but for two: the search of SortedInsert has one round for each element ever
-- made, and the loop of OneTick takes the number of its rounds as an argument; that these are
-- enough is part of the theorems on them. A module X has its tests and its instances in X/Examples.
--
-- Not modelled: what only prints (Print, List, DEBUG, the debugger); the destructors that only
-- free memory; the devices, which are I/O of the host (console, timer, network, and the file and
-- the times of the disk); the threads' stacks and their switch, which is assembly; Lock and
-- Condition, whose methods are empty, and what rests on them (SynchList, the post office).
-- ExecUpdate and PCB::Exec and the address spaces are not modelled either.
pub mod Prelude
pub mod BitMap
pub mod Machine
pub mod Cpu
pub mod FdTable
pub mod FileHeader
pub mod Directory
pub mod Semaphore
pub mod STable
pub mod Process
pub mod Kernel
pub mod LinkedList
pub mod Interrupt
pub mod Scheduler
pub mod OpenFile
pub mod FileSystem
