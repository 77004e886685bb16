-- ===== src/Lib.antt =====
-- iKGT usage: protection of CR0, CR4, model-specific registers and memory by policies, over the iKGT
-- hypervisor. The program has two parts. The driver (driver/) is a Linux module that offers one
-- configfs node for each protected resource and sends the policy of a node to the other part by a
-- hypercall. The handler (handler/) runs beside the hypervisor: it keeps the policies in a table,
-- answers the guest's accesses by them, and records the accesses in a ring of log entries for each
-- CPU, which the driver reads and prints. common/include/policy_common.h has the records of both.
--
-- Base: numbers, machine words, the binary digits of `&` and `^`, lists, C strings.
-- PolicyCommon, PolicyCommon/Resource: common/include/policy_common.h.
-- Handler/Entry, Table, Policy: handler/policy.h and handler/policy.c. A table is a record with the
--   list of its 35 slots; Table/Lookup, Table/Room and Table/Laws treat it as a finite map.
-- Handler/Operands, Crx: handler/cpu_cr0.c and handler/cpu_cr4.c, which are one code over two tables:
--   a `Crx` record has what differs, and `handle_cr0_event` and `handle_cr4_event` are its instances.
-- Handler/Msr: handler/cpu_msr.c. Handler/Memory: handler/memory.c. Handler/Log: handler/log.c.
-- Handler/Debug: the debug command, in all files of handler/; Handler/Print, Handler/Names: what
--   it prints, as calls.
-- Handler/Utils: handler/utils.c. Handler/MaskTables: the tables of the three cpu files.
-- Handler/Events: handler/handler.c, handler/message.c and handler/cpu.c, from
--   `handler_report_event` down to the handler of each event; `report_events` runs a sequence.
-- Handler/Machine: the static variables of the handler as one record, `Machine`, which each handler
--   takes and returns. `fault` is set where the code would follow a null table.
-- Handler/Api: what the handler calls in the hypervisor. A record `Env` answers each call from the
--   calls made before it, so each theorem holds for any hypervisor.
-- Handler/Frame, Handler/Balance, Handler/Invariant: what each handler leaves alone, the allocations,
--   and the invariants. Handler/Policies: the policies as a function from resources that the messages
--   are replayed on, which says what the table and the flag of handler/policy.c stand for.
-- Driver/Tables, Config, Nodes, Session: driver/cr0.c, driver/cr4.c and driver/msr.c; a session is what
--   configfs does with the nodes of a group. Driver/Types, Tree: the item types of these files, of
--   driver/log.c and driver/configfs_setup.c, and the whole directory with its groups. Driver/Log: driver/log.c.
-- Driver/Agent: driver/main.c and driver/configfs_setup.c. Driver/Debug: driver/debug.c. Driver/Kernel: the
--   functions of Linux and of ikgt_api.h that the driver calls, as parameters.
-- Ring: the log ring between the two parts; Ring/Reader: exits and dumps in any order.
-- System: a policy from the driver's node to the table (Delivery, Hypercall: a write to a node up to the
--   table, where each hypercall is an event whose message the hypervisor delivers), and from the table
--   to a guest's write of a control register or a model-specific register: with immutable policies
--   (Protection), with those that the messages so far have left (Answers), and what is counted and
--   logged (Audit). System/Log is the start of the log by both parts. System/Session runs the whole
--   program: the calls of the driver as its user works in the directory, of which each hypercall is an
--   event whose message is delivered as it was sent, with the guest's accesses between them.
-- Tests: the theorems at concrete inputs.
--
-- Numbers are natural numbers; the wrap-around of uint32_t and uint64_t is written out where the
-- code computes. The only fuel is that of `monitor_blocks`, the loop of `util_monitor_memory_ex`,
-- which gets the size in bytes: a round takes at least one byte, unless the hypervisor takes no
-- address item at all in one call: then the loop of the code does not end, and the theorems on it
-- exclude this. `print_digits` gets 20 decimal or 16 hexadecimal digits, as many as a uint64_t has.
--
-- configfs is not part of the repository. Driver/Session and Driver/Tree say in which orders it calls the
-- functions of the driver, by its documentation: names are distinct in a directory, `mkdir` makes,
-- a write stores, `rmdir` releases an item that holds no others, and an item without a type is refused.
--
-- Not modelled: which block a call of kfree frees (the blocks are counted), the messages of the
-- driver to the kernel log, the error messages of the handler, and an exit that is written while a
-- dump reads (a dump reads one snapshot of the log memory; between dumps exits come in any order).
pub mod Base
pub mod PolicyCommon
pub mod Handler
pub mod Driver
pub mod Ring
pub mod System
pub mod Tests
