-- ===== src/Lib.antt =====
-- A model of the host side of coLinux, which runs a Linux kernel beside the host's: the driver's
-- page tables, its transfers to and from the guest, and the parts of the driver and of the daemon
-- around them. Paths below are from the repository's root.
--
-- Base          shared names, Boolean tests, lists with native indices
-- Rc            the error codes of src/colinux/common/common_base.h
-- Arch          page arithmetic of src/colinux/arch/i386/mmu.h on 32-bit words
-- Prog          C functions that change a state and return a code; `none` is a loop without fuel
-- Split         src/colinux/kernel/pages.c: co_split_by_pages_and_callback (part_size, split,
--               split_by_pages); Split.Pieces describes the pieces, Split.Keep is its invariant rule
-- Space         the guest's table of frames (pp_pfns) and the host's memory: co_monitor_get_pfn,
--               co_manager_get_page; Space.Valid says that no two guest pages share a frame
-- Transfer      src/colinux/kernel/transfer.c: co_monitor_host_linuxvm_transfer and its users
-- Driver        src/colinux/kernel/manager.c: co_manager_load and co_manager_unload, with the reverse
--               tables of src/colinux/kernel/reversedpfns.c; Driver.Maps counts frames, Driver.Load and
--               Driver.Life are about what is held, Driver.Leak about what a failure loses
-- Queue         src/colinux/common/queue.c over the linked lists of src/colinux/common/list.h, in a
--               heap of links; Queue.Ring is about linked segments, Queue.View is the queue as a list
-- Block         src/colinux/kernel/block.c and fileblock.c: requests to block devices; Block.Count is
--               about users and open files, Block.Clear about the release of all devices
-- Unicode       src/colinux/common/unicode.c: UTF-8 for 16-bit characters; Unicode.Text describes the
--               encoding apart from the code's tables
-- Cmdline       src/colinux/user/cmdline.c: Cmdline.Parser is the table of the parser, Cmdline the two
--               passes over arguments and files (get_params_list, eval_params_file), Cmdline.Args the
--               functions that consume arguments
-- Console       src/colinux/common/console.c: co_console_op over a buffer with its bounds
-- Pages         the other functions of src/colinux/kernel/pages.c, and co_manager_set_reversed_pfn
--               of src/colinux/kernel/reversedpfns.c
--
-- Log           src/colinux/kernel/debug.c and common/debug.c: the driver's log of sections. Log.Write is
--               the writer (debug_write_log, co_debug_buf), Log.Read the reader (co_debug_read);
--               Log.Tlv parses what was read as src/colinux/user/debug/main.c does
-- Clock         src/colinux/common/common.h (co_div64_32) and kernel/monitor.c: the ticks for the guest
-- Messages      src/colinux/common/messages.c and kernel/monitor.c: messages to the guest in batches,
--               with the guest's reader of its patch; Messages.Rounds are the turns of both
-- Machine       src/colinux/kernel/monitor.c: the guest's memory (co_alloc_pages, co_free_pages,
--               load_section, load_initrd); Machine.Create is co_monitor_create and
--               co_monitor_destroy, Machine.Life is about what is held in between
-- Opens         src/colinux/kernel/manager.c: the reference counts of open descriptors (co_manager_open,
--               co_manager_close, CO_MANAGER_IOCTL_ATTACH), with send_monitor_end_messages and
--               incoming_message of monitor.c, as calls in any order, with the
--               waiting reads of src/colinux/os/winnt/kernel/manager.c and interface.c;
--               Opens.Count counts the uses
--
-- Machine works on Space through Pages, as the ioctls and the guest's own calls do. Messages and Clock
-- are what the driver does before it goes back to the guest; the queue of messages is a list there,
-- by the refinement of Queue.View. Driver and Machine.Create take the answers of the host's
-- functions, success or a code, as arguments. The guest's messages are active or not, as a
-- parameter of the turns; messages without the word of a device are not modelled, nor the buckets of
-- the host's page allocator.
--
-- The page loop runs on fuel, one more than the size of the range: each round takes at least one
-- byte. The host's frames and heap blocks are lists and counters in the state, so an allocation
-- fails where they are empty. The loops over strings run on the string, or on a count that the code
-- has for it. Allocations of the command line are counted. Host files, and the files of arguments,
-- are parameters. Taking and releasing a lock, and messages for debugging, are left out.
--
-- The reader of the log runs on fuel for its sections and fields, and the division on 65 rounds; the
-- theorems show that this is enough.
--
-- Not modelled: the passage between the kernels (machine code), the run loop of the guest machine, its
-- page tables at the start and its reset (src/colinux/kernel/monitor.c), its host file system
-- (filesystem.c), the queues of open descriptors and the other ioctls of the driver (manager.c), the
-- waits and locks round the log and the queues, the formatting of texts, the daemons, the consoles' windows, the Windows driver,
-- and copies of other projects (slirp, tap-win32).
pub mod Base
pub mod Rc
pub mod Arch
pub mod Prog
pub mod Split
pub mod Space
pub mod Transfer
pub mod Unicode
pub mod Pages
pub mod Queue
pub mod Block
pub mod Cmdline
pub mod Console
pub mod Driver
pub mod Log
pub mod Machine
pub mod Opens
pub mod Clock
pub mod Messages
