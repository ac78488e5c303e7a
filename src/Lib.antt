-- ===== src/Lib.antt =====
-- The FastRPC driver of android/adsprpc.c, through which user processes call procedures on a DSP.
--
-- A process opens the device, which gives it an open file (`struct fastrpc_file`), and binds the
-- file to a channel, one per DSP, and to a session of the channel, an SMMU context bank. A call
-- allocates an invocation context, orders its argument buffers by address, lays out the buffers
-- that are not mapped in one copy, sends a message with the identifier of the context over the
-- channel and sleeps on the context. The response names the context by its identifier, and the
-- driver finds it in a table of 256 entries and wakes the caller. A signal takes a caller out of
-- its call, which it repeats later; a channel or protection domain that goes down wakes everyone.
--
-- Shared by all parts: Prelude, with Prelude/Tests (Boolean tests), Prelude/Lists (lists over the
-- native numbers) and Prelude/Perms, and Errno, the errors and the results of fallible functions.
--
-- Pages: buf_page_start, buf_page_offset, buf_num_pages, buf_page_size.
--   Pages/Cover has the bounds on them.
-- Overlap: struct overlap, CMP, overlap_ptr_cmp and context_build_overlap. Overlap/Pieces and
--   Overlap/Build show what the pieces cover, Overlap/InsertionSort gives a sort that the
--   hypotheses on the kernel's sort hold for.
-- Arguments: the two loops of get_args over the buffers that are copied, the one that adds up the
--   length and the one that places and copies. Arguments/Span, Spots, Fits, Lookup and Ready lead to
--   the layout in Arguments/Layout; Arguments/Mapped has a call with a mapped buffer.
-- Session: fastrpc_session_alloc_locked, fastrpc_session_alloc, fastrpc_session_free and
--   fastrpc_get_info. Session/Alloc is on one allocation, Session/Owners on the users of a
--   channel as a step relation, Session/Shared on shared sessions, Session/Info on the binding.
-- Context: context_alloc, context_free, context_save_interrupted. Context/Response has
--   context_notify_user, the two response handlers smd_read_handler and fastrpc_glink_notify_rx,
--   and the fastrpc_notify functions; Context/Interrupted has context_restore_interrupted and
--   fastrpc_context_list_dtor. Context/Invariant, Full and Steps show that each operation keeps the
--   table and the lists consistent, Context/Runs does so for every sequence of operations;
--   Context/Alloc, Deliver, Wake and Signals are on one operation each.
-- Mapping: struct fastrpc_mmap, its lists, and fastrpc_mmap_add, fastrpc_mmap_find,
--   fastrpc_mmap_remove and fastrpc_mmap_free. Mapping/Create has fastrpc_mmap_create, written in the
--   error monad of Mapping/Fill. Mapping/Owned follows what a mapping holds through its creation,
--   Mapping/Failure is on a failed creation, Mapping/Search on the search, Mapping/Counts and Runs on
--   the lists and the reference counts under every sequence of operations.
-- Buffer: struct fastrpc_buf, fastrpc_buf_alloc, fastrpc_buf_free and fastrpc_cached_buf_list_free
--   and fastrpc_remote_buf_list_free.
--   Buffer/Cache is on the choice of a cached buffer, Buffer/Fresh on a new one.
-- Remote: fastrpc_mmap_on_dsp, fastrpc_munmap_on_dsp_rh, fastrpc_munmap_on_dsp,
--   fastrpc_internal_munmap and fastrpc_internal_munmap_fd, with the answers of the other parties in a
--   record. Remote/Mmap has fastrpc_internal_mmap, Remote/Heap the heap when the remote processor
--   restarts: fastrpc_mmap_remove_ssr, fastrpc_get_adsp_session and fastrpc_mmap_remove_pdr.
--   Remote/Undo and Cycle follow a buffer from its mapping to its unmapping, Remote/Pages pages that
--   the driver adds; Remote/Unmap is on a failed unmapping, Remote/Drain on the loop over the heap.
-- Channel: struct fastrpc_channel_ctx and the callbacks fastrpc_link_state_handler and
--   fastrpc_glink_notify_state. Channel/Open has fastrpc_channel_open with fastrpc_glink_register and
--   fastrpc_glink_open, and fastrpc_glink_close and fastrpc_channel_close; Channel/Restart has the
--   notifiers fastrpc_restart_notifier_cb and fastrpc_pdr_notifier_cb. Channel/Users has the steps of
--   a channel and its files, and the abstract contract of a channel; Channel/Kept, Contract and Joined
--   lead to Channel/Refines. Channel/Lost is on openings that fail.
-- Invoke: fastrpc_internal_invoke, split at its wait, and fastrpc_invoke_send. Invoke/Answered is on a
--   call that gets its answer, Invoke/Refused on one that fails before it waits.
-- File: fastrpc_release_current_dsp_process and fastrpc_file_free, which goes through all the parts
--   above, with the part of context_free that releases what a context owns. File/Buffers, File/Cached
--   and Buffer/Emptied are on the buffers of a closed file, File/Released and Mapping/Closed on its
--   mappings, File/Closed on all that it had.
-- Process: fastrpc_init_process. Process/Dropped is on a mapping that is created and dropped again,
--   Process/Balance on the one of the program's file, Process/Size on the size of its memory,
--   Process/Kept and Buffer/Aside on the memory of a process that the file has started before.
-- Control: fastrpc_device_open, fastrpc_internal_control and fastrpc_device_ioctl, whose requests go to
--   an interface, `Handlers`, of the functions of the other parts. Control/Driver fills it with them, on
--   one state. Control/Guard is on what every request keeps, Control/Qos on the latency that a file
--   asks for, Control/Undone on requests that are refused, Control/Cycle on a buffer that is mapped
--   and unmapped by requests.
-- Pagemap: android/virt_to_phys.c without its main: pagemap_get_entry and virt_to_phys_user, with the
--   page map as a function from offsets to the bytes that a read gives. Pagemap/Lookup is on what a
--   look-up gives.
-- The Examples modules have the theorems at concrete inputs.
--
-- Numbers are natural numbers; where the code works on 64-bit or 32-bit words the wrap-around is
-- written out. Addresses are numbers, and a context goes by its address. VERIFY, which sets an
-- error of -1, is `verify` with the error `failed`. Each loop is a recursion over its list, the 256
-- entries of the table being a list of that length; only fastrpc_mmap_remove_ssr and
-- fastrpc_remote_buf_list_free, which take the first entry as often as there is one, run on fuel, of
-- which one more than the length of the list is enough, and the reads of pagemap_get_entry, for which
-- nine passes are. A function is one step, or two where it waits, so that a sequence of steps is an
-- interleaving of the threads; context_alloc and context_free, which have two critical sections each,
-- are not taken apart.
--
-- Parameters: the kernel's sort, which is taken to permute its input and to order it; the outcome
-- of kzalloc (an address, or none) and of the copies from user memory; the size of a response; the
-- outcomes of the DMA, ION and buffer calls of a mapping, whose DMA addresses and lengths are taken
-- to be positive; the answers of the remote processor, of scm_call2 and of the hypervisor; the
-- handles of the transports, and the events that come in while a caller waits for them; the outcome
-- of the copies of a call's arguments, of its name and of the call that starts a process.
--
-- Not modelled: the assignment of pages to the remote processor beyond its outcome, the mapping of
-- the arguments of a call and the copies back, so that what a context owns is an input of File, and
-- a single call follows the context alone; the probe and debug code of the same file; the other
-- programs of the repository (the kgsl files, the profiling modules, the atop reader, the graph
-- application, plots and configuration), which log, print or configure.
pub mod Arguments
pub mod Buffer
pub mod Channel
pub mod Context
pub mod Control
pub mod Errno
pub mod File
pub mod Invoke
pub mod Mapping
pub mod Overlap
pub mod Pagemap
pub mod Pages
pub mod Prelude
pub mod Process
pub mod Remote
pub mod Session
