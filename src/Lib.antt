-- ===== src/Lib.antt =====
-- IRPMon records what goes on between Windows drivers. Its kernel library hooks drivers (kbase/),
-- puts each event it sees into a request and the requests into a queue (kbase/req-queue.c), from
-- which the driver (irpmndrv/) hands them to the programs in user mode. The kernel code stands on
-- shared containers and services (km-shared/). This library models that core: the request queue,
-- the records of hooked drivers and devices with the list that an application gets of them, and
-- the containers and the framework under it.
--
-- The parts, and the files that model them:
-- - Common, Common/Tests, Common/Lists: no code of the program; Boolean tests on the native
--   numbers, C arrays as lists, and the lemmas that the parts share.
-- - Kernel: the kernel's services that the code calls, as far as it relies on them. NTSTATUS
--   codes by name with NT_SUCCESS; HeapMemoryAlloc and HeapMemoryFree as a pool whose answers are
--   an input and which counts the live blocks; KeBugCheck and __debugbreak as the end of a run.
-- - DymArray: km-shared/utils-dym-array.c. DymArrayCreate is `create`, DymArrayReserve `reserve`,
--   DymArrayPushBack `push_back`, and so on by the names without the prefix. DymArray/Spec has
--   the abstract list that an array represents, DymArray/Cells and DymArray/Grow the array's
--   cells and its growth, DymArray/Ends the operations at both ends, DymArray/Memory the blocks.
-- - HashTable: km-shared/hash_table.c. HashTableInsert is `insert`, HashTableDelete `delete` with
--   its loop `unlink`, HashTableGet `get` with its loop `find`; HashTable/Setup has creation and
--   destruction, HashTable/Iterator the iterators, which keep a bucket locked; HashTable/Lookup,
--   HashTable/Count and HashTable/Traverse are the proofs. A bucket is the list of its items.
-- - HandleTable: km-shared/handle-table.c, a client of the hash table: it takes the operations of
--   HashTable and proves with the theorems of HashTable/Lookup and HashTable/Count.
-- - Modules: km-shared/modules.c, the order in which a driver's modules are initialised and
--   finalised; Modules/Registry has the registration and Modules/Order the order of the routines.
-- - MultiString: km-shared/multistring.c, strings one behind the other in one buffer.
--   _MultiStringSize is `size`, _MultiStringInsert `insert`, _MultiStringRemove `remove`;
--   MultiString/Names has a buffer as the list of its strings, MultiString/Insert and
--   MultiString/Remove the proofs. Loops run at most once for each character of the buffer.
-- - Request: include/general-types.h (the request header and the types of requests) and
--   RequestGetSize of shared/request.cpp.
-- - ReqQueue: kbase/req-queue.c. _RequestInsert is `request_insert`, _RequestRemove
--   `request_remove`; ReqQueue/Callbacks has the routines on the list of callbacks,
--   ReqQueue/Service the public ones: RequestQueueConnect is `connect`, RequestQueueDisconnect
--   `disconnect`, RequestQueueInsert `queue_insert`, RequestQueueGet `queue_get`,
--   RequestQueueClear `clear`. ReqQueue/Valid and ReqQueue/Steps have the invariant,
--   ReqQueue/Machine the routines as the steps of a state machine, ReqQueue/Ascending and
--   ReqQueue/Order the order of the requests, ReqQueue/Next the mark of waiting requests,
--   ReqQueue/Answers the special answers, ReqQueue/Merged the two lists of requests as one in the
--   order of the numbers, ReqQueue/Serving that requests are served, ReqQueue/Sharing the
--   references on callbacks.
-- - Hook: kbase/hook.c. Hook itself has the routines that put the handlers into a driver object
--   and take them out again: _HookDriverObject is `hook_driver_object`, DriverHookRecordEnable
--   `enable`; Hook/Dispatch has the proofs. Hook/Devices has the device records of one driver
--   with their reference counts, the table SelectedDevices and the validation table:
--   DriverHookRecordAddDevice is `add_device`, DriverHookRecordDeleteDevice `delete_device`,
--   DeviceHookRecordValid `device_valid`, the part of HookDriverObject on the driver's devices
--   `hook_devices`; Hook/Devices/Counts and Hook/Devices/Changes count references,
--   Hook/Devices/Owned, Hook/Devices/Calls, Hook/Devices/Returns and Hook/Devices/Existing go
--   through the calls, and Hook/Devices/Machine has them as a state machine. Hook/Enumerate is
--   HookObjectsEnumerate, which lists drivers and devices in a buffer; Hook/Enumerate/Bounds has
--   the length of the buffer, Hook/Enumerate/Layout where the records stand,
--   Hook/Enumerate/Overwritten a driver without devices.
-- - UmServices: irpmndrv/um-services.c. UMGetRequestRecord is `get_request_record`, a client of
--   ReqQueue, with ReqQueue/Taking between them; UmServices/Filling has the proof that the buffer
--   is filled without gaps, UmServices/Oldest that it holds the first requests of the queue.
--   UmServices/Snapshot has the part of UMEnumDriversDevices that measures and writes the
--   snapshot.
-- - DriverCom: irpmondll/driver-com.cpp, the other end of these buffers:
--   DriverComHookedObjectsEnumerate is `hooked_objects_enumerate`, DriverComHookedObjectsFree
--   `hooked_objects_free`. DriverCom/Snapshot puts it together with Hook/Enumerate,
--   DriverCom/Memory has its use of the heap, with DriverCom/Blocks on its parts.
--   DriverCom/Retrieve has DriverComSnapshotRetrieve and DriverComSnapshotFree, with
--   DriverCom/Retrieve/Whole on what they get, and DriverCom/Retrieve/Leak and
--   DriverCom/Retrieve/Freed on their use of the heap.
-- - StringRefTable: km-shared/string-ref-table.c. StringRefTableInsert is `insert`,
--   StringRefTableGet `get`, _ChainWalk `chain_walk`, which keeps the walk's treatment of
--   unlinked items; the proofs are in StringRefTable/Lookup. Hashing and comparing strings are
--   the kernel's, in the record Strings.
-- - The files called Tests have runs on concrete inputs, and each theorem of the list below at a
--   concrete input.
--
-- Conventions. Addresses are numbers and NULL is `none`. 32-bit counters are written as
-- remainders modulo 2^32, a SIZE_T in the request sizes as one modulo 2^word. A loop of the
-- source is a function by recursion on the list or the count that it runs over, so every routine
-- ends and no fuel is needed; the walks over a multistring take the length of the buffer as fuel,
-- which is enough since every string in it has a terminator. A routine runs as one step under its
-- locks; the locks are in the state where they outlive a call or decide its answer: the buckets
-- of an iterator, and the remove lock of the request queue, whose documented behaviour is the
-- record RemoveLockLaws. Callbacks are functions on a state that the caller of the model chooses.
-- In irpmondll/driver-com.cpp the last error of the thread is an input, since HeapAlloc leaves it
-- as it is.
--
-- Not modelled: in kbase/hook.c the creation and lookup of driver records and the module's
-- initialisation (the driver's record stands in the device records' model as its reference count
-- and settings); the hook handlers (kbase/hook-handlers.c), the proxy devices
-- (kbase/devext-hooks.c, whose answer is an input), the watches, the boot log, the data loggers
-- and the registry records (kbase/), the driver's device control and the rest of its services
-- (irpmndrv/; the mapping of an application's buffer is taken to succeed in UMEnumDriversDevices,
-- and of its names only what was found is an argument), the rest of irpmondll/driver-com.cpp,
-- whose device control is a call of the system, and how its routines go on with a NULL pointer
-- when an allocation was refused and the last error is ERROR_SUCCESS, the allocator with its
-- checks and the remaining helpers of km-shared/, the parsers, connectors and programs in user
-- mode, and the graphical interface. Of the modelled files: lock helpers that only call the
-- kernel, interleavings inside one routine, and in kbase/req-queue.c the constructors of requests
-- and the snapshot of the drivers, whose answer is an argument of `connect`.
pub mod Common
pub mod Kernel
pub mod DymArray
pub mod HashTable
pub mod HandleTable
pub mod Modules
pub mod MultiString
pub mod Request
pub mod ReqQueue
pub mod UmServices
pub mod Hook
pub mod DriverCom
pub mod StringRefTable
