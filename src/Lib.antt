-- ===== src/Lib.antt =====
-- The CUTIE rendering hardware interface gives applications one interface, include/cutie/cutie.h, to
-- Direct3D 11 and 12, Vulkan and OpenGL. Applications record command lists; the backends translate
-- them, and while they do so track the states of resources and collect the barriers that the graphics
-- card needs. A validation layer wraps a device and its command lists, checks every call, and
-- forwards it if it is sound. This library models the parts that are the same for all backends, and
-- the allocators and queues inside the Vulkan and Direct3D 12 backends, where memory, versions,
-- descriptors and command buffers are handed out and come back.
--
-- Files:
--   Base and its children: tests on native numbers, lists, association lists, loops over `uint32_t`
--     ranges, and bit operations.
--   Versioning: src/common/versioning.h, the version words of objects in flight.
--   Resources, ResourceStates: the descriptions of resources and the states of
--     include/cutie/cutie.h.
--   Subresources: `TextureSubresourceSet`, `TextureSlice` and `BufferRange` of src/common/misc.cpp.
--     `max(0u, last - base)` is kept as written, in 32 bits.
--   Tracking: src/common/state-tracking.cpp, all operations of `CommandListResourceStateTracker`, on
--     buffers (Buffers), on textures (Textures), and `commandListSubmitted` (Submit). Resources are
--     numbers; `World` holds what pointers to them lead to. The other children hold the proofs:
--     BufferBatch to BufferPermanent for buffers, TextureReplay to TextureStates for textures.
--     `replay_buffer` and `replay_subresource` are the graphics card: they execute a batch of
--     barriers in order and fail at a barrier that names a state that the resource is not in; a
--     barrier of a buffer between equal states has to name flags of its state.
--   Validation: src/validation/validation-commandlist.cpp. Guards are the shared checks, Lifecycle
--     is open, close and execute, Resources, Bindings, Graphics, Compute and PassThrough are the
--     recording operations, Commands puts them in sequence; Protocol describes independently
--     what the wrapped list may see, and Forwarding, Draws, ResourceCalls, StateCalls and
--     Refinement hold the proof. Immediate, Unchanged and Fleet are about the counter of open
--     immediate lists that the lists of a device share. Execute is `executeCommandLists` of
--     src/validation/validation-device.cpp, Submission and Refusal what it accepts and refuses.
--     Geometry and AccelStructs are the builds of acceleration structures, GeometryBounds and
--     Rebuilds what holds of them.
--   Common: include/cutie/common/misc.h, `align`.
--   Uploads: src/vulkan/vulkan-upload.cpp, the managers of upload and scratch memory. Pool and Bounds
--     are about one call; Recording puts calls, submissions and completions in sequence, with the
--     pieces that are in use beside the code's state, and Sound, Start, Calls, Renewal and
--     Exclusive hold the proofs about these; Reuse is about memory that comes back. Scratch is
--     src/d3d12/d3d12-upload.cpp, Best the search there for a chunk to take over.
--   Queues: src/vulkan/vulkan-queue.cpp, command buffers, submissions and lifetime trackers. Recording
--     puts the calls of all command lists of a queue in sequence; Counts says how often the lists
--     of a queue hold a command buffer, and Places, Collect, Order and Poll hold the proofs.
--   Descriptors: src/d3d12/d3d12-descriptor-heap.cpp. Search, Marks, Growth and Allocation are
--     about one call. Clients puts the calls of all clients in sequence, with the ranges they hold
--     beside the heap, Live and Reliable hold the proofs about these. A call of a null pointer has
--     no result.
--   VolatileBuffers: the versions of volatile buffers of src/vulkan/vulkan-buffer.cpp. Words says
--     which words can be claimed, by who wrote them. Search and Claims are about the loop of
--     `writeVolatileBuffer`, one `Attempt` per round; what other threads do is in the words that a
--     round sees and finds. Ranges, Lifecycle and Submission are about the writes of a recording,
--     their flush and their submission.
--   DeviceWrapper: src/validation/validation-device.cpp, the checks of heaps, textures (Textures),
--     buffers (Buffers) and of the memory that is bound to them (Memory).
--   Bindings: src/validation/validation-device.cpp, the places that the items of a binding layout take
--     (Duplicates) and the checks of binding layouts (Layouts, with their proofs in Checks).
--   Examples: concrete runs.
--
-- The driver is a parameter: the handles it returns, whether a creation succeeds, and the values of
-- semaphores are arguments of the definitions (`Uploads.Device`, `DxDevice`, `Descriptors.Driver`, the
-- `value` of a semaphore).
--
-- Functions have the names of the source in snake case; `open` and `close` are
-- `open_command_list` and `close_command_list`. Loops are structural recursions or go over
-- ranges of numbers, so that nothing needs fuel; the rounds of the loop of `writeVolatileBuffer` are
-- given as a list. Arithmetic of the source in 32 or 64 bits is taken
-- modulo 2^32 or 2^64. Unordered maps have the order of insertion here.
--
-- Not modelled: the rest of the backends, which translate calls into those of a graphics library;
-- the checks of framebuffers, pipelines, bindless layouts and binding sets in
-- src/validation/validation-device.cpp; the cluster operation and the conversion of cooperative
-- vector matrices in the command list wrapper; texts of messages; warnings of the acceleration
-- structure builds and structures that are not wrapped; the lifetime of objects (reference counts);
-- threads, but for the exchanges on the words of volatile buffers.
pub mod Bindings
pub mod Base
pub mod Common
pub mod Uploads
pub mod Queues
pub mod Descriptors
pub mod VolatileBuffers
pub mod DeviceWrapper
pub mod Versioning
pub mod Resources
pub mod Subresources
pub mod ResourceStates
pub mod Tracking
pub mod Validation
pub mod Examples
