-- ===== src/Lib.antt =====
-- ZNCache: a cache of fixed-size chunks on a zoned (ZNS) or block device.
--
-- The program and its parts. Threads (src/zncache.c) take ids from a shared workload and call zn_cache_get
-- (src/cache.c). That asks the cache map (src/cachemap.c) whether the id has a place on the disk. On a hit
-- it reads the chunk; on a miss it claims a chunk from the zone state manager (src/zone_state_manager.c),
-- writes the data, gives the zone back and enters the place into the map. Each use is told to the eviction
-- policy (src/eviction/), which names the zone that is evicted where no zone is free. The map and the
-- policy for chunks use a table and a min-heap (src/minheap.c).
--
-- The files. Each opens with the source it is about, and its definitions carry the names of the C code.
-- - Base: tests, arrays, lists, and Run, the way a call ends: normally, at a failed assertion or an exit, at an
--   access outside an object, or with the fuel of a loop used up. `Returns P call` says that the call ends
--   normally with a value that satisfies P, so it excludes the other three.
-- - Glib: the queues and hash tables of GLib, with what their documentation says as laws, and an instance
--   of each that meets the laws.
-- - Zones: src/zone_state_manager.c. Zones has the state and the set-up, Zones.Calls the calls, Zones.Invariant
--   the invariant; Active, Return, Evict, Init and Numbers treat one call each, Keep how the invariant is
--   kept. Zones.System is the step relation of the calls by any number of writers, in any order, where the
--   commands that open and finish a zone succeed, and Zones.System.Safety what holds in every state that it
--   reaches.
-- - CacheMap: src/cachemap.c, with the agreement of its two tables in CacheMap.Invariant.
-- - Eviction: the calls that both policies know; Eviction.Lru the queue with its table of links, and
--   Eviction.Promotional src/eviction/promotional.c, compared with the history of calls.
-- - MinHeap: src/minheap.c.
-- - Eviction.Chunk: src/eviction/chunk.c over the queue, the heap, the zones and the map, with a chunk of the
--   pool for an address. Calls has the eviction and the garbage collection, Invariant the agreement of the
--   parts; Written, Update, Reads, Release and Evict are about how it is kept. Setup is the part of
--   src/eviction_policy.c for it; Faults and Moved are about where the garbage collection and the eviction go
--   wrong.
-- - Cache: src/cache.c. Cache.Disk has the loops over pwrite and pread, Cache.Buffer the buffers and their test,
--   Cache.Get zn_cache_get and zn_fg_evict as they are composed from the parts above. Cache.Get.Sound is the
--   invariant of a whole cache between two calls: `Sound` says that its zones, map and policy are in order and
--   agree, that no thread is in a call, and that the disk holds the data of every id that the map has a
--   location for. Surroundings are `Favourable` where the policy's mutex is free, there is memory, and the
--   zone commands succeed; reads and writes may still fail.
-- - Profiler: src/znprofiler.c.
-- - Program: src/zncache.c. Program.Workload reads the workload, Program.Threads is the task of a thread,
--   over an interface of what it needs of the cache, with the threads that main starts, run one after the
--   other, and Program.Evictor is the task of the thread that evicts.
--   Program.Setup has zn_init_cache and the promotional part of zn_evict_policy_init, and Program.Cached fills
--   the interface with the cache that they set up.
-- The modules called Tests apply the theorems at concrete states and run the code on small inputs.
--
-- How the code is modelled. Numbers are the native ones; a 32-bit or 64-bit integer keeps its wrap-around
-- written out, and a negative `int` is its bit pattern; a zone's number, which some calls take as an `int`, is
-- taken to be below 2^31. Arrays and memory are functions of an index or an address. A call that holds its mutex from its first access to its last is one step; where the code gives a
-- mutex up in between, the model has two steps (zn_cachemap_find, and the copy it returns). An argument
-- `asserts` tells whether assertions are enabled, since the build disables them by default.
--
-- Parameters: GLib (Queues, Links, Tables), the zone commands of libzbd (Zbd), pwrite and pread (Device), read
-- (Input), what malloc and posix_memalign return, and whether a mutex is free (Surroundings, Allocations,
-- Collection), and the arithmetic of `double` (Doubles). Each that has laws has an instance that meets them.
-- The build options (thresholds, MAX_IO, the profiling interval) are arguments.
--
-- Fuel. The loops of the heap have one round for each entry and one more; those over the disk have a round for
-- each byte, since every round moves at least one. The theorems show that this is enough. The loop of
-- read_workload gets fuel for the bytes and for the interruptions that are left. The loop of zn_cache_get that
-- asks for a zone has its fuel from the caller, and two rounds are enough for a thread alone. evict_task has
-- a round for each look at `done`. The garbage collection has its fuel from the caller.
--
-- Not modelled: main but for the threads that it starts (its options and the set-up of the device), the profiling task, zn_cache_get_hit_ratio and
-- zn_destroy_cache, the calls of the profiler within zn_cache_get, and the printing for debugging. The
-- garbage collection of the policy for chunks is defined whole, but treated only by its faults. The parts of
-- zn_cache_get are treated as one thread runs them while no other is in a call, and with the promotional
-- policy; what other threads may do in between is treated for the zones and for a lookup that an eviction
-- interrupts.
pub mod Base
pub mod Glib
pub mod MinHeap
pub mod Zones
pub mod CacheMap
pub mod Eviction
pub mod Cache
pub mod Profiler
pub mod Program
