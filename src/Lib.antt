-- ===== src/Lib.antt =====
-- CLaMPI, a caching layer for the one-sided gets of MPI. `CMPI_Get` copies the data of a get from a
-- buffer if an earlier get of the same key has left it there. Otherwise it issues the get and makes a
-- place for the data in the buffer; the next `CMPI_Win_flush` copies them there. The
-- cache of a window (`cl_cache_t`) has a cuckoo hash table of the keys, a table of descriptors, of
-- which each is a region of the buffer, free or with the data of a get, in a doubly linked list in the
-- order of the offsets, and an AVL tree of the free regions by size.
--
-- The files. Paths in the comments are from the repository's root.
--   Prelude   tests, lists, integers.
--   Avl       src/AVL/AvlTree.c. `Avl` has trees and zippers: a pointer to a node is a path from the
--             root with the subtree below, so that writing through a parent pointer is a step up.
--             `Avl.Rotate`, `Avl.Rebalance`, `Avl.Pool`, `Avl.Insert`, `Avl.Delete`, `Avl.Search` and
--             `Avl.Walk` have the functions of the file, `Avl.Order` the comparison,
--             `Avl.Cells`, `Avl.Stack` and `Avl.Handles` the indices of the nodes.
--   Cache     src/clampi_internal.h, src/clampi.h: the records.
--   HashTable src/ht.h: `ht_insert_check`, `ht_insert`, `ht_lookup`, `ht_remove`, under their names.
--   Window    src/clampi_win.c, src/clampi_invalidate.c and the macros on descriptors.
--   Regions   src/clampi_get.c: the parts of `CMPI_Get` on regions. `evict` is the eviction with its
--             merges, `allocate` is the code from the split of a region on.
--   Victim    src/clampi_get.c: the scan for a victim.
--   Adapt     src/clampi_adaptive.c: `cl_adapt` and `cl_reset`.
--   Flush     src/clampi_win_flush.c: `CMPI_Win_flush`.
--   Access    src/clampi_get.c: `CMPI_Get` as a whole, named `get`, in the order of the code.
--   Memcpy    src/utils.c: `sse_memcpy`, with the loads and stores of its portions.
--   Statistics src/utils.c: `cl_get_stats` (`get_stats`), `cl_get_abs_victim`, `fast_rand`.
--   Setup     src/clampi.c, src/clampi_win.c, src/clampi_win_free.c: `cl_init` (`init`), `_cl_win_init`
--             (`init_cache`, `win_init`), CMPI_Win_free.
--   Tests     small inputs, and instances of the theorems.
-- Child modules have a part of their parent (`Regions.Evict`, `Regions.Allocate`, those of `Avl`), or
-- what is proved about it. `HashTable.Map` has the map from keys to entries that the table stands for.
-- `Regions.Layout` has the list of regions: descriptors linked in both directions, each at the offset
-- where the one before it ends. `Regions.Layout.Edit` has its two changes on any table of descriptors,
-- a region that is split and one that takes over the next; `Regions.Split`, `Regions.Taken`,
-- `Regions.Opened` and `Regions.Placed` are about the code of an allocation and the first,
-- `Regions.Join`, `Regions.Merged`, `Regions.Coalesce` and `Regions.Coalesced` about the merges of an
-- eviction and the second. `Regions.Sound` has the state between two gets: the list of regions
-- (`Layout`), the free ones in the tree with the links to their nodes (`Shelved`, `Hung`, `Tied`), the
-- stack of descriptors (`Stocked`); a number counts how often an element stands in a list (`count`).
-- `Regions.Merging` is the state in an eviction, whose steps `Regions.Drawn`, `Regions.Rejoined`,
-- `Regions.Joining`, `Regions.Absorbing`, `Regions.Finished`, `Regions.Secure` and `Regions.Eviction`
-- follow; `Regions.Divided`, `Regions.Allotted` and `Regions.Allocation` are about an allocation, `Regions.Selection`
-- about the choice of a region; `Access.Stored` puts the two together, and `Access.Returned` an
-- allocation, the flush and a later hit. The size of a region is its `size` if it is free and that
-- of its get if not; between a write of one and the change of its type, the proofs name the sizes
-- (`sizes`, `merging`).
--
-- The configuration is the one of the README, with statistics (CL_STATS) and the adaptive scheme
-- (CL_ADAPTIVE), without CLDEBUG and CL_BENCH, on a little-endian machine with 32-bit `int`. Numbers
-- are natural numbers with the reductions of their C types written out, except where the code adds
-- sizes and offsets inside the buffer, which 64 bits hold. Floating point is a parameter (`Double`)
-- about which nothing is assumed, but a total order where the least score is concerned
-- (`IsOrdered`). What `rand` draws, what `malloc` leaves in new memory and the extent of a
-- datatype are arguments. A call that exits, or whose assertion fails, is `none`.
--
-- Loops are structural recursions: those of the hash table on the rounds that their bound leaves,
-- those of the tree on the tree or the path. The scan for a victim has fuel for one pass over the
-- hash table and eleven rounds: it stops after a used slot and ten rounds, or when it has seen as many
-- used slots as there are.
--
-- A copy of the cache's data (MEMCPY, which is `sse_memcpy`) is `mem_copy` in the other files: the
-- buffer and the program's memory are different objects, so that it gives the bytes of `memcpy`,
-- for which `Memcpy` has the reason, or is `none` where the counter of `sse_memcpy` overflows. A hash
-- table has at least four slots: with fewer, the division by the size of a table is by 0 in C and not
-- here.
--
-- Not modelled: the MPI calls themselves, printing (Tree_Print, cl_print_stats, print_neigh), timing
-- and the statistics file; the tests and the build files.
pub mod Prelude
pub mod Avl
pub mod Cache
pub mod HashTable
pub mod Window
pub mod Regions
pub mod Adapt
pub mod Victim
pub mod Flush
pub mod Access
pub mod Memcpy
pub mod Statistics
pub mod Setup
pub mod Tests
