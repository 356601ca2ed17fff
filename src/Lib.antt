-- ===== src/Lib.antt =====
-- A model of the cache reuse-distance analyzer of this repository, in the parts of its C++ backend
-- (backend/src and backend/include) that compute: addresses, cache lines, reuse distances, the
-- summaries of a cache hierarchy, its configuration, and the limits on the work of a trace.
--
-- The parts and their files:
--   Bits          `is_power_of_two` of cache/mapping/address.cpp, and `slot & (~slot + 1)` of the
--                 Fenwick trees (Bits/Lowbit).
--   Mapping       cache/mapping/address.cpp (Mapping/Address), cache/mapping/line_mapping.cpp
--                 (Mapping/LineMapping) and trace/output/resolved_mapping.cpp (Mapping/Resolved).
--   Rd            the streaming analyzer of one level: the recency index of cache/rd/
--                 recency_index.cpp (Rd/RecencyIndex, with its two loops in Rd/Fenwick and its hash
--                 map in Rd/Slots), exact_csrd.cpp (Rd/Exact) and csrd_statistics.cpp
--                 (Rd/Statistics). Rd/History and Rd/Exact/Specification hold what it must compute.
--   Hierarchy     cache/streaming and cache/hierarchy/hierarchy_service_summary.cpp: a task that
--                 looks up each line in the first level and forwards its misses to the last, and
--                 the analysis of a module of tasks (Hierarchy/Streaming).
--   Batch         cache/rd/batch_csrd.cpp, cache/hierarchy/hierarchy_level_analysis.cpp and
--                 hierarchy_aggregation.cpp: the same analysis over whole vectors; trace/output/
--                 resolved_access.cpp and mapped_trace.cpp collect and map the tasks of a module
--                 (Batch/Traces), and cache/hierarchy/hierarchy_analysis.cpp analyzes them all
--                 (Batch/Module).
--   Reuse         reuse/profile.cpp: the distances of a trace of names, without sets.
--   Cli           cli/options.cpp: the arguments of an invocation (Cli/Options).
--   Elf           elf: the regions of the program headers (program_regions.cpp, Elf/Regions), the
--                 regions and symbols of an image (data_regions.cpp, Elf/Images), and the address
--                 model of its symbols (object_addresses.cpp, Elf/Addresses).
--   Config        cache/config/cache_config.cpp and cache/hierarchy/hierarchy_model.cpp.
--   Trace         trace/execution: the budgets, the iteration count of a loop, the execution of
--                 prepared nodes (Trace/Execution); trace/index and trace/layout: affine
--                 expressions, the indices prepared from them, and layouts (Trace/Affine,
--                 Trace/Index, Trace/Layout); trace/output/
--                 task_access_stream.cpp: the accesses of a module, task by task (Trace/Stream);
--                 trace/access/access_resolver.cpp: the bytes of an access in the object that it
--                 names (Trace/Access).
--   Output        cache/output: the checks of events, results and measurements (Output/Events,
--                 Output/Results, Output/Telemetry).
--   Prelude       lists, tests, results and maps that the others share. Tests applies the theorems
--                 to concrete inputs.
--
-- An address is decoded under the geometry of a level (Mapping), the analyzer of the level observes
-- its block in the recency index of its set (Rd), and the task counts where each line was served
-- (Hierarchy). The configuration gives the two geometries, and the budgets bound the lines. The
-- source stream (Trace/Stream) calls back the driver of the module (Hierarchy/Streaming), and what
-- the driver delivers and returns is checked before it is written out (Output). The batch analysis
-- collects the same stream first (Batch/Traces), and validates what it collected.
--
-- Numbers. A `std::uint64_t` or a `std::size_t` (64 bits) is a natural number; an addition that the
-- source does not check is taken modulo 2 ^ 64, a subtraction that may wrap has 2 ^ 64 added. A
-- `std::int64_t` is a sign and a magnitude (Trace/Loop); the signed counts of the batch tree are
-- kept modulo 2 ^ 64. A ratio of doubles is kept as its two counts.
-- Errors. A function that throws returns a `Result`, whose exceptions are named by their C++ class;
-- messages are dropped.
-- Containers. A hash map or a `std::map` is an association list; a vector is a list. What the
-- containers can hold at most, and the capacity that a vector takes, is `Platform`, the clock of a
-- measured compaction is `Clock`, and the bucket count of a hash map is an argument: they are not
-- code of the repository.
-- Callbacks. A `std::function` is an `Option` of a function over a state of the caller.
-- Parameters. The readings of the clocks are functions of their number; the evaluation of a source
-- access with its resolution is `Resolve`, which `resolver` of Trace/Access gives for the objects
-- of a linked program and the metadata of layouts, `AccessLayouts`; what the object-file library
-- reads of a linked program is `ElfInput`; the sign and the equality of two doubles are arguments of
-- the checks of a result.
-- Fuel. The loop of `for_each_cache_line` has one round for each byte, as each consumes one or
-- more; the loops of the Fenwick trees have one round for each slot, as the slot moves in each. The
-- walk of the configuration has two rounds more than there are caches, since a name that comes
-- again throws; the parser of affine expressions has one round for each byte, as each term consumes
-- one or more. Running out of rounds would be a `logic_error`, which the last two never throw.
--
-- Not modelled: the preparation of a trace node, the traces by blocks,
-- the expansion of calls, the resolution of layouts, JSON and YAML, the output of the
-- command and the Python tools, which read files or walk trees of a third-party JSON library.
pub mod Batch
pub mod Bits
pub mod Cli
pub mod Config
pub mod Elf
pub mod Hierarchy
pub mod Mapping
pub mod Output
pub mod Prelude
pub mod Rd
pub mod Reuse
pub mod Tests
pub mod Trace
