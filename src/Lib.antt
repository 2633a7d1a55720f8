-- ===== src/Lib.antt =====
-- Verification of the analyzer of Foren6, which listens to a 6LoWPAN network and rebuilds the state
-- of its RPL routing from the packets.
--
-- The program. A circular buffer for the inputs of sniffers (src/circular_buffer.c) is there for
-- plug-ins. The parser (src/packet_parsers/rpl_parser.c) turns dissected packets into the records of
-- src/data_info/rpl_def.h; the collector (src/data_collector/rpl_collector.c) calls the operations
-- on the nodes, links and DODAGs that a packet is about (src/data_info). An object that changes
-- puts one event into a queue (src/data_collector/rpl_event_callbacks.c); for the objects in the
-- queue a new version of the network is stored (src/data_info/rpl_data.c), and the differences
-- between two versions are computed for display.
--
-- The model.
--   Prelude: shared names, tests, lists, words of a fixed width, masks; `Double` is an interface,
--     for there is no floating point.
--   Utlist: the list macros of utlist.h as an interface of operations and laws. utlist.h is another
--     project's file; lists without pointers show that the laws can hold.
--   Address (src/data_info/address.c): an IPv6 address is four 32-bit words in the byte order of the
--     network on a little-endian machine, a MAC address a 64-bit number. An `int` result is its
--     32-bit pattern. Address/Compare: the comparisons; Address/Autoconf: configured addresses;
--     Address/Masks: the masks of the first bits.
--   RplDef (src/data_info/rpl_def.h, rpl_def.c): Types, Init, Update, then Delta for configurations,
--     prefixes and data, Errors, Statistics; Compare is about the comparisons. A `NULL` argument is
--     `none`. An out parameter is the result, with its previous content an argument where the code
--     leaves a part of it.
--   SixlowpanDef (src/data_info/6lowpan_def.h, 6lowpan_def.c) in the same way.
--   CircularBuffer (src/circular_buffer.c): the data is a list of bytes, a pointer into it an
--     offset. Memory: reads and writes; Inv: the invariant; Queue: the specification; Window and
--     Refine: the refinement; Pointer: what a reader may rely on. Sizes are numbers that are not negative;
--     the product that is allocated wraps to 32 bits.
--   Route (src/data_info/route.c): a table is the list of its elements. Target: targets that are one
--     network; Add, Flag and Remove: the operations.
--   Refs (node.h, link.h, dodag.h, rpl_instance.h of src/data_info): the references of objects, which
--     are keys of hash tables; `memcmp` of keys is a test of the interface `Key`.
--   Uthash: the table macros of uthash.h as an interface, over the sequence of the elements in the
--     order of `hh.next`; Uthash/Assoc: keys with values. uthash.h is another project's file.
--   HashContainer (src/data_info/hash_container.c): an element pointer is a position in the table, or
--     the address of an element that was freed. Iterator: iterators; Contents: a container as a map;
--     Walk: loops. The lock is left out: an operation is modelled as it runs while it holds it.
--   RplEvent (src/data_collector/rpl_event_callbacks.c): the queue and the functions that add to it.
--   Metric (src/data_info/metric.c): types of metrics.
--   Link (src/data_info/link.c): a state is the link and the queue. Loops: the loops over all links;
--     Deprecate and Clear: what they do; Events: what an update does.
--   Dodag (src/data_info/dodag.c): a state is the DODAG and the queue. Members: the nodes of a DODAG;
--     Join: what adding a node does; Operations: sequences of calls; Events and Once: when a DODAG is
--     reported; Zero: cleared parts.
--   RplInstance (src/data_info/rpl_instance.c) in the same way; Dodags: the DODAGs of an instance.
--   RplData (src/data_info/rpl_data.c): `Versions` are the working objects of a kind, the copies made
--     of them and the tables of the versions; `add_version` is the loop that the four functions
--     `rpldata_add_*_version` share, and Kinds gives what differs. Snapshot and Turns: the loop; Invariant: what
--     holds between two versions; Objects: how objects are found and created; Wsn: the versions of
--     the whole network.
--   Commit (rpl_event_callbacks.c): the queue makes new versions and is reported; Progress: how many.
--   DescriptorPoll (src/descriptor_poll.c): the table of descriptors, with `select` as a parameter and
--     any callbacks; Counted: the counter of the slots in use.
--   ParserRegister (src/packet_parsers/parser_register.c): the list of the parsers.
--   Node (src/data_info/node.c): a state is the node, its copy in the last version, which
--     `node_update_old_field` writes, and the queue of events. Base: flag and identity; Ip: addresses
--     and counts; Addresses: what is recorded of an address; Rpl: what messages say; Errors:
--     counters; Delta: new, copied and compared nodes; Getters; Hidden: errors that a version does
--     not show; Operations: sequences of calls; Events and Once: when a node is reported; Sample: a
--     new node.
--
-- Loops over a fixed range or over the elements of an unchanged list are recursion over them. The
-- loops of Link/Loops and `hash_dup` go by iterators and have fuel; each turn passes or removes an
-- element, so that one unit more than there are elements is enough, which is proved.
--
-- Not modelled: the collector and the parser; `rpldata_clear`; `dodag_set_nodes_changed` and getters that only return a field; memory allocation except in
-- `circular_buffer_create`; the release of memory; user data; plug-ins, processes and files.
pub mod Address
pub mod CircularBuffer
pub mod Commit
pub mod DescriptorPoll
pub mod Dodag
pub mod HashContainer
pub mod Link
pub mod Metric
pub mod Node
pub mod ParserRegister
pub mod Prelude
pub mod Refs
pub mod Route
pub mod RplData
pub mod RplDef
pub mod RplEvent
pub mod RplInstance
pub mod SixlowpanDef
pub mod Uthash
pub mod Utlist
