-- ===== src/Lib.antt =====
-- mpt-base: a C library for messages, configuration, value conversion and plotting.
--
-- The program's parts. mptcore holds the data structures: byte queues (queue), arrays (array), nodes
-- (node), configuration with its paths (config), conversions and stream encodings (convert), messages
-- (message), types, objects, events and a parser. mptio puts streams and connections on the queues,
-- mptplot layouts and values on the objects, mpt++ and lua are interfaces to the library. A connection
-- encodes a message with an encoder of convert into a queue, marks it by an identifier of message, and
-- reads the other side's messages part by part; this development models that core.
--
-- The files.
--   Prelude            numbers, lists, errors, memory as a function from addresses to bytes, C integers.
--   Queue              mptcore/queue.h and mptcore/queue: the ring buffer. Queue.antt has its segments,
--                      crop, get and set; Queue/Ends qpost.c, qpre.c, qpush.c, qunshift.c, qshift.c and
--                      qpop.c; Queue/Align queue_align.c and queue_resize.c. Queue/Contents has the
--                      sequence of bytes that a queue holds; the other children have the proofs. The
--                      queue's rotation is the one of Memory. Queue/Receive is queue_recv.c and
--                      queue_shift.c, with a decoder such as that of Convert/Cobs/Decode.
--   Memory             mptcore/queue/memrev.c: mpt_memswap and mpt_memrev.
--   Convert            Convert/Int is mptcore/convert/data_convert_int.c and mptcore/types/type_int.c;
--                      Convert/Cobs is mptcore/convert/encode_cobs.c, with the encoding and its decoder
--                      apart from the code in Convert/Cobs/Reference, and Convert/Cobs/Decode
--                      mptcore/convert/decode_cobs.c with the formats of COBS and of decode_cobs_zpe.c.
--   Array              mptcore/array: buffers with their references, and the arrays that share them.
--                      Array.antt has buffer_set.c, buffer_insert.c, buffer_cut.c, buffer_data.c and the
--                      allocation; Array/Shared buffer_alloc.c with mptcore/misc/refcount.c,
--                      array_clone.c, array_reduce.c, array_slice.c, array_insert.c and array_append.c;
--                      Array/Replace array_set.c and array_reserve.c. Array/Calls and Array/Reach put the
--                      calls of a program together; the other children have the proofs.
--   Types              mptcore/types/type_traits.c: Types.antt has the registry, Types/Chunks and
--                      Types/Add the generic types, Types/Names and Types/Metas the metatypes and
--                      Types/Interface the interfaces, each with its initialisation at the first call.
--   Event              Event/Command is mptcore/event/command_get.c and command_set.c.
--   Bitmap             mptcore/array/bitmap.c.
--   Message            Message/Id is mptcore/message/message_id.c, Message/Read is message_read.c,
--                      Message/Get message_get.c.
--   Config             Config/Path is mptcore/config/path_set.c, path_next.c and path_last.c.
--   Node               mptcore/node: gnode_after.c, gnode_before.c, gnode_pos.c, gnode_swap.c and
--                      node_unlink.c, and node_insert.c with the search by position. Node/Traverse is
--                      gnode_traverse.c and gnode_level.c, Node/Links the invariant of the links, and
--                      Node/Order the list of nodes as a sequence.
--   Hash               mptcore/misc/hash.c, hash_djb2.c and hash_smdb.c.
--
-- Names. A definition has the name of the C function without `mpt_`, a field that of the C field; the
-- branches of a long function are helpers named for what they do.
--
-- State. A C function that changes its arguments returns them. A negative result is an error of
-- Prelude/Errors; an access outside of an object, a read of what was never written and a division
-- by zero are the outcome `fault`. Sizes are 64 bits wide and their differences wrap around. The
-- int of 32 bits that holds a size is `as_int` of Prelude/Int in qpush.c, qunshift.c, path_next.c,
-- path_last.c and message_id.c, and a count that exceeds it is a fault in path_set.c; other results are
-- taken to be wide enough.
--
-- Bounds and fuel. A queue is smaller than 2^63 bytes, so that no sum of an offset and a length
-- wraps, and a size to prepare is at most 2^61. The lengths in arrays are below 2^62, which leaves
-- room for a block's header and rounding, and a count of references below its limit of 2^64 - 1.
-- The rotation has fuel for one step per byte and one more: each step takes a byte or more off the
-- two areas. The decoder has fuel for one round per block, each of which takes a byte at least off
-- an element of fewer bytes. The end of a list of nodes is found with fuel for its nodes, and a
-- traversal has fuel for twice the nodes of the forest, one for each node and one for each list of
-- children. The hash of a string has fuel for one more step than it has characters, and the loop
-- that reads an identifier for two rounds, as the wrapped length ends the second. All other loops
-- are structural.
--
-- Parameters: the address and bytes of a block that malloc gives, the decoder of a queue, the
-- handler of a traversal, isgraph of the C library, whether the build has the extended float type,
-- whether realloc and malloc have memory for a size, and the result of strlen. The data model is
-- the 64-bit one of the usual systems. A caller's buffer is as long as the call says.
--
-- Not modelled: the other codecs, the queue that runs an encoder, array content of types with a
-- constructor or destructor, the array functions that format or encode, the search of nodes by
-- identifier and their allocation, the parser, the built-in core types of the registry,
-- objects, metatypes and the dispatch of events, which are left for extensions; and mptio,
-- mptloader, mpt++, lua and the examples, which are system calls, bindings and uses of the library.
pub mod Prelude
pub mod Convert
pub mod Memory
pub mod Queue
pub mod Types
pub mod Event
pub mod Array
pub mod Bitmap
pub mod Message
pub mod Config
pub mod Hash
pub mod Node
