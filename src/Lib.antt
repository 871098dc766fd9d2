-- ===== src/Lib.antt =====
-- A model of the key-value server under ownRedisUsingCpp/: its data structures and the path of a
-- request through a connection.
--
-- The program keeps all keys in a hashtable (hashtable.cpp), the expiry times in a heap (heap.cpp)
-- and sorted sets in an AVL tree and a hashtable (avl.cpp, zset.cpp). main in server.cpp polls
-- nonblocking sockets; connection_io fills the read buffer of a connection, parses the requests in
-- it, runs their commands and flushes the responses.
--
--   Base        shared names, lists over native numbers, Run (a value, a fault or no fuel), integers
--   Memory      nodes at addresses, and commands that read and write them
--   Heap        heap.h, heap.cpp: the array heap, whose items point to the index of their owner
--   Ttl         entry_set_ttl and next_timer_ms (which main does not call) of server.cpp, on the
--               heap and the indices of the entries
--   Avl         avl.h, avl.cpp: Avl/Tree has the abstract trees, Avl/Shape their form in memory,
--               Avl/RotLeft, RotRight, Fix and Loop follow the code, Avl/Insert ends an insertion
--   HashTable   hashtable.h, hashtable.cpp: two tables with progressive resizing
--   Wire        parse_req and out_* of server.cpp, send_req of client.cpp, str_hash of common.h
--   Conn        struct Conn and the state machine of server.cpp from connection_io on
--   Keyspace    g_data, do_get, do_set, do_del, do_expire and do_ttl of server.cpp with entry_del, on
--               HashTable, Ttl and Wire; Keyspace/View is the map from keys to entries
--   Keys        h_scan and do_keys of server.cpp, on HashTable
--   Client      read_full, write_all, on_response and read_res of client.cpp; Client/Reply has the
--               replies
--   Pool        thread_pool.h, thread_pool.cpp: the steps of the workers and of thread_pool_queue
--   DList       list.h: the intrusive ring as a list
--   Zset        zless, tree_add, zset_lookup and zset_query of zset.cpp, on Avl and HashTable
--
-- A failed assertion, a read of NULL or past the end of an array is the result `fault`. Machine
-- integers wrap by `% 2 ^ w`. Where the code may not end on its own, a loop has fuel: heap_up and
-- heap_down get one round for every index, hm_help_resizing one for every slot and node that it may
-- pass, the loop of try_one_request one more than the bytes in the buffer. avl_fix takes its fuel
-- as an argument, and a path of that many nodes is what it suffices for; so do tree_add and
-- zset_query, for a tree of a smaller height. on_response gets one more round than its message has
-- bytes, since an array within an array takes five. client.cpp does not compile, since its SER_ARR
-- and common.h's SER_DBL are both 4; on_response takes an argument that says which of the two cases
-- 4 selects. The results of read() and write() are lists; at their end the call would block.
-- strtoll, the clock and the address of a new entry are arguments. The heap holds fewer than 2^62
-- items and a map fewer than 2^60 nodes, which the address space bounds.
--
-- Not modelled: the commands on sorted sets and do_request, the other functions of zset.cpp, the
-- connections' moves in the idle list, the connection table and main's loop, process_timers, and
-- the programs of the other directories.
pub mod Base
pub mod Memory
pub mod Heap
pub mod Ttl
pub mod Avl
pub mod HashTable
pub mod Wire
pub mod Conn
pub mod Keyspace
pub mod Keys
pub mod Client
pub mod Pool
pub mod DList
pub mod Zset
