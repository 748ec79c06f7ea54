-- ===== src/Lib.antt =====
-- libhp, a C library for network programs: buffered reading and writing on non-blocking descriptors,
-- message framing, the poll and epoll loops, timers, and helpers for texts.
--
-- How the parts work together. An event loop (src/hp_poll.c, src/hp_epoll.c) keeps a table of descriptors
-- with callbacks. A callback drives a reader and a writer on its descriptor (src/hp_io.c): the reader hands
-- the bytes that came in to a `data` callback, which takes messages off their front (src/hp_msg.c), and
-- the writer keeps a queue of blocks and sends them as the descriptor takes them. A timer
-- (src/hp_timerfd.c) is a descriptor of the epoll loop. Texts with variables are in src/hp_var.c, command
-- lines in src/hp_opt.c, configurations in src/hp_ini.c, and other texts in src/hp_str.c. Clients and
-- servers are built on src/hp_io_t.cpp, which joins the loop, the reader and the writer behind callbacks for
-- new connections, messages and errors. On Windows src/hp_iocp.c takes the place of the loop.
--
-- Which file models what:
--   Base        src/hp_io_t.cpp in the build for epoll: Base.Data is hp_io_t_on_data (`on_data`), Base.Conn
--               the event callback of a connection (`io_cb`) and hp_io_t_on_error (`on_error`), Base.Accept
--               that of a listening socket (`on_accept`), Base.Register hp_io_add (`io_add`), and Base.Api
--               the functions that pass a call on
--   Cache       src/hp_cache.c: hp_cache_get is `cache_get`; entries are on a heap
--   Common      numbers, lists, arrays in memory (memmove, lfind), tables as lists, words, integers
--   Msg         src/hp_msg.c: hp_pm_pack is `pm_pack`, hp_msg_header `msg_header`, hp_msg_new `msg_new`,
--               hp_msg_dup `msg_dup`; a buffer is the list of its bytes
--   Ini         src/hp_ini.c: hp_ini_exec is `ini_exec`
--   Expire      src/hp_expire.c: `expire_get`, `handle_timer`, `expire_uninit`
--   Iocp        src/hp_iocp.c: Iocp.Data is the state, Iocp.Items hp_iocp_add, hp_iocp_rm, hp_iocp_find and
--               hp_iocp_write (`iocp_add` and so on), Iocp.Messages hp_iocp_handle_msg (`handle_fd`,
--               `handle_io`), Iocp.Run hp_iocp_run, Iocp.Poller the table and the pass of the polling
--               thread, and Iocp.Search the binary search by id
--   Io.Os       writev and errno; the kernel's answers are a function of the number of the call
--   Io.Vec      src/hp_io.c, iovec_total_bytes, before_writev and hp_uio_write (`uio_write`)
--   Io.Write    src/hp_io.c, struct hp_wr (`Wr`): hp_wr_init, hp_wr_add, hp_wr_bytes, hp_wr_write,
--               hp_wr_clear, hp_wr_uninit under these names without hp_, hp_etio_del_n as `del_n`
--   Io.Read     src/hp_io.c, struct hp_rd (`Rd`): hp_rd_init, hp_rd_read, hp_rd_uninit
--   Poll        src/hp_poll.c: the table (`poll_init`, `poll_add`, `poll_rm`, `poll_find`); Poll.Table is
--               the table as a list of entries; Poll.Run is hp_poll_run (`run_once` for a mode other than
--               0, `run_forever` for mode 0)
--   Epoll       src/hp_epoll.c, likewise; the `hp_epolld` that entries point to are a heap, so that freed
--               ones are told from allocated ones; Epoll.Kernel is a kernel for the tests
--   Timerfd     src/hp_timerfd.c over Epoll
--   Net         src/hp_net.c: hp_tcp_listen, hp_net_udp_bind, hp_tcp_connect_addr, hp_tcp_connect2,
--               hp_net_socketpair, as the calls that each makes on a new descriptor; Net.Receive is read_a
--   Opt         src/hp_opt.c: hp_opt_argv is `opt_argv`
--   Pub         src/hp_pub.c: hp_pub is `pub_message`, hp_sub `sub`, hp_unsub `unsub`, hp_sub_ping `sub_ping`,
--               hp_subc_arg `subc_arg`; hp_sub_all_cb is `on_history`, hp_sub_session_cb `on_session`; the
--               heap holds the sessions and the nodes that their queries wait with
--   Stdlib      src/hp_stdlib.c: hp_lreserve and hp_iv_lfind
--   Str         src/hp_str.c: strlwr, strupr, myatoi, hp_str_find, hp_isblank, hp_vercmp, strnrchr; Str.Header is
--               hp_http_modify_header
--   Url         src/hp_url.c: hp_url_query is `url_query`
--   Var         src/hp_var.c: hp_var_do_replace is `do_replace`, hp_var_eval `var_eval`
-- The modules named Tests hold concrete runs.
--
-- State is passed explicitly: an operation takes the record that models its structure and returns it.
-- The system (writev, read, poll, epoll_wait, epoll_ctl, timerfd_settime, clock_gettime) and the client's
-- callbacks are parameters; what a theorem relies on of them is a record of named laws: `IsPosix` for
-- writev, `IsEpoll` for epoll_ctl, `IsParser` for a `data` callback, `IsPrompt` and `IsStable` for the
-- callbacks of a loop, `IsOrderly` for those of hp_iocp, `IsGentle` and `IsSilent` for those of hp_pub,
-- `Sorts` for qsort, `IsDict` for the dictionaries of redis. Callbacks
-- that only report (read_error, write_error, free, hp_iostat_update) are
-- lists of the calls made.
--
-- Numbers are natural numbers. size_t arithmetic wraps at 2^64 where the code adds to a counter or
-- computes a length, hp_wr_bytes is cut to an int, and hp_pm_pack reads before its buffer where its int
-- is negative; myatoi and hp_str_find are `none` where they overflow, and the ints of
-- hp_http_modify_header are exact only below 2^31. Capacities (I_BUF_MAX, O_ITEMS_LEN, nfds) are not
-- cut: the code keeps them in an int, and a table or a buffer of 2^31 entries is out of its reach.
-- malloc and realloc are taken to succeed, as the code takes them, and what malloc returns holds is a
-- parameter.
--
-- Fuel. A loop whose rounds depend on the system runs on fuel, `none` when it runs out. pm_pack gives
-- itself one round for each byte and one more, since each round drops a byte, and replace_loop does the
-- same. uio_write and wr_write are bounded by the bytes and items that are left, rd_read by the number of
-- answers until the kernel has no more bytes, the scans of an event loop by the size of the table, on_data
-- by the bytes that are buffered, on_accept by the connections that the kernel has, bsearch by the
-- number of ids, and read_a by the room in the buffer.
-- The theorems give the fuel that is enough.
--
-- The messages between the two threads of hp_iocp are a list, in the order in which they are posted; the
-- polling thread takes them from its front at any time, which is after any step of the other thread.
--
-- Not modelled: the allocators, logging, and the tests in the sources; hp_poll_e2str and hp_epoll_e2str;
-- the variants of hp_io_t for poll and for completion ports; the start and the end of the threads of
-- hp_iocp; hp_redis, which only calls hiredis; the parts over other libraries (paho, mysql, Berkeley DB, OpenSSL, zlib, cJSON,
-- http-parser); the other helpers of src/hp_str.c, the other socket helpers of src/hp_net.c and the other
-- small files, which keep no state that these parts use; the decoder in src/hp_url.c, which is a copy from
-- libfastcommon; and include/hp/klist.h, the list of the Linux kernel.
pub mod Base
pub mod Cache
pub mod Common
pub mod Epoll
pub mod Expire
pub mod Ini
pub mod Io
pub mod Iocp
pub mod Msg
pub mod Net
pub mod Opt
pub mod Poll
pub mod Pub
pub mod Stdlib
pub mod Str
pub mod Timerfd
pub mod Url
pub mod Var
