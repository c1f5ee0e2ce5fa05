-- ===== src/Lib.antt =====
-- GNUWeebBot2: the concurrent core of the Telegram bot, a work queue with lazily started worker
-- threads and a submission and completion ring on top of it, the main loop, the parsers of
-- updates, and the modules that handle them.
--
-- The parts and the files:
-- - Common: shared names. Common/Word has the `uint32_t` arithmetic (wrap-around written as a
--   remainder), Common/Circular what the arrays indexed by `counter++ & mask` hold, Common/Family
--   totals over threads, Common/Errno the status values.
-- - RoundUp: the loop that rounds a size up to a power of two, in core/workqueue.c and core/ring.c.
-- - Workqueue: core/workqueue.c and include/gw/workqueue.h. Workqueue/Attr is
--   validate_and_adjust_workqueue_attr; Workqueue/Spawn get_free_worker_slot, arm_spawn_worker and
--   arm_worker; Workqueue/Submit queue_work; Workqueue/WaitAll wait_all_work_done;
--   Workqueue/Worker wait_for_event and worker_func; Workqueue/Destroy destroy_workqueue;
--   Workqueue/Alloc alloc_workers and alloc_workqueue. Workqueue/System puts the threads together; Workqueue/Hired,
--   Workqueue/System/Manned and Workqueue/System/Joined are about runs in which thread_create
--   succeeds, Workqueue/System/Wake about the signals that steps send.
-- - Ring: core/ring.c and include/gw/ring.h. Ring/Prep is gw_ring_get_sqe and the functions that
--   fill a submission; Ring/Complete post_cqe, gw_ring_wait_cqe and the consumer's side; Ring/Submit
--   gw_ring_submit and the callbacks that the work queue runs; Ring/Init gw_ring_init and
--   gw_ring_destroy. The ring uses a work queue through the interface `IoWq`, which Ring/Pool fills
--   with that of core/workqueue.c. Ring/System puts the ring, the work queue of Workqueue/System, the
--   caller of gw_ring_submit, the callbacks and a reader of completions together, step by step;
--   Ring/System/Paced, Staffed and Quiet are about runs with few submissions ahead, runs in which
--   thread_create succeeds, and how many steps bring a submission further.
-- - Modules: modules/module.c, include/gw/module.h and modules/ping/ping.c. A hook is a function on a
--   world that stands for all that it can read and change. Modules/Parsed puts the ping module behind
--   the parsers of Tgapi.
-- - CurlData: tgapi_curl_write of lib/tgapi.c, the growing buffer of a response.
-- - CurlHandles: lib/curl.c, the list of handles and its growth; CurlHandles/Global the start and the
--   end of the HTTP client, with its error labels.
-- - Tgapi: the parsers of lib/tgapi.c and the structures of include/gw/lib/tgapi.h. Tgapi/Object is
--   tgj_get_user to tgj_get_update, Tgapi/Parse parse_json, tgapi_parse_update_len,
--   tgapi_parse_updates_len_max and tgapi_free_updates, Tgapi/Release tgapi_free_update,
--   tgapi_inc_ref_update and tgapi_free_message, Tgapi/Memory the blocks in use and the references
--   to objects of json-c. Tgapi/Owned is about the blocks of a message. Tgapi/Call is curl_http_get,
--   tgapi_call_get_updates and tgapi_call_send_message, on CurlHandles, CurlData and Tgapi/Parse.
-- - Bot: core/main.c and `struct tg_bot_ctx` of include/gw/common.h. Bot/Arm is arm_update_sqe and
--   prep_update_handle, Bot/Updates process_tg_api_updates and process_cqe, Bot/Loop
--   run_tg_bot_loop, Bot/Run run_tg_bot, Bot/Main main; the bot works on the ring of Ring and on the updates of Tgapi.
-- - Print: __gw_print of core/print.c, with what vsnprintf leaves of its va_list.
-- - Threads: core/thread.cc where CONFIG_CPP_THREAD is set. Threads/Objects is the memory of its objects,
--   Threads/Wait what a wait does to its mutex.
--
-- The state. A queue is the record `Workqueue`, with the fields of `struct workqueue_struct` but
-- for the lock and the condition variables, which hold no data. Functions that run under
-- work_list_lock are functions from queue to queue; where one waits on a condition variable it is
-- cut into laps, one for each stretch under the lock. A step of `System` is one such stretch of
-- one thread, so that its runs are all interleavings. A wait may end at any time, as POSIX allows,
-- so safety needs nothing from the signals, and no run waits for one: a wake-up that the code forgets
-- does not show in the steps, only in the signals, which are part of the result of a step.
-- Counters are `uint32_t` and wrap. A read outside an array, a failed assertion and fuel that runs
-- out give `none`, and the theorems say where none of these occurs.
--
-- A ring is the record `GwRing`, with the fields of `struct gw_ring`; a submission is a data type
-- with one constructor for each member of the union of `struct gw_ring_sqe`; addresses are of any
-- type. gw_ring_submit is modelled twice: as one run, without what the workers post in the meantime,
-- and as laps of a step of `RingStep`, between which every worker, the reader of completions and a
-- thread in gw_ring_wait_cqe take theirs. A `Machine` also holds the history: the submissions
-- filled, those not issued, those whose completion found no room, and the completions posted and
-- given back. It has one caller of gw_ring_submit and one reader, as core/main.c has.
--
-- An update of Tgapi is the record of the fields that the code sets; a pointer to an object is the
-- number of its block with the object, and `Memory` lists the blocks in use. Each function that
-- allocates or frees takes the memory and gives it back, so that its error labels show in the list.
--
-- Parameters here: the results of the pthread calls, of malloc, calloc and realloc, of libcurl, of
-- vsnprintf, and what the callbacks of the ring and the hooks of modules do. json-c is the record
-- `JsonC` of its functions on objects of any type, and a tokener is what its calls return in order.
--
-- Bounds and fuel. The doubling loop has 31 tests as fuel, one for each power of two from 2 to
-- `2 ^ 31`, the largest that a `uint32_t` holds. The loop of clear_pending_works has one lap more
-- than there are works, the loop of gw_ring_submit one more than submissions, and a visit of the
-- completions one more than completions. The loop of parse_json ends when json-c says so: its fuel is
-- any number of calls that it needs.
--
-- Not modelled: wake-up order and fairness of the scheduler, and what the code only passes to the C
-- library or to pthread.
pub mod Common
pub mod RoundUp
pub mod Workqueue
pub mod Ring
pub mod Modules
pub mod Bot
pub mod Print
pub mod Threads
pub mod Tgapi
pub mod CurlData
pub mod CurlHandles
