-- ===== src/Lib.antt =====
-- s4-libLite: market codes, the queue of frames that recycle themselves, the receiver of the level-2
-- feed, dates, the search for JSON objects, strings, the conversions of numbers, URLs, the
-- semaphore, the logger, the search for files, and the signals.
--
-- The receiver (source/network/L2_udp_recver_th_native.cpp) reads datagrams of the feed, counts the
-- messages in them, and copies those whose market code (source/common/s4mktCode.cpp) is wanted into
-- frames of a queue (include/queue/simpleQ_mpmc_ar.h), from which consumers take them. A frame goes
-- back to the pool of the queue when the consumer's handle ends.
--
-- - MktCode: `pureCodeStr_to_mktCodeStr` and the ten conversions beside it are the functions of
--   MktCode.Convert, in their order and with the names in small letters, and `isStk` and its like
--   those of MktCode.Classify, `_str` or `_int` by what they take. An exception is `err`, and a read
--   behind the end of a string is `out_of_bounds`. A `uint32_t` is a number below 2 ^ 32, and the
--   sums that may wrap around are written with `%`.
-- - SimpleQ: `simpleQ_mpmc_ar_t` is the record Pool of SimpleQ.Pool, with one function to a method.
--   The lock-free queue of moodycamel and `posix_memalign` are not in the repository: they are the
--   record Platform, and IsLawful says what of their documented behaviour the theorems use, that a
--   queue holds what was put in and not taken out.
--   SimpleQ.Client has the threads that use a queue, as steps of which each is one call. Each moves
--   frames by a single operation of the platform's queues; of `P_get_tryBest`, the parts are steps,
--   beside the call that no other thread interrupts. IsRoomy of
--   SimpleQ.Keeping is a platform that has the memory for every enqueue. SimpleQ.Blocks says what an
--   allocator promises, and where the buffers lie. SimpleQ.Single is
--   `simpleQ_spmc_ar_t` of include/queue/simpleQ_spmc_ar.h, which inherits the rest, with steps of the
--   consumers between the parts of `P_get_tryBest`; the order that the platform promises to a token
--   is IsOrdered of SimpleQ.Tokens.
-- - L2: L2.Layout has the structures of include/sbe_ssh.h and include/sbe_ssz.h, L2.Stats the
--   counters, L2.Wire the tests and the code of `recv_thread` and `liveTrans`, and L2.Receiver the
--   thread, with a function for its loop, `liveTrans`, `report_stats` and `proc_cmdQ` each. What
--   `recv` returns is a list of events. L2.Datagram is the specification: what a datagram of
--   messages is, and what the receiver owes to it. L2.Queue puts SimpleQ behind the receiver.
--   L2.Control has `start` and `stop`, and L2.Balance sequences of them: what the socket calls come back with is an argument, and the
--   calls that succeeded are kept in their order.
-- - Time: Time.Dates has `date_to_utc`, `tm_to_utc`, `days_in` and the checks of source/common/
--   s4time.cpp, and Time.Stamps the texts of the feed's times. Time.Calendar is the specification:
--   the calendar from 1981 to 2099 and the day that follows each. int32_t arguments may be negative;
--   a failed `assert` and a read behind the table of months are results of their own. Time.Offtime is
--   `__offtime` of source/common/offtime.cpp, with `utc_to_date`, on signed numbers that do not
--   overflow; Time.YearLoop and Time.MonthLoop are about its two loops. Time.Texts has the printers of
--   dates and times, with `strftime` and `snprintf` written out for the formats used, and the readers,
--   with `strtol`.
-- - Json: Json.Search is `searchJson` of source/common/s4json_util.cpp, with its stack and its flags in
--   a record and one function to a case of its switch. Json.Grammar has the grammar of what it takes
--   for an object, in which quotes are one more kind of brackets.
-- - Strings: Strings.Edit has the functions of source/common/s4string.cpp, over the searches of
--   `std::string` in Strings.Find. A loop that does not end within its fuel is `none`, and so is a
--   write outside of the buffer of `string_format_number_comma`.
-- - Numbers: Numbers.Integers is `integer_to_string`, IntConvertor and BoolConvertor of
--   include/types/s4convertors.h on bit patterns of 64 bits, and Numbers.Doubles is DoubleConvertor,
--   where the record Doubles stands for double-conversion. `none` is a text that is refused, or a
--   write outside of a buffer.
-- - Url: Url.Parse is HTTPURL of include/network/parse_url.h. Where the source keeps positions in the
--   trimmed text, the model keeps what is behind the scheme.
-- - Semaphore: Semaphore.Counter is `semaphore_t` of include/common/s4semaphore.h, one function to a
--   method, and Semaphore.Workers the threads of application/test_semaphore.cpp as a step relation, in
--   which `comsumor` and `productor` stand between any two of their atomic accesses. The numbers of
--   threads, vectors and rounds are arguments. Semaphore.Barrier has the invariant of the protocol, and
--   Semaphore.Measure a number that falls with every step.
-- - Logger: Logger.Sinks is the state and the `init` of `s4logger` (include/common/s4logger.h and source/
--   common/s4logger.cpp), and Logger.Messages the calls that log, which give the calls of spdlog that
--   they make. spdlog is not in the repository: it is the record Spdlog of Logger.Platform, whose
--   IsLawful says what of its documented behaviour the theorems use; Logger.Free.CanCreate adds that
--   the disk lets spdlog make every logger whose name is free. An exception is `none`.
-- - FileSearch and Signals: FileSearch.Search is `search_file` of source/common/s4filesystem.cpp over a
--   tree of folders, and Signals.Handler `signalhandler_t` of include/common/s4signalhandle.h with what
--   the process does when a signal comes. SimpleQ.ClassArray is `shared_class_array` of include/queue/
--   shared_array.h, L2.Bonds the structures of the bonds, and Exceptions.Classes the exceptions of include/
--   common/s4exceptions.h.
--
-- Fuel: `frame_loop` takes as many rounds as the datagram has bytes, each message having at least 24,
-- which L2.Bounds proves to be enough; `P_get_tryBest` takes two calls of itself, which SimpleQ.Growth
-- proves to be enough where no other thread takes the frames that it makes.
-- `utc_to_date` has 12 rounds for each loop of `__offtime`, of which the loop over the year needs three
-- up to 2099; `string_split` and `string_replace` have one round more than the text has bytes, and
-- `integer_to_string` ten rounds of two digits.
--
-- Not modelled: the sockets; what other parts log; the bytes of a frame that the last
-- write did not cover; files that are read or written;
-- the copies of other projects' code: double-conversion, sockutil, uv_errno, onceToken, chat_message.
pub mod Prelude
pub mod MktCode
pub mod SimpleQ
pub mod L2
pub mod Time
pub mod Json
pub mod Strings
pub mod Numbers
pub mod Url
pub mod Semaphore
pub mod Logger
pub mod FileSearch
pub mod Signals
pub mod Exceptions
