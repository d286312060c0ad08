-- ===== src/Lib.antt =====
-- A model of rjk-nntp-tools: tools that post news articles, gateway other sources to news, and report
-- on a news spool.
--
-- The parts and the files:
-- - Prelude, Prelude/: numbers, Booleans, lists, options, the result type and
--   tables over bytes, which the modules share.
-- - Text: the C library's character classes and string searches, and association lists for `std::map`.
-- - Words, Seen, Seen/: lib/seen.c, the tracking file of commit ids that bzr2news keeps, a binary tree
--   of 64-byte nodes. The file is a list of bytes that `get`, `seen` and `remember` read and write as
--   `pread`, `pwrite` and `write` do; a call of `fatal` is a `failed`. `seen_from` and `insert_from`
--   run on one round for each node of the file, which is enough on every file that `remember` makes.
-- - Nntp, Nntp/: lib/nntp.c, the poster. Response is `pts_response` on a line that has been read; Wire
--   is the loop of `pts_post` that writes an article; Session is the conversation (`pts_stat`,
--   `pts_post`, `pts_auth`, `pts_banner` and the loop over the queue) on a record of the lines that the
--   server sends and the bytes that have been written; Queue is the list of jobs between the threads
--   (`post`, `join_postthread`, `postthread`), where a step is what a thread does between taking and
--   releasing the lock. NNTPAUTH and the helper process that it names are parameters. The calls that
--   repeat behind authentication run on one unit of fuel for each line of input and one more. The
--   server's lines are finitely many; a server that asks for authentication without end is a longer
--   and longer list.
-- - Io, Io/: lib/io.c, the buffered output under the poster: `io_write`, `io_flush` and `io__flush`. The
--   system is a list of events, one for each round of `io__flush` (`io__wait` and `write`); behind the
--   last event the timeout passes. `io_write` runs on one round for each byte, and a round copies a
--   byte at least. Io.Input is `io_getline` with `io__readbyte` and `io__fill` on a list of arrivals; it
--   keeps the size that is allocated at `*line` beside `*linesize`, and runs on one round for each byte
--   that will arrive and one more.
-- - Property, Property/: spoolstats/ArticleProperty.cc and ArticleProperty.h: the counters of each value
--   of a property (`update`, `addSender`, `operator+=`, `summarize`); the map is an association list.
-- - Csv, Csv/: lib/parse_csv.cc, the reading and quoting of CSV, and the rows that spoolstats logs
--   (`ArticleProperty::logs` of spoolstats/ArticleProperty.cc). The loops run on one round for each
--   byte and one more.
-- - Split: `split` of lib/split.cc.
-- - Html, Html/: lib/Escape.cc, lib/Quote.cc, lib/thead.cc and lib/Header.cc, against a reader of HTML
--   text.
-- - TimeGraph, TimeGraph/: graph/TimeGraph.cc and TimeGraph.h, the packing of calendar times; the C
--   library's conversions (`decompose_fn`, `compose_fn`) and its `time_t` are parameters.
-- - Dates, Dates/: lib/parse_date.cc, lib/Timezones.cc and the date converters of lib/utils.c
--   (Strtol, W3, Bzr), on signed integers (Prelude.Int). The C library's conversions
--   between fields and times are parameters.
-- - Feed, Feed/: gateways/lj2news.c. Http is the state that `writeheader` and `writedata` share, on the
--   calls that curl makes; ContentTypes is its test of the media type; Elements are the callbacks of expat on its events; Article is `process`,
--   where SHA-1, lynx and the files are parameters. The loop over the lines of lynx runs on one round for
--   each byte and one more.
-- - Atoi: `atoi` of the C library, without overflow.
-- - Commits, Commits/: gateways/bzr2news.c. Post is `post_log` with the tracking file of Seen; Git is the
--   state machine of `process_git_archive` on the lines of the log; Bzr is `process_bzr_archive` with
--   `read_bzr_log`, one pass over the lines, and `process_archive`. SHA-1, the programs that print logs and
--   diffs, the file system and the clock are parameters.
-- - Sources, Sources/: sources/sources.cc. The parser of a line of the news log; Maps has the counters, where
--   the memory-mapped files of the state directory are lists of entries in one state with the time stamp;
--   Pages is `fixup_html`. `mktime`, `realpath` and the order of the page names are parameters.
-- - Spool, Spool/: `visit`, `recurse` and `summarize` of spoolstats/AllGroups.cc, with the counters of Bucket,
--   SenderCountingBucket, Group and Hierarchy. A directory is the list of its entries in the order of
--   `readdir`; a hierarchy is known by its name. An article is read on one round for each byte of its file.
-- - Unhistorical: inn/unhistorical.c. The files of a walk over the spool that are listed or removed, and the
--   loop that loads an article; the library of INN is an argument.
-- - Article, Article/: spoolstats/Article.cc and Article.h: the headers of an article, its charset, its
--   user agent and its groups.
--
-- Machine integers: a file position is below 2 ^ 63 and is written as eight bytes (Words); a `char` is
-- a byte, signed where the code compares or prints it; CSV numbers end at the largest `intmax_t`. A number
-- that overflows the `int` of `parse_int` or of the log parser's `get_int`, which C leaves undefined, is
-- refused. The spool's counts of articles are the 32 bits of an `int` and its counts of bytes the 64 bits of an
-- `intmax_t`, and wrap around.
--
-- Not modelled: sockets, the making of threads and of child processes, files other than the tracking file, the drawing
-- of graphs (graph/Graph.cc, by cairo), the stylesheet and script that the build turns into C arrays
-- (spoolstats/css.c, spoolstats/sorttable.c), and memory allocation. Memory and system calls other
-- than those above are taken to succeed.
pub mod Prelude
pub mod Text
pub mod Words
pub mod Seen
pub mod Nntp
pub mod Csv
pub mod Split
pub mod Html
pub mod TimeGraph
pub mod Article
pub mod Dates
pub mod Io
pub mod Property
pub mod Feed
pub mod Atoi
pub mod Commits
pub mod Sources
pub mod Spool
pub mod Unhistorical
