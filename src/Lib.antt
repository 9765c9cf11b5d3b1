-- ===== src/Lib.antt =====
-- The programs of this repository are solutions of the OSTEP projects: small C programs, each in a
-- directory of its own, that share no code. Each is modelled by a module of its own, which stands on
-- Common: lists over native numbers, loops with an early exit (Common.Loop), a list seen from a place
-- in it (Common.Sift), a circular array (Common.Ring) and C strings (Common.Text).
--
-- - Zip: initial-utilities/wzip/wzip.c and initial-utilities/wunzip/wunzip.c are Zip.Wzip, the wzip.c of
--   concurrency-pzip/wzip, which writes to a file, is Zip.Wzip.ToFile, the threads'
--   work in concurrency-pzip/wzip/pzip3.c is Zip.Pzip, that in pzip2.c and pzip.c
--   of the same directory Zip.Pzip2 and Zip.Pzip1. A byte is a number below 256, a file the list
--   of its bytes, `none` a file that does not open. Zip.Runs is the run-length encoding that all of
--   them mean. Zip.Pzip.Queue is the queue between the producer and the consumers, and a step relation
--   of these threads; Zip.Pzip.Consumers adds the consumers' places in their code and the array `out`, of
--   which only the first `total_pages` entries are there: the bound of 1,024,000 entries that `main`
--   allocates is not modelled, nor are the condition variables, on which the code can lose a wakeup. In
--   Zip.Pzip2.Threads the threads that share the buffers of pzip2.c out are a step relation,
--   and Zip.Pzip2.Program collects the names of the files;
--   what `output` does when they have returned is a function of their results. The theorems start where
--   `handleFile` has counted its buffers, since before that a thread may return at once.
-- - Fs: filesystems-checker/fs.h and param.h are Fs.Disk, with the image as a function from offsets to
--   bytes; of filesystems-checker/xchecker.c, `bitmap_exist` and `bitmap_delete` are Fs.Bitmap, the
--   checks 1 to 8 Fs.Checks, and `inode_check_9` is Fs.Walk, with fuel for the levels of its calls. A
--   read behind the array `indirect` is the error `overrun`. `main` is Fs.Program, with the mapping of
--   the image as a parameter.
-- - MapReduce: concurrency-mapreduce/mapreduce.c with `Map` and `Reduce` of wordcount.c. `MR_Emit` holds
--   the mutex all the time, so in MapReduce.Mapper a step of a mapper is a call of it, and the steps of
--   the mappers come in any order; a partition belongs to one reducer. The partitioner is a parameter.
--   Rounds of fuel are bounded by the length of a line and by the number of pairs. Files have no NUL.
--   The limits of the arrays are not modelled.
-- - Web: of concurrency-webserver/src_multi, the buffer of wserver.c and its FIFO schedule are
--   Web.Buffer, a step relation of the main thread and any number of workers, in which a section under
--   the mutex, from the end of the wait on, is a step; the buffer of the schedule SFF is Web.Sff, where
--   `none` is a crash at a NULL, and its step relation Web.Sff.Schedule; request.c and `readline` of
--   io_helper.c are Web.Request. A connection is the list of the bytes still to be read. `stat` and the
--   mapped contents of a file are parameters. `request_read_headers` has a unit
--   of fuel for each line that it reads. The requests that wclient.c sends and what it prints of an
--   answer are Web.Client, with a unit of fuel for each line. The options of wserver.c and the threads
--   that it starts are Web.Options; what `getopt` and `atoi` give is a parameter. `main` of
--   concurrency-webserver/src/wserver.c, the server without threads, is Web.Single, on Web.Request, since
--   its request.c is the one of src_multi without two functions. Sockets and spin.c are not modelled.
-- - Reverse: initial-reverse/reverse.c, with the input as the list of the bytes of a file without NUL.
--   Reverse.Program is the whole program, with the files as a parameter.
-- - Shell: processes-shell/wish3.c; the helpers are Shell, `main` is Shell.Loop and Shell.Line. What a
--   buffer that is too small would be overrun with is `none`. `access`, `open`, `chdir` and `getcwd` are
--   parameters; what the shell starts, opens and waits for is a list of events, in their order. `main` of
--   processes-shell/wish2.c, whose helpers are the same, is Shell.Wish2, and `main` and `exec_zx` of
--   processes-shell/wish.c, the first version, are Shell.Wish1. The prompt and what the programs do are
--   not modelled.
-- - Utilities: initial-utilities/wgrep/wgrep.c and initial-utilities/wcat/wcat.c, on files without NUL.
--   The calls that read a file have fuel, one more than the file has bytes.
pub mod Common
pub mod Zip
pub mod Fs
pub mod MapReduce
pub mod Web
pub mod Reverse
pub mod Shell
pub mod Utilities
