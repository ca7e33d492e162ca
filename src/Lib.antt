-- ===== src/Lib.antt =====
-- Verification of nolibc, the minimal C library for Linux.
--
-- nolibc is a set of headers. A program includes nolibc.h, which includes the others; there are no
-- other objects, and every function stands in a header. The parts build on each other: string.h and
-- ctype.h are pure code over memory and numbers; stdlib.h converts numbers and text, and keeps a heap
-- on top of mmap; sys.h and the headers below sys/ wrap the system calls of Linux and turn their
-- results into `errno`; stdio.h writes and reads through `write` and `read`, and formats with the
-- conversions of stdlib.h; getopt.h walks the arguments of a program.
--
-- How the code is modelled. Memory (Mem) is a function from addresses to bytes, and a function that
-- stores something returns the memory that it leaves behind, with its result. An address is a number.
-- An integer of a C type is its bit pattern (Prelude/Words), with the wrap-around of its width written
-- out; `long`, `size_t` and pointers have 64 bits, `int` has 32, `char` is signed. `errno` is passed on
-- explicitly. A loop that is bounded by its counter recurses on that counter; one that waits for a
-- terminator, or for a kernel, takes fuel as its first argument and returns `none` where it runs out.
-- The theorems about such a loop state how much fuel is enough: for a string, more than it has bytes;
-- for `_fwrite`, more than it has bytes to write. u64toa_r and its kin need none from the caller: the
-- inner loop takes at most as many rounds as the number that it divides, and gets one unit more.
--
-- The kernel is not part of the library: it is a parameter, a function from a call number and its
-- arguments to a result, which may change its own state and the program's memory (Sys/World). What a
-- theorem relies on of a system call is a named hypothesis, for which Tests has a concrete kernel. The
-- call numbers are the fields of a record, where a call that an architecture may lack is optional, so
-- that the `#ifdef`s of the source are tests in the model.
--
-- The files and the code that they model:
--   Ctype               ctype.h: isascii, isblank, iscntrl, isdigit, isgraph, islower, isprint,
--                       isspace, isupper, isxdigit, isalpha, isalnum, ispunct
--   Str/Block           string.h: memcmp, memmove, memcpy, memset, in their generic C versions
--   Str/Scan            string.h: strlen, strnlen, strchr, strrchr
--   Str/Compare         string.h: strcmp, strncmp
--   Str/Copy            string.h: strcpy, strlcat, strlcpy, strncat, strncpy
--   Str/Search          string.h: strstr;  Str/Case: tolower, toupper
--   Stdlib/Decimal      stdlib.h: utoa_r, itoa_r, ltoa_r, u64toa_r, i64toa_r
--   Stdlib/Hex          stdlib.h: utoh_r, u64toh_r
--   Stdlib/Buffer       stdlib.h: utoh, itoa, ltoa, utoa, u64toh, i64toa, u64toa; abs, labs, llabs;
--                       getenv
--   Stdlib/Atol         stdlib.h: atol, atoi
--   Stdlib/Strtox       stdlib.h: __strtox (strtox here), strtol, strtoul, strtoll, strtoull,
--                       strtoimax, strtoumax
--   Stdlib/Heap         stdlib.h: malloc, calloc, realloc, free, abort;  Stdlib/Duplicate: strdup and
--                       strndup of string.h
--   Stdlib/Heap/Mapping, Block, Live, Realloc and Wraps
--                       what the heap relies on of mmap and munmap, what one call of malloc does,
--                       the step relation of a program that uses the heap, realloc on a block, and
--                       sizes that wrap around
--   Sys/Numbers         the numbers of the system calls (sys/syscall.h takes them from the kernel)
--   Sys/World           sys.h: __sysret, __nolibc_enosys, and the system call itself
--   Sys/System          sched.h: setns, unshare; sys/mount.h, sys/prctl.h, sys/reboot.h, sys/utsname.h,
--                       sys/random.h, sys/ioctl.h; tcsetpgrp, wait4, raise
--   Sys/Seek, Sys/Select
--                       sys.h: lseek, select; poll.h: poll; unistd.h: msleep, sleep, usleep;
--                       Sys/Select/Sleeps: the time that msleep waits
--   Sys/Time, Sys/Time/Timers
--                       time.h, sys/time.h, sys/timerfd.h: clocks and timers, with the copies between
--                       the kernel's layout of a time and the program's
--   Sys/Stat, Sys/Dirent, Sys/Resource
--                       sys/stat.h, sys/sysmacros.h, dirent.h, sys/resource.h
--   Sys/Dirent/Entries, Listing
--                       what is asked of the kernel for an entry, and a program that reads a
--                       directory to its end
--   Sys/Files, Sys/Fds, Sys/Processes
--                       sys.h, sched.h and unistd.h: the calls on paths, descriptors and processes
--   Sys/Memory          sys.h: brk, sbrk; sys/mman.h: mmap, mremap, munmap
--   Sys/Open            fcntl.h: open (open_file here), openat; unistd.h: access, faccessat
--   Sys/Wait            sys/wait.h: waitid, waitpid, wait; the status macros of types.h
--   Stdio/Streams       stdio.h: streams, from fdopen to fgets; _fwrite is fwrite_all here
--   Stdio/Printf        stdio.h: __nolibc_printf (nolibc_printf here), its callbacks, vsnprintf,
--                       vfprintf, snprintf, printf and their kin, strerror, perror
--   Stdio/Printf/Pieces what a format says: its bytes, its arguments, and its text with the widths;
--                       Conversions: the text that the code makes of an argument
--   Stdio/Printf/Handed what of this text reaches the callback under a limit
--   Stdio/Printf/Sink, Flush
--                       a callback behind its laws, and what is handed to it at once
--   Stdio/Printf/Queued, Rounds, Widths, Directives and Format
--                       what holds between two directives, the rounds between them and inside, what a
--                       directive prints, and the whole loop, for any such callback
--   Stdio/Printf/Output, Buffer
--                       the callback that writes to a descriptor, and the one that fills a buffer
--   Stdio/Scanf         stdio.h: vsscanf, sscanf
--   Stdio/Scanf/Numbers, Patterns, Reading, Format and Roundtrip
--                       a number that is read, the rounds of the loop, the whole loop on a text that
--                       printf writes, and vsnprintf and sscanf together
--   Start/Guard, Start/Auxv, Start/Entry
--                       stackprotector.h: __stack_chk_init, __stack_chk_fail; sys/auxv.h: getauxval;
--                       crt.h: _start_c (start_c here)
--   Start/Entry/Layout and Life
--                       the stack of a new process, and the order in which its functions are called
--   Getopt              getopt.h: one call of getopt, over the state that it keeps between calls
--   Getopt/Machine      the same without memory: the place in the command line that a call moves on
--   Getopt/CommandLine  how memory and the state of getopt show such a place
--   Getopt/Search, Argument, Options, Calls, Refinement and Progress
--                       the search for an option, its argument, an option, a word, any call, and
--                       the calls of a program until the options are over
--   Mem, Errno, Prelude memory and its 16-, 32- and 64-bit words, the error codes, and what the modules
--                       share (Prelude/Bits: the bit operations)
--   Tests               runs, and the theorems at inputs that meet their hypotheses
-- A file below these, such as Str/Block/Laws, proves what its name says about its parent.
--
-- The stack protector is modelled the way it is built with _NOLIBC_STACKPROTECTOR defined. The address
-- of an object that the compiler or the linker places, such as a local variable that the kernel fills,
-- is a parameter, and so are the functions that a program passes to the library by their address.
--
-- Not modelled: the inline assembly of the arch-*.h headers, which the kernel parameter stands for, with
-- the code that it runs before _start_c; the versions in assembly that some architectures have of
-- memcpy, memmove and memset; difftime, fabs, fabsf and fabsl, which compute in floating point; the macros of types.h on sets
-- of descriptors, of which two use names that are not defined; the endless loops behind the calls in
-- exit, abort and __stack_chk_fail, which do not return; the message that getopt prints, which is
-- returned as a value. Two areas of memory that lie at the end of the address space and wrap around are
-- not told apart from those that do not.
pub mod Prelude
pub mod Mem
pub mod Errno
pub mod Ctype
pub mod Str
pub mod Stdlib
pub mod Sys
pub mod Stdio
pub mod Getopt
pub mod Start
pub mod Tests
