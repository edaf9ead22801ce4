-- ===== src/Lib.antt =====
-- Verification of the software of the FPGA V3 controller (mechatronics-embedded).
--
-- The modelled programs run on the processor of the Zynq chip, the standalone ones without an
-- operating system, the library libfpgav3 on Linux. They talk to the FPGA by a bus on 64 EMIO
-- lines:
--
--   platform_standalone/fpgav3_lib_src/fpgav3_emio.c     Emio and its children
--   platform_standalone/demo_app_src/main.c              Demo and its children
--   platform_standalone/fsbl_src/fsbl_hooks.c            Fsbl and its children
--   platform_standalone/mfg_test_src/memtest.c (part)    Memtest and its children
--   platform_standalone/mfg_test_src/menu.c              Menu and its children
--   platform_standalone/mfg_test_src/fsbl_hooks.c (part) Menu
--   petalinux/libfpgav3/files/fpgav3_emio.h, fpgav3_emio.cpp, fpgav3_lib.cpp   Linux
--   petalinux/libfpgav3/files/fpgav3_emio_mmap.cpp       Linux/Mmap and its children
--   petalinux/libfpgav3/files/fpgav3_qspi.cpp            Linux/Flash and its children
--
-- Machine is what all stand on: the memory-mapped registers (Xil_In32, Xil_Out32), the console
-- and a trace of every access. The hardware is a parameter, Device. A command takes a machine
-- and ends in a Run: a value and a machine, `waiting` when the rounds or the console input that
-- it was given are used up, or `fault` when an array is left. Machine/Outcome has total and
-- partial correctness of such runs, Machine/Traffic reads a trace.
--
-- Emio has one definition per function of fpgav3_emio.c: init is EMIO_Init, get_version
-- EMIO_GetVersion, wait_op_done WaitOpDone (poll and spin are its loops), set_data_input and
-- set_data_output are setDataInput and setDataOutput, read_quadlet, write_quadlet, read_block,
-- write_block and write_prom_data are the EMIO_ functions of these names; request_read,
-- request_write, read_rounds, write_rounds and prom_rounds are their inner parts and loops.
-- Emio/Wait is about the wait, Emio/Word about the words on the upper lines, Emio/Quadlet and
-- Emio/Block about the traffic of an operation, Emio/RegisterFile states what the firmware
-- promises and, in its children, what follows for single quadlets, Emio/Prom is about the PROM
-- data. Emio/Toy is a small FPGA that meets the promises.
--
-- Demo/Input is get_input, with the body of its loop as take_char, end_arg and add_char;
-- Demo/Numbers is get_hex and get_dec; Demo/Commands is main, print_help and the commands quad
-- and block, which its children Quad, Read, Write and Overflow are about. The demo application
-- calls the bus library through the functions of Emio.
--
-- Fsbl has the hooks of the first-stage boot loader: before_handoff is FsblHookBeforeHandoff,
-- which calls init_sd (FpgaV3_Init_SD) or init_qspi (FpgaV3_Init_QSPI) by the boot mode.
-- check_flash, check_id, ensure_qe and program_qe are the parts of init_sd, show_board,
-- copy_serial and show_serial those of init_qspi, which writes the serial number of the flash to
-- the FPGA by write_prom_data of Emio. Fsbl/QuadEnable is about the flash's status register,
-- whose chip Fsbl/Flash describes, Fsbl/Serial about the serial number.
--
-- Memtest has the parts of memtest.c. Memtest itself has memtest_lfsr and memtest_pat128, which
-- differ only in the sequence of words; run_test is what they share, write_words and read_words
-- are their loops, compare_word and error_info treat one word. Memtest/Cells describes memory
-- whose cells may keep less than is written, Memtest/Compare is about one word and Memtest/Count
-- about the counts. Memtest/Modes is memtest, whose mode selects the sequence (mode_word,
-- mode_next), Memtest/Simple memtest_simple with its rows of four words, Memtest/All memtest_all
-- (run_selected is its chain of tests) and the upload of the results, and Memtest/Patterns
-- compares the sequences of the tests with each other. Memtest/Registers has the bit fields and
-- the lists of register fields (put_field, get_reglist_value, update_reglist), the DDR
-- controller (ddrc_init, ddrc_get) and its pins (set_drive_strength, clear_tdm_idm); its
-- children Fields, Lists, Bank and Drive are about them. Memtest/Pll is my_set_pll with its
-- tables of charge pump settings and divisors, of which Config, Lock and Divisors treat one part
-- each. Memtest/Eye is find_best_eye: rate, subtract_all and copy_all compute the qualities,
-- search_from is a search for the highest, pick and neighbours choose. Its children Quality,
-- Scan, Best and Whole are about these steps and the whole. Memtest/Sweep has the loops of the
-- measurement of an eye (sweep, whose test is a parameter), and its child ReadEye
-- measure_read_eye, which runs memtest_all in them. As memtest_all calls error_info before any
-- error, which stores before the array, measure_read_eye faults, so nothing is shown of it.
--
-- Menu has the functions of menu.c and the hook of fsbl_hooks.c of the manufacturing test that
-- starts the menu. Ids are the local variables of TestBoardID, find_ids is its loop, and
-- count_id, debounced, mark and note_id the statements of a round. Menu/Switch says what the
-- variables know of the readings, Menu/Rotation when the loop ends.
--
-- Linux has the base class EMIO_Interface: Settings are its members, Driver its virtual
-- functions; write_prom_data, set_timing_mode and print_fpgav3_versions are the functions of
-- these names. Linux/Mmap is EMIO_Interface_Mmap, an object of which is a Mmap: construct is the
-- constructor, init its Init (with enable_clock and init_lines), mmap_init, wait_op_done,
-- read_quadlet, write_quadlet, read_block and write_block are the functions of these names;
-- wait_loop, read_rounds and write_rounds are loops, lines_in and lines_out set the direction of
-- the data lines, report_wait and report_times print. Linux/Mmap/Wait is about the wait, Start
-- about the constructor, Quadlet and Board about single quadlets, between calls and beside the
-- standalone library, and Block about ReadBlock. Linux/Flash is fpgav3_qspi.cpp:
-- get_fpga_serial_number, program_fpga_serial_number and program_flash with the parts
-- read_serial, write_serial, program_sector and program_sectors. Linux/Flash/Memory says what
-- the system calls do to a flash memory, Sector and Program are about ProgramFlash, Serial and
-- Overrun about the serial number.
--
-- Numbers: registers are natural numbers with the wrap-around of uint32_t and uint16_t written
-- out. A signed int is a bit pattern of 32 bits, compared by int_lt. The loops of the memory
-- tests do not run for a size from 2 ^ 31 on, which is a negative int. Subtractions that C takes
-- modulo 2 ^ 32 are written so.
--
-- Loops: WaitOpDone's second loop has no bound in the source and takes fuel; it is enough that
-- the fuel exceeds the polls that the hardware needs, less the five of the first loop. get_input
-- takes one round for each character of the line and one for its end. The endless loop of main
-- is `session`, with the number of its turns. The loops of the menu and of TestBoardID, which
-- the user ends, take the number of choices and rounds. The wait for the lock of a PLL ends
-- after 2001 polls at most, as in the source. The wait of Linux/Mmap ends by the clock; its fuel
-- is enough if it covers the polls that an answer takes, or the timeout where every poll takes
-- time. The loop of ProgramFlash takes rounds, for which the bytes of the file are enough, as a
-- sector has at least one. The other loops run over their own count, which for the memory tests
-- is the number of words in the size.
--
-- Parameters: the device behind the registers and its GPIO base address, Xil_EndianSwap32 (known
-- to reverse four bytes), the version strings and their comparison, init_platform, and for the
-- hooks a Bsp: the QSPI driver, QspiAccess and the constants of the boot loader. Flash states
-- what the chip's data sheet says of the commands used. The contract of the firmware, Firmware,
-- says what the comments of fpgav3_emio.c rely on: the request line reads back, the write line
-- follows the direction, and a request is answered within a bounded number of polls.
--
-- The memory tests take as parameters the maintenance of the caches, which is by coprocessor
-- instructions, and the time in seconds as it is printed; the sum of the times is left out, as
-- no test reads it, and is a parameter of measure_read_eye, which prints it. Their error counts
-- are natural numbers. The delays by noop have no effect but time and are left out where their
-- result is not used, as are the result codes of the tests.
--
-- On Linux the clock is read from the state of the device, whose accesses are what takes time;
-- times are in nanoseconds and are printed by a parameter, as the source computes them in
-- doubles. A mapped region is named by its physical address, and whether /dev/mem can be opened
-- and mapped is a parameter. The calls on a flash partition are Mtd, and Works says what a call
-- that succeeds does; a call of fstat gives the length of the file, which is read whole. Closing
-- and unmapping have no effect that is modelled.
--
-- The menu takes InitQspi, QspiPsSelfTestExample and memtest_run as parameters.
--
-- Not modelled: the initial content of `data` in main, which C leaves open, and of the read
-- buffer of FpgaV3_Init_SD, is zero here. Of memtest.c the XADC, the measurement of the write
-- eyes and the console of memtest_run are left out, and of the repository the driver over
-- libgpiod, the programs fpgav3init, fpgav3block and fpgav3sn for embedded Linux, the echo
-- server (which is the vendor's network stack but for its glue) and the vendor's self test of
-- the flash.
mod Base
pub mod Machine
pub mod Emio
pub mod Demo
pub mod Fsbl
pub mod Memtest
pub mod Menu
pub mod Linux
