-- ===== src/Lib.antt =====
-- Efika MPD is an internet radio: a player on a Linux board with a display and an infrared remote.
-- Two programs of its own make it up, and a serial line joins them.
--
-- The firmware of the display board is firmware/main.c with firmware/timers.c, firmware/rc5_x.c
-- and the display's driver firmware/lcd.c. Its interrupts decode the remote and count down timers;
-- its main loop sends keys to the client, receives lines of text and shows them. The client is
-- client/efikampd.c, a daemon that takes the keys, drives the music player daemon through libmpd, keeps the menus and
-- writes the lines.
--
-- Files, each for the code that its first lines name:
--   Base: C's conditions, arrays, bits and the sequencing of code that can fault.
--   Firmware/Timers: timers.c and timers.h; one function for each of `timer_init`,
--     `timer_interrupt`, `timer_update`, `timer_add`, `timer_set`, `timer_remove`,
--     `timer_enable`, `timer_disable` and `timer_get_pdata` on a record of the module's variables.
--   Firmware/Rc5: rc5_x.c and rc5_x.h; `rc5_isr` and `rc5_timer_isr` as steps of a state machine,
--     and `rc5_get`.
--   Firmware/Board: main.c and defines.h. Display has `lcd_update` and `lcd_scroll_cb` (`scroll`),
--     Link has `check_cmd`, `uart_collect` and `uart_handle_data`, and Main has the callbacks of
--     the timers, `main` up to its loop (`start`) and a round of the loop (`round`). An `Event` is
--     an interrupt or a round. Its calls of the drivers are values, an `Effect` each.
--   Firmware/Lcd: lcd.c and lcd.h, the driver as the repository adapted it to its display. Bus has
--     the pins of the two ports, `lcd_write`, `lcd_read` and `lcd_waitbusy`, with the levels of the
--     display's lines recorded at each falling edge of E; Driver has the operations up to
--     `lcd_brightness`, and Driver/Effects carries out the calls of main.c; Setup has `lcd_init`.
--   Client: efika.h and efikampd.c. Heap and Menus have the menus, with pointers as numbers of
--     cells; Display has what fills the two rows, Command `handle_command` and `status_changed`,
--     Keymap `map_command`, Loop `loop` with the bytes that it writes, and Start `main` around it.
--     Ir has the tool client/ir.c.
--   Serial: both programs together, by the bytes on the serial line and on the display's lines.
-- Modules named for what they prove stand below the module that they are about, and tests and
-- examples in modules named Tests.
--
-- Numbers are natural numbers. A field of w bits wraps around by `% 2 ^ w` where the code counts
-- it up. What C leaves undefined, an access out of bounds or through a null or freed pointer, is
-- the value `none`, a fault, but for two things that a log message does: `%s` prints a null pointer
-- as text, as the GNU C library does, and whether `%s` without an argument finds a string is an
-- argument of the model.
--
-- The loops along a list of menu cells, and `menu_free` along the levels of a menu, take as fuel
-- one more than the number of cells ever allocated: such a list has no cell twice, and a child
-- stands in a later cell than its parent. A run out of fuel counts as a fault. The loop of
-- `lcd_waitbusy` has fuel for all that the display will show. All other loops are recursions on a
-- list or on the number of rounds that the code writes out.
--
-- Not modelled: the registers of the microcontroller but those of the display's ports, and
-- interrupts in the middle of a round of the main loop, which the code does not guard against; the
-- branches of firmware/lcd.c that are not compiled for this board; the driver firmware/uart.c, a
-- copy of another project's library, whose calls are recorded as effects; libmpd and the C
-- library's calls of the system, whose answers are arguments;  the function `parse_config` there, whose body is a comment; reads and
-- writes of a part of what was asked for; and client/simclist.c and client/term.c, copies of
-- libraries that nothing calls.
pub mod Base
pub mod Firmware
pub mod Client
pub mod Serial
