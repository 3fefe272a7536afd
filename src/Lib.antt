-- ===== src/Lib.antt =====
-- A Game Boy emulator in C++, with the style checker that the repository runs on its sources.
-- The development models the parts of the emulator that are state machines over bytes, and those of
-- the style checker that keep state or scan text.
--
-- The emulator. A `Gameboy` owns a CPU, a PPU, a timer controller and an address bus; all of them
-- share memory through the bus, which hands the ROM and the external RAM to the controller of the
-- cartridge. Once each machine cycle the timer controller advances the divider and the timer and,
-- on overflow, requests an interrupt through the flags register on the bus; then the CPU waits,
-- serves an interrupt or executes an instruction; then the PPU goes on by one of the 114 cycles of a
-- line, of which a frame has 154, and keeps the line and its mode in the registers LY and STAT.
--
--   Cpu/Registers, Cpu/Alu   src/CPU/cpu.cpp, cpu.hpp: the registers, the pairs, reset, and the
--                            helpers incRegister to cpRegister with getCarryFlag and
--                            getHalfCarryFlag. A `word&` is passed and returned.
--   Cpu/Control              iHL, ret, jr, jpImm, callImm, popPC, popSP, pushPCToStack,
--                            tryTriggerInterrupt and triggerInterrupt of src/CPU/cpu.cpp.
--   Cpu/Opcodes              src/CPU/opcodes.hpp, src/CPU/timings.hpp and the enumerations of
--                            src/types.hpp: Opcodes/Loads and Opcodes/Arithmetic have the cases that
--                            are longer than a line, Opcodes/Execute is executeOpcode,
--                            Opcodes/Prefixed is executeCBOpcode, Opcodes/Table the numbers and times.
--   Cpu/Clock                executeCurrentInstruction and machineClock of src/CPU/cpu.cpp.
--   Cartridge                src/Cartridge/cartridge.cpp: header, constructor, RAM size, loading.
--   Cartridge/Mbc0..Mbc3     src/Cartridge/Controllers: read and write of the three controllers.
--   Bus, Bus/Map             src/AddressBus, src/types.hpp: read, write, getJoypad, DMA, mirrors.
--   Ppu                      src/PPU: the registers. Ppu/Drawing has the background and the window,
--                            Ppu/Sprites the sprites, Ppu/Clock the constructor, setPPUMode,
--                            lineEndLogic and machineClock.
--   Interrupts               CPU::IF, CPU::IE and Gameboy::requestInterrupt.
--   Gameboy                  src/Gameboy: constructor, skipBoot, setJoypad, loadSave and getSave.
--   Gameboy/Cycle            machineClock of src/Gameboy, and the constructor with the PPU. The parts
--                            hold the bus by value and pass it on in the order of the calls.
--   Timer                    src/TimerController: machineClock and incrementTimer.
--
-- A byte (`word`) and a 16-bit word (`dword`) are natural numbers with the wrap-around written out;
-- theorems state the range where they need it. A call ends in an `Outcome`: a value, an exception,
-- a failed assert, or an access out of the range of a vector or array, which C++ leaves undefined.
-- A `Build` says whether asserts are checked. A `Binary` is a size and a function on indices. The
-- bus holds its cartridge by value; in the source it is a pointer that nothing else writes through.
--
-- The style checker, scripts/cpplint.py, is a program of its own. Its global state is passed
-- explicitly, its errors are values, and a string is a list of character codes, with the white space
-- (0x1C to 0x1F included) and the letters of ASCII. The level of verbosity is a natural number; a
-- negative one, which the source accepts too, is not modelled.
--
--   Lint/Regex               Match, Search, ReplaceAll: the part of Python's `re` that is used.
--   Lint/Categories          the tables of error categories and default filters.
--   Lint/State               _CppLintState: settings, filters, error statistic.
--   Lint/Suppress            NOLINT comments and the suppressions for a whole file.
--   Lint/Report              _ShouldPrintError and Error.
--   Lint/IncludeState        _IncludeState: the order of the includes.
--   Lint/Headers, Lint/Includes   _CPP_HEADERS, _DropCommonSuffixes, _ClassifyInclude. What
--                            FileInfo.RepositoryName finds in the file system is an argument.
--   Lint/Modules             FileInfo.Split and what rests on it, FilesBelongToSameModule.
--   Lint/FileChecks          the checks of whole files for copyright, bad characters and the last
--                            newline, IsBlankLine, GetPreviousNonBlankLine, GetIndentLevel.
--   Lint/HeaderGuard         CheckForHeaderGuard, and GetHeaderGuardCPPVariable without --root.
--   Lint/LineChecks          CheckForMultilineCommentsAndStrings, CheckPosixThreading,
--                            CheckVlogArguments, CheckInvalidIncrement and two tests of a line.
--   Lint/Constructs          CheckForNonStandardConstructs; Constructs/Explicit has its part on
--                            constructors.
--   Lint/Semicolons, Lint/EmptyBodies   CheckTrailingSemicolon, CheckEmptyBlockBody.
--   Lint/Braces              CheckBracesSpacing and _IsType.
--   Lint/Spacing             CheckSpacingForFunctionCall, CheckParenthesisSpacing, CheckCommaSpacing.
--   Lint/Operators           CheckOperatorSpacing.
--   Lint/Comments            RemoveMultiLineComments, CleanseComments, IsCppString. The rounds of
--                            the former are bounded by the number of lines; Comments/Pass describes
--                            it as one pass, and Comments/Rounds has the lemmas on its searches.
--   Lint/Strings             CleanseRawStrings, _CollapseStrings and CleansedLines.
--   Lint/Blocks              _BlockInfo and its subclasses, with the checks at the ends of a block.
--   Lint/Templates           NestingState.InTemplateArgumentList.
--   Lint/Nesting             _PreprocessorInfo, NestingState and UpdatePreprocessor; what Update does
--                            with a line is in Nesting/Declarations (parentheses, namespaces,
--                            classes, access), Nesting/Tokens (braces and semicolons) and
--                            Nesting/Update, which has InnermostClass and CheckCompletedBlocks too.
--                            A block is a value, and the stack a list with its top first.
--   Lint/Expression          CloseExpression, ReverseCloseExpression and their scans of a line.
--   Lint/FunctionState       _FunctionState: the length of a function.
--
-- The modules below a component hold its proofs. Base holds the shared types and lemmas, Examples
-- the runs on concrete inputs.
--
-- Bounds and fuel. The DMA loop runs 0xA0 rounds, as in the source. A repetition in a pattern
-- has one round more than the text has characters, and every round takes at least one, so the
-- fuel is enough; replacing and counting take a character a round and have the length as fuel.
-- The logarithm and the decimal digits have the number itself. The loop over the operator
-- methods of a line has its length as fuel, and each round hides a word of eight characters. The
-- loops over raw strings, quotation marks, namespaces and template arguments return `none` when
-- they run out of fuel: the first three have one round more than the line has characters, the
-- last one more than the lines have characters and ends, and each round takes at least one of
-- them. All other functions recurse on their data.
--
-- Not modelled: of the style checker, the remaining checks of lines, and the command line. Nor are the
-- functions that print the state of the emulator, the front end and src/main.cpp (windows, keys and
-- files), the clock of MBC3, which the source leaves out too, the tests, and the third-party code
-- under dist.
pub mod Base
pub mod Cpu
pub mod Cartridge
pub mod Bus
pub mod Interrupts
pub mod Ppu
pub mod Timer
pub mod Gameboy
pub mod Lint
pub mod Examples
