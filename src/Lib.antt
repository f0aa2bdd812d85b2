-- ===== src/Lib.antt =====
-- Verification of NWNX2 for Windows, which extends the Neverwinter Nights server with plugins.
--
-- The server process loads NWNXdll. It searches the process image for engine functions by their
-- bytes, writes jumps over them to its own functions, and loads every nwnx_*.dll as a plugin into a
-- table. When a script sets a string variable or reads an object variable with a name of the form
-- `NWNX!LIBRARY!FUNCTION`, the hooked engine function hands the name over, and the plugin answers.
-- The plugins hook further functions with the same searches and the same hook functions; the
-- profiler keeps its figures in a hash table of its own.
--
-- Files, with the code that they model:
--   Prelude           numbers, lists, C strings as lists of bytes, results with faults
--   Memory            bytes at addresses, and 32-bit little-endian words
--   HashTable         src/NWNXdll/HashTable.h and .cpp: CHashTable, the table of plugins; `create`,
--                     `insert`, `lookup`, `delete`, `delete_all`, `get_first_item` and
--                     `get_next_item` are the methods of those names
--   Dispatch          src/NWNXdll/NWNXdll.cpp: PayLoad (`pay_load`), ObjectPayLoad
--                     (`object_pay_load`)
--   Scan              FindHook, FindObjectHook (src/NWNXdll/NWNXdll.cpp), FindChat,
--                     FindGetPCobjByOID, FindRunScript (src/NWNX_Chat/HookChat.cpp), FindHookSCO,
--                     FindHookRCO (src/ODBC2/scorcohook.cpp), FindHookRunScript,
--                     FindHookCrossAreaPathFind, FindHookPathFind (src/Profiler/HookRunScript.cpp)
--   Hook              src/NWNXdll/hook_funcs.cpp: make_jmp, CreateStackFrame, CreateGeneralBridge,
--                     HookFunction_General, HookFunction, HookFunction_Stdcall, InterpretAddress
--   ProfilerHash      src/Profiler/hash.h and hash.cpp: the profiler's table, with its hash
--   Loading           src/NWNXdll/NWNXdll.cpp: LoadLibraries (`load_libraries`); Loading/Requests joins
--                     it to Dispatch
--   Odbc              src/ODBC2/sqlite.cpp: CSQLite::Execute, Fetch, finalizeStatement; the row loops
--                     of CMySQL::Fetch (src/ODBC2/Cmysql.cpp) and CODBC::Fetch (src/ODBC2/ODBC1.cpp);
--                     CNWNXODBC::OnRequest and Fetch (src/ODBC2/NWNXOdbc.cpp)
--   Profiler          src/Profiler/HookRunScript.cpp: myRunScript, myRunScriptPart, MyCrossArea,
--                     MyPathfind, StopTimer, FlushStatistics, over ProfilerHash
--   ExoArrayList      src/RockLib/include/CExoArrayList.h: the operations add, delfeatindex, contains,
--                     delfeatvalue and get of the arrays
--   Visibility        src/NWNX_Functions/CVisibility.h and .cpp: TestVisibility, SetVisibility,
--                     SetVisibilityOverride, GetVisibility, GetVisibilityOverride
--   ExoString         src/RockLib/nwn_internals/CExoString.cpp: the constructors and operators of
--                     CExoString
--   Time              src/Time/NWNXTime.cpp: StartTimer, StopTimer, PeekTimer, OnRequest, OnRelease
--   Chat              src/NWNX_Chat/NWNXChat.cpp: NWNXSendMessage, OnRequest, Chat; RunScript, SendMsg
--                     and ChatHookProc of src/NWNX_Chat/HookChat.cpp
--   Feats             src/NWNX_Functions/CNssFeats.cpp: the functions for feats; GetLevelStats of
--                     src/NWNX_Functions/CFuncUtility.cpp
--   AutoMap           src/RockLib/nwn_internals/CAutoMap.cpp: CCreatureMaps and CTURDMaps
--   FuncLookup        src/RockLib/CNss/CFuncLookup.cpp: AddFunction, Execute; OnRequest and
--                     OnRequestObject of src/NWNX_Functions/nwnx_funcs.cpp
--   Spells            src/NWNX_Functions/CNssSpells.cpp: the functions for spells and spell slots
--   LocalVariables    src/NWNX_Functions/CNssLocalVariables.cpp: the list of an object's variables
--   CreatureStats     src/NWNX_Functions/CNssCreatureStats.cpp: the functions for a creature's abilities,
--                     armour class, skills, classes and levels
--   Watchdog          src/NWNX2/watchdoggamespy.cpp, watchdogprocess.cpp: the threads that watch the
--                     server and start it again
--   Params            src/RockLib/CNss/CParams.h: how the Functions plugin reads numbers off its
--                     parameters
--   Objects           src/NWNX_Functions/CNssObject.cpp: the functions for events, tags, conversations,
--                     body bags and regeneration of any object
--   QuickSlots        src/NWNX_Functions/CNssPlayer.cpp: SetQuickSlot and GetQuickSlot
--   Areas             src/NWNX_Functions/CNssAreas.cpp: the list of the module's areas
--   Items             src/NWNX_Functions/CNssItems.cpp, CNssLock.cpp: an item's weight, values and
--                     charges, and a lock's key
--
-- A null or stray pointer, a division by zero and a read of freed memory are the value `fault` of
-- `Outcome`. Integers are natural numbers, with the wrap-around of 32-bit words written out; plain
-- `char` is signed, and addresses and `unsigned long` have 32 bits, as on 32-bit Windows.
-- What the code calls and the repository does not hold is a parameter: the plugins' OnRequest and
-- OnRequestObject, VirtualProtect, GetProcessHeap, HeapAlloc, malloc, realloc, calloc, the
-- SQLite library and the clock. Params models how the Functions plugin reads numbers off its
-- parameters; most of its functions take the numbers as arguments.
-- Loops are structural recursion on the list or on the number of rounds left: 0x200000 addresses for
-- a search, the slots of the table for an iterator, one round for each element of an array, and at
-- most one for each byte of the key in the profiler's hash. The client loop over the plugin table
-- runs on fuel, one round for each slot and one to spare.
--
-- Not modelled: the closed-source server itself and the wrappers that call it by address (RockLib,
-- the functions of NWNX_Functions for other things than feats, spells, local variables, creature
-- statistics, objects, items, areas, quick slots and visibility), inline assembly, vendored libraries
-- (sqlite, mysql), the launcher's windows and sockets, log files, and page protections.
pub mod Areas
pub mod AutoMap
pub mod Chat
pub mod CreatureStats
pub mod Dispatch
pub mod ExoArrayList
pub mod ExoString
pub mod Feats
pub mod FuncLookup
pub mod HashTable
pub mod Hook
pub mod Items
pub mod Loading
pub mod LocalVariables
pub mod Memory
pub mod Objects
pub mod Odbc
pub mod Params
pub mod Prelude
pub mod Profiler
pub mod ProfilerHash
pub mod QuickSlots
pub mod Scan
pub mod Spells
pub mod Time
pub mod Visibility
pub mod Watchdog
