-- ===== src/Lib.antt =====
-- tagEtl: the transfer of song tags from a web library to a local one, as the C++ program does it.
--
-- The program (tagEtl.cpp) reads its settings from an ini file, connects to two MySQL databases,
-- loads the tagged songs of the web library and the songs of the local one, and looks each web song
-- up in the local library by name and singer. A match is stored as a tag of the local song; a song
-- that is not found is written to a search file. Tags that are collected for a time ("var" tags)
-- are transferred only when every tag has enough songs, and are then deleted from the web library.
-- At the end the tags are backed up and a radio server is told to reload.
--
-- Which file models which part:
--   Codes            the codes of common/winerror.h and of the classes' headers
--   Text             std::string as a list of bytes; Text/Trim trimming as a specification,
--                    Text/Number int, unsigned int and atoi, Text/Converter utils/Converter.cpp
--   Profile          utils/Profile.cpp: Profile/Trimming (tirm, QuotTirm), Profile/Build
--                    (BuildProfileQueue), Profile/Lookup (GetProfValue and its callers), Profile/Load
--                    (LoadProfile); Profile/Printer is the specification of the format
--   Utility          utils/Utility.cpp
--   System           what a run is: calls to code outside of the repository, and the two CLib objects
--   MySqlHelper      utils/MySqlHelper.cpp
--   SongLib          songLib: SongLib/Connection (lib.cpp), SongLib/WebLib, SongLib/LocalLib
--   Search           search/searchFileGenerator.cpp
--   Refresh          refresh/refresher.cpp and the client side of utils/PacSocket.cpp
--   Etl              tagEtl.cpp
--   FileLock         logger/filelock.cpp; used only where PROC_LOG_LOCK is defined
--   LogWriter        utils/Logger.cpp
--   Directory        utils/Directory.cpp
--   Random           utils/Random.cpp
--   Server           the server side of utils/PacSocket.cpp
--   HttpClient       utils/HttpClient.cpp
--   Logger           logger/logger.cpp: Logger/LogFile (open_log_file), Logger/Setup (init), Logger/Lines
--                    (the methods that write), Logger/Overrun where an array is too small
--   Memcache         utils/Memcache.cpp, with libmemcached as a parameter
--   Url              utils/URLAnalyzer.cpp: Url/Scan (FilterInvalidChar), Url/Decode (UrlToUtf8),
--                    Url/Select (the loop of do_SelectParam); Url/Query and Url/Print, queries and URLs
--                    as they are written, are specifications
--   */Keeps          what an action keeps of the list of calls, up to Etl/Safety
--   */Runs, Frames   the returns of the actions and the state of the mutexes then, up to Etl/Ends
--   System/Success   the code 0 of an action and its calls, up to Etl/Outcome
--   Tests            the theorems at concrete inputs
-- The classes of Memcache, Url, LogWriter, Directory, Random and HttpClient are not in the build.
--
-- State. A run is a function of the world: the calls made so far and, for each of the two
-- libraries, the members of its CMySqlHelper and CLib objects. An answer from outside (the MySQL
-- client, files, sockets, the logger) is a function of all calls so far, the call itself in front, so
-- that nothing is assumed of it. `none` is undefined behaviour, an exception that nothing catches, or a
-- lock that is never given back. A section or item list of Profile is a list; ReleaseProfile leaves
-- the empty one. The logger has a world of its own: its members, what each path holds, and the number
-- of calls of the system, on which every answer of the system depends. What
-- fwrite is given is in the file at once, so that fflush has nothing to do. For the other classes the
-- logger is one of the answers from outside, and its calls return. A member that is not initialised
-- has the same value in each row of one load, since no call is made between two rows.
--
-- Fuel. The loop of BuildProfileQueue gets the length of its text and 2 more, and each round goes at
-- least one byte on. The loops of Url get the length of their text, and a round goes at least one byte
-- on as well. The digits of a number get 32 rounds, and a number is below 2 ^ 32. A loop of
-- mysql_escape_character gets the length of its text and 1 more, and each round takes one quote.
--
-- Not modelled: memory management (Destroy..., new and delete of nodes and songs), the text that
-- the other classes hand to the logger, and floating-point numbers (atof is a parameter).
mod Prelude
pub mod Codes
pub mod Text
pub mod Profile
pub mod Utility
pub mod System
pub mod MySqlHelper
pub mod SongLib
pub mod Search
pub mod Refresh
pub mod Etl
pub mod Logger
pub mod FileLock
pub mod LogWriter
pub mod Directory
pub mod Random
pub mod Server
pub mod HttpClient
pub mod Memcache
pub mod Url
mod Tests
