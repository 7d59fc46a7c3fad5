-- ===== src/Lib.antt =====
-- Proton API Bridge: a client for Proton Drive. It keeps a cache of links and of the key rings
-- that open them, and on that it lists, searches, moves, deletes, uploads and downloads.
--
-- The parts, the files that model them, and the code:
--   Action: what a call ends in (a value, an error, the end of the process, or fuel used up) and
--     the steps that operations are written in; the errors are those of error.go and
--     common/error.go.
--   Proton, Api: the data and the calls of the libraries that the program uses (go-proton-api,
--     gopenpgp, Go's standard library). None of that is code of this repository: `Api` is a
--     record of operations, an argument of every definition that calls them, and `World` is the
--     server, the clock and the source of randomness.
--   Drive (drive.go): the drive, its state (`St`: the cache and the world), and
--     `getSignatureVerificationKeyring`.
--   Cache (cache.go, type `cache`): `_insert`, `_remove`, `_remove_nolock`, `ClearCache`. In
--     Cache/Defs the operations, in Cache/Consistency the invariant, in Cache/Removal,
--     Cache/Detach and Cache/Eviction what a removal does.
--   Links (cache.go, methods of `ProtonDrive`): `getLink`, `getLinkKR`, `getLinkKRByID`, and the
--     versions that keep no key ring. Links/Server has the server that the theorems assume and
--     the states of the cache that agree with it.
--   Files (file.go): revisions and attributes.
--   Download (file_download.go, and `decryptBlockIntoBuffer` of crypto.go): the reader and the
--     seek of `DownloadFile`.
--   Crypto (crypto.go): the keys of new nodes.
--   Upload (file_upload.go): the draft and its conflicts (Draft, Conflict), the blocks (Blocks,
--     Batch, Tokens), the commit (Commit) and ByPath; theorems in Arrivals, Accepted, Chunks,
--     Seals, Sent, Gathered, Collection, Committed and Drafts.
--   Search (search.go, search_recursive.go), Trash (delete.go), Folder (folder.go).
--   Recursive (folder_recursive.go): the walk over a tree (Defs), the paths of a tree (Paths) and
--     what the walk lists (Walks).
--   Account (common/ and the rest of drive.go): Config the configuration, Service the calls that
--     login makes outside, Login `Login` and `Logout`, Opening `NewProtonDrive` with shares.go
--     and volumes.go; theorems in Sessions, RoundTrip and MainShare.
--   Reflection (compat_reflect.go): Values Go's values as reflection shows them, Calls
--     `findAndCallMethod`, Compat `getRevisionVerificationCompat` of file_upload.go and
--     `moveLinkCompat` of folder.go; Fits says when a client's methods fit the typed functions
--     that Upload and Folder use, and Setters and Settings the fields that are set by name.
--   Mail (mail.go): `SendEmail` and what it calls.
--   Invariant: the public methods on links, files, folders and the trash in any order, with the
--     cache's invariant (Reads, Writes, Histories).
--   Common, Int: tests, lists, maps and whole numbers. Tests: runs and concrete data.
--
-- How code becomes definitions: a method is a function from the state to an outcome and the state
-- that it leaves, a part that is run by another one is a definition of its own. A nil pointer is
-- `none`, a nil dereference and `log.Fatalln` are `fatal`. The goroutines of an upload are run one
-- after the other, each once, in the order in which they end: `Api.schedule` gives the places of the
-- next ones, and those that it leaves out follow in the order of the links. The context that the
-- first error cancels is an argument of the uploads behind it.
--
-- Fuel: `_remove_nolock` gets one more than the cache has entries, since each call below it has
-- one entry less. `getLinkKR` makes two calls to a level, so twice the depth and two is enough.
-- `io.CopyN` gets as much as there are bytes to skip, since every `Read` that succeeds gives a
-- byte; the upload's loop gets the file's length and two. The recursive search and the walk get the
-- height of the tree.
--
-- Not modelled: the locks of the cache and calls that run at the same time, other than the uploads
-- of a batch; the 64-bit bounds of Go's integers, which sizes and offsets of files stay within;
-- which fields the requests of the library have, a field of `Api` where requests are built; `Close`
-- of the reader; the flags of the logger (utility/init.go); the integration tests and
-- drive_test_helper.go. A key ring of the library that depends on the time of the call is taken as
-- one that does not.
pub mod Common
pub mod Int
pub mod Action
pub mod Proton
pub mod Api
pub mod Drive
pub mod Cache
pub mod Links
pub mod Files
pub mod Download
pub mod Crypto
pub mod Upload
pub mod Search
pub mod Trash
pub mod Folder
pub mod Invariant
pub mod Account
pub mod Recursive
pub mod Reflection
pub mod Mail
pub mod Tests
