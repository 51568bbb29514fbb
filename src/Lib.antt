-- ===== src/Lib.antt =====
-- Verification library of the distributed virtual file system (Go, internal/...).
--
-- The program has a metaserver, which routes users to file servers and records which directories
-- are shared with whom; file servers, which keep the files and the sessions of their clients; a
-- durable store of the metaserver's tables; and an admin console. Modelled are the session store
-- and the inodes of a file server, the metaserver with its handlers, the in-process
-- implementation of the durable store, and the console's ring buffer.
--
-- * Prelude, GoMap, GoText, GoPath: shared helpers; Go maps as association lists; the functions
--   of the packages strings, net, fmt and path/filepath that the code calls.
-- * InodeStore (internal/fileserver/inodestore.go): the numbers of paths and every change of
--   them; InodeStore/Unique runs changes in sequence.
-- * FileServer (internal/fileserver/fileserver.go, quota.go, internal/domain/types.go): FID, ACL
--   and Inode, the state of a file server, Authorize, GetInode and GetChildInodeByName.
--   FileServer/Tree has the recursions over a subtree, Sharing has Share and Unshare, Quota the
--   quotas and WriteFile, Trash the trash directory, Files CreateFile and ReadFile, Navigation
--   ListDirectory, Path and ChangeDir, Roots GetUserRoot, Deletion DeleteFile, Snapshots the
--   shared directories below a path, Moves TrashFile, Restores RestoreFile and ShowTrash, and
--   Handlers the requests that change a file server (internal/fileserver/handler.go), Uploads the
--   upload stream, Callbacks the sessions that callbacks go to
--   (internal/fileserver/callback_server.go). Subtree, PostOrder, Modify, Fids, Grants, Access,
--   Quota/Bounds, Quota/Writes, Deletion/Complete, Handlers/Entitled and Callbacks/Failures hold
--   the proofs.
-- * RingBuffer (internal/admin/ringbuffer.go): the buffer; RingBuffer/Queue the queue that it
--   represents, RingBuffer/Pushes that a push keeps this, RingBuffer/Window what follows.
-- * Session (internal/fileserver/session/store.go, session.go): Store and Session as records.
--   Session holds CreateSession, the sweep and their helpers, Session/Validate ValidateSession
--   and GetSessionByClientID, Session/Revoke the three revocations. Slices, Drops and Invariant
--   carry the invariant that ties sessions, per-user slices and the client index together;
--   History has the locked sections as events and a run as a list of them; Revocation,
--   Validation, Creation, Origin, Limits and Ceiling prove what the store promises.
-- * MetaStore (internal/storage/meta.go, internal/storage/memory/memory.go): records, share paths
--   and every write. MetaStore/Calls has the writes as data. Paths, Identity, Sharing and
--   Idempotence hold the proofs.
-- * MetaServer (internal/metaserver/metaserver.go, handler.go): tables, health, stale sweep and
--   placement; MetaServer/Roots has Navigate, GetRoots, RootShare and RootUnshare,
--   MetaServer/Heartbeat the heartbeat, MetaServer/Register (with MetaServer/Conflicts and
--   MetaServer/Commit) and MetaServer/Deregister the registration of nodes, MetaServer/Writes the
--   deferred writes, MetaServer/Boot the tables as hydrate builds them from a snapshot. Lookup,
--   Freshness, Liveness, Visibility, Durability, Routing, Homes, Leavers, Release, Identity,
--   Boot/Homes and Boot/Tables hold the proofs. Durability joins the metaserver to MetaStore: it
--   runs the writes that a handler sends on the store.
--
-- How the code is read. A section between Lock and Unlock is one function from state to state.
-- ValidateSession has two, and takes the store that each of them finds. RenamePrefix takes the paths
-- that its loop visits, as Go may visit some that the loop itself writes.
-- The handlers that change users, nodes or shares hold writeOrderMu from start to end, so each is
-- one step, and what the store answers is an argument: a Boolean for one write, the number of
-- writes that go through for several, the allocated id for a new node. A map visits its entries
-- in the list's order, which the theorems leave arbitrary. Times are natural numbers (nanoseconds
-- for sessions, Unix seconds for heartbeats) and zero is the zero time; where Go's difference of
-- two times is negative, it is 0 here, and no comparison tells the two apart, as a lifetime and a
-- timeout are not negative. User counts are unbounded. Recursion is structural, but for the walks
-- over the inodes of a file server: collectSubtreeInodes, collectInodesToDelete,
-- validateDeletePermissions and updateSubtreePathsLocked follow children, and the loops of
-- WriteFile, DeleteFile and isUnderTrashLocked follow parents. Their fuel bounds the depth, and
-- the depth of the tree is enough: Ends says that no chain of directories is longer, and the loop
-- of WriteFile is at the top when there is no next inode. The hash of a session token (HashSST)
-- is a parameter of the definitions that call it, and no theorem assumes anything of it.
--
-- A pointer to an inode is its FID, looked up in the map of the inodes: the FID of an inode is
-- its key in the map, and a stored inode's parent is stored. The key is the FID and not
-- FID.String. What the operating system answers is a parameter: stat the size of a path, makes,
-- moves and removes whether a call succeeds, Disk what WriteFile calls. The inode store is always
-- there, as NewFileServer makes it. Sizes and numbers are uint64, with the wrap written out.
--
-- Not modelled: log output; tickers and goroutines, whose turns are events or steps here; the
-- fields of requests that no handler reads; gRPC, TLS and sign-in; the MongoDB store;
-- LoadSnapshot, so that the boot starts from an arbitrary snapshot; the bytes of files, ACL
-- files, .dir_shares and the JSON files of a file server, its start-up scan and metrics, the
-- requests that only read and the registration of clients; the client; the rest of the admin
-- console.
pub mod Prelude
pub mod GoMap
pub mod GoText
pub mod GoPath
pub mod InodeStore
pub mod FileServer
pub mod RingBuffer
pub mod MetaStore
pub mod MetaServer
pub mod Session
