-- ===== src/FileServer/Snapshots.antt =====
-- The shared directories below a path, in internal/fileserver/fileserver.go: collected before a tree
-- moves, taken out of fs.Shared, and put back under a new path. A write of .dir_shares that fails is
-- only logged and left out, and so is a notice that the metaserver does not get.
use distributed_virtual_file.Prelude.{
  String, Bool, none, some, List, [], ◌∷◌, ◌++◌, map, if◌then◌else◌, ◌||◌, ◌==◌, string_eq,
  precedes, keep,
}
use distributed_virtual_file.GoMap.{GoMap, get_or, insert, delete, is_some}
use distributed_virtual_file.GoText.{concat, strip_prefix}
use distributed_virtual_file.GoPath.{base, join}
use distributed_virtual_file.FileServer.{SharedSnapshot, FileServer}
use distributed_virtual_file.FileServer.Sharing.{Notice, root_share, root_unshare, add_user}

unfoldable pub is_below : String → String → Bool
is_below base_path path = path == base_path || is_some (strip_prefix (concat base_path "/") path)

-- sort.Slice by path; the paths are the keys of a map, so no two are equal.
unfoldable pub place_snapshot : SharedSnapshot → List SharedSnapshot → List SharedSnapshot
place_snapshot s [] = s ∷ []
place_snapshot s (t ∷ ts) =
    let rest = place_snapshot s ts in if precedes s.path t.path then s ∷ t ∷ ts else t ∷ rest

unfoldable pub sort_snapshots : List SharedSnapshot → List SharedSnapshot
sort_snapshots [] = []
sort_snapshots (s ∷ ss) = place_snapshot s (sort_snapshots ss)

-- collectSharedSnapshotsForPathLocked
unfoldable pub collect_snapshots : String → GoMap String (List String) → List SharedSnapshot
collect_snapshots base_path shared =
    if base_path == ""
    then []
    else sort_snapshots
        (map (λ e. record { path = e.0; users = e.1 }) (keep (λ e. is_below base_path e.0) shared))

unfoldable pub unshare_notices : String → List SharedSnapshot → List Notice
unshare_notices owner [] = []
unshare_notices owner (s ∷ ss) =
    map (λ user. root_unshare owner (base s.path) s.path user) s.users ++ unshare_notices owner ss

unfoldable pub drop_paths :
    List SharedSnapshot → GoMap String (List String) → GoMap String (List String)
drop_paths [] shared = shared
drop_paths (s ∷ ss) shared = drop_paths ss (delete s.path shared)

-- detachSharedSnapshotsLocked
unfoldable pub detach : String → List SharedSnapshot → FileServer → FileServer × List Notice
detach owner ss fs = (record fs { shared = drop_paths ss fs.shared }, unshare_notices owner ss)

-- Where a shared path below the old path stands below the new one.
unfoldable pub mapped_path : String → String → String → String
mapped_path old new path =
    if path == old
    then new
    else elim (strip_prefix (concat old "/") path) [ none ↦ path | some suffix ↦ join new suffix ]

unfoldable pub add_users : List String → List String → List String
add_users [] users = users
add_users (u ∷ us) users = add_users us (add_user u users)

-- reattachSharedSnapshotsLocked
unfoldable pub reattach :
    String → String → String → List SharedSnapshot → FileServer → FileServer × List Notice
reattach owner old new [] fs = (fs, [])
reattach owner old new (s ∷ ss) fs =
    let path = mapped_path old new s.path in
    let next = record fs {
      shared = insert path (add_users s.users (get_or path [] fs.shared)) fs.shared;
    } in
    let done = reattach owner old new ss next in
    (done.0, map (λ user. root_share owner (base path) path user) s.users ++ done.1)
