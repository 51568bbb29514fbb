-- ===== src/MetaStore/Examples.antt =====
-- The in-process store on concrete inputs.
use distributed_virtual_file.Prelude.{
  arith, is_empty, if◌then◌else◌, String, String, ◌≡◌, refl, List, [], ◌∷◌, if◌then◌else◌, ◌==◌,
  string_eq, not, contains, none,
}
use distributed_virtual_file.GoMap.{get, insert, delete, accept}
use distributed_virtual_file.MetaStore.{
  FileServerRecord, ShareRecord, share_key_eq, Context, live, done, new, normalize_share_path,
  upsert_file_server, next_id_after, numeric_id_for, rename_file_server, move_record, assign_user,
  kept_segments, is_dropped, add_share, remove_share, remove_shares_involving,
  remove_shares_by_owner,
}
use distributed_virtual_file.GoText.{chars, forward_slashes, split_slashes, join_slashes}
use distributed_virtual_file.MetaStore.Paths.{names_of, normalize_share_path_lem}
use distributed_virtual_file.MetaStore.Calls.{
  Call, upserts, renames, assigns, adds_share, after, run,
}
use distributed_virtual_file.MetaStore.Identity.{IdsOf, HasRoom, ids_distinct}
use distributed_virtual_file.MetaStore.Sharing.{
  key_of, involves, remove-add_share, reachable-IsMap, get-remove_shares,
}
use distributed_virtual_file.MetaStore.Idempotence.{SameStore, after-after}

abbrev node : String → String → FileServerRecord
node id address = record {
  node_id = id;
  numeric_id = 7;
  address = address;
  last_heartbeat_unix = 100;
  status = "healthy";
}

abbrev grant : String → String → String → ShareRecord
grant grantee owner path = record {
  grantee = grantee;
  owner = owner;
  path = path;
  display_name = path;
}

abbrev writes : List (Context × Call)
writes =
    (live, upserts (node "addr:10.0.0.1:50051" "10.0.0.1:50051"))
    ∷ (live, upserts (node "fs2" "10.0.0.2:50051"))
    ∷ (live, renames "addr:10.0.0.1:50051" "fs1")
    ∷ (done, renames "fs2" "fs1")
    ∷ (live, assigns "alice" "fs1")
    ∷ (live, adds_share (grant "bob" "alice" "alice/docs"))
    ∷ (live, adds_share (grant "alice" "carol" "/carol/pics/"))
    ∷ []

abbrev alice_only : List String
alice_only = "alice" ∷ []

abbrev windows_path : String
windows_path = "\\alice\\./proj/"

normalize_share_path_lem_example :
    (split_slashes (chars (normalize_share_path windows_path))
      ≡ (if is_empty (names_of windows_path) then [] ∷ [] else names_of windows_path))
    × (normalize_share_path (normalize_share_path windows_path) ≡ normalize_share_path windows_path)
normalize_share_path_lem_example = normalize_share_path_lem windows_path

roomy : HasRoom new writes
unfolding HasRoom after upsert_file_server next_id_after numeric_id_for rename_file_server
    move_record assign_user add_share get insert delete
roomy = (
  omega arith,
  (omega arith, (omega arith, (omega arith, (omega arith, (omega arith, (omega arith, tt)))))),
)

ids_distinct_example : IdsOf (run new writes)
ids_distinct_example = ids_distinct writes roomy

same_path : normalize_share_path "\\alice\\docs" ≡ normalize_share_path "/alice/./docs"
unfolding normalize_share_path kept_segments is_dropped forward_slashes split_slashes join_slashes
same_path = refl

remove-add_share_example :
    get
      (key_of "bob" "alice" "alice/docs")
      (remove_share live "bob" "alice" "\\alice\\docs"
        (add_share live (grant "bob" "alice" "/alice/./docs") (run new writes)).1).1.shares
    ≡ (if key_of "bob" "alice" "/alice/./docs" == key_of "bob" "alice" "alice/docs"
        then none
        else get (key_of "bob" "alice" "alice/docs") (run new writes).shares)
remove-add_share_example =
    remove-add_share (grant "bob" "alice" "/alice/./docs") "\\alice\\docs"
      (key_of "bob" "alice" "alice/docs") (run new writes) same_path

get-remove_shares_example :
    (get
        (key_of "alice" "carol" "carol/pics")
        (remove_shares_involving live alice_only (run new writes)).1.shares
      ≡ accept
          (λ r. not (involves alice_only (key_of "alice" "carol" "carol/pics")))
          (get (key_of "alice" "carol" "carol/pics") (run new writes).shares))
    × (get
          (key_of "alice" "carol" "carol/pics")
          (remove_shares_by_owner live alice_only (run new writes)).1.shares
        ≡ accept
            (λ r. not (contains "carol" alice_only))
            (get (key_of "alice" "carol" "carol/pics") (run new writes).shares))
get-remove_shares_example =
    get-remove_shares alice_only (key_of "alice" "carol" "carol/pics") (run new writes)
      (reachable-IsMap writes)

after-after_example :
    SameStore
      (after live (renames "fs2" "fs3") (after live (renames "fs2" "fs3") (run new writes)))
      (after live (renames "fs2" "fs3") (run new writes))
after-after_example = after-after (renames "fs2" "fs3") (run new writes)
