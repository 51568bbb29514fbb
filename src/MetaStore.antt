-- ===== src/MetaStore.antt =====
-- internal/storage/meta.go and internal/storage/memory/memory.go: the durable record of the
-- cluster's nodes, users and shares, as the in-process store keeps it. Each operation runs under
-- the store's lock. A context that is done makes it return its error and change nothing.
pub mod Paths
pub mod Calls
pub mod Identity
pub mod Sharing
pub mod Idempotence
mod Examples
use Prim.Native.Char.{Char}
use distributed_virtual_file.Prelude.{
  ℕ, ◌+◌, ◌%◌, ◌^◌, String, ◌≡◌, ◌↔◌, ap, Bool, true, false, not, ◌&&◌, ◌||◌, Option, none, some,
  List, [], ◌∷◌, ◌++◌, map, arith, if◌then◌else◌, Eq, ◌==◌, ==_iff, string_eq, keep, contains,
  is_empty,
}
use distributed_virtual_file.GoMap.{GoMap, get, delete, insert}
use distributed_virtual_file.GoText.{
  chars, from_chars, split_slashes, join_slashes, forward_slashes, is_char,
}

pub record FileServerRecord : Type 0 where
  pub node_id : String
  pub numeric_id : ℕ
  pub address : String
  pub last_heartbeat_unix : ℕ
  pub status : String

pub record UserRecord : Type 0 where
  pub username : String
  pub home_node_id : String

pub record ShareRecord : Type 0 where
  pub grantee : String
  pub owner : String
  pub path : String
  pub display_name : String

pub record ShareKey : Type 0 where
  pub grantee : String
  pub owner : String
  pub path : String

abbrev pub share_key_beq : ShareKey → ShareKey → Bool
share_key_beq a b = a.grantee == b.grantee && (a.owner == b.owner && a.path == b.path)

pub share_key_iff : (a b : ShareKey) → (share_key_beq a b ≡ true) ↔ (a ≡ b)
share_key_iff a b = (
  λ h. ground (arith, ==_iff a.grantee b.grantee, ==_iff a.owner b.owner, ==_iff a.path b.path),
  λ h. ground (arith, ==_iff a.grantee b.grantee, ==_iff a.owner b.owner, ==_iff a.path b.path),
)

instance abbrev pub share_key_eq : Eq ShareKey
share_key_eq = record { equal = share_key_beq; equal_iff = share_key_iff }

pub record Store : Type 0 where
  pub file_servers : GoMap String FileServerRecord
  pub users : GoMap String String
  pub shares : GoMap ShareKey ShareRecord
  pub next_numeric_id : ℕ

-- New of memory.go.
abbrev pub new : Store
new = record { file_servers = []; users = []; shares = []; next_numeric_id = 0 }

pub data StoreError : Type 0 where
  not_found context_done : StoreError

pub data Result (A : Type 0) : Type 0 where
  ok : A → Result A
  err : StoreError → Result A

pub data Context : Type 0 where
  live done : Context

-- if err := ctx.Err(); err != nil { return err }
unfoldable pub unless_done : {A : Type 0} → Context → Store → Result A × Store → Result A × Store
unless_done live s r = r
unless_done done s r = (err context_done, s)

-- `s == "" || s == "."`, for the characters of a segment.
unfoldable pub is_dropped : List Char → Bool
is_dropped [] = true
is_dropped (c ∷ []) = is_char b'.' c
is_dropped (c ∷ d ∷ cs) = false

unfoldable pub kept_segments : List Char → List (List Char)
kept_segments cs = keep (λ s. not (is_dropped s)) (split_slashes (forward_slashes cs))

unfoldable pub normalize_share_path : String → String
normalize_share_path p = from_chars (join_slashes (kept_segments (chars p)))

unfoldable pub share_key : ShareRecord → ShareKey
share_key sh = record { grantee = sh.grantee; owner = sh.owner; path = sh.path }

unfoldable pub normalized : ShareRecord → ShareRecord
normalized sh = record sh { path = normalize_share_path sh.path }

-- Operations on nodes.
unfoldable pub numeric_id_for : String → Store → ℕ
numeric_id_for node_id s = elim (get node_id s.file_servers) [
  | some existing ↦ existing.numeric_id
  | none ↦ s.next_numeric_id
]

unfoldable pub next_id_after : String → Store → ℕ
next_id_after node_id s = elim (get node_id s.file_servers) [
  | some existing ↦ s.next_numeric_id
  | none ↦ (s.next_numeric_id + 1) % 2 ^ 64
]

unfoldable pub upsert_file_server : Context → FileServerRecord → Store → Result ℕ × Store
unfolding unless_done
upsert_file_server ctx rec s =
    let id = numeric_id_for rec.node_id s in
    unless_done ctx s (
      ok id,
      record s {
        file_servers = insert rec.node_id (record rec { numeric_id = id }) s.file_servers;
        next_numeric_id = next_id_after rec.node_id s;
      },
    )

unfoldable pub remove_file_server : Context → String → Store → Result (Unit {0}) × Store
unfolding unless_done
remove_file_server ctx node_id s =
    unless_done ctx s (ok tt, record s { file_servers = delete node_id s.file_servers })

-- The update of one record, or ErrNotFound.
unfoldable pub update_node :
    String → (FileServerRecord → FileServerRecord) → Store → Result (Unit {0}) × Store
update_node node_id f s = elim (get node_id s.file_servers) [
  | none ↦ (err not_found, s)
  | some rec ↦ (ok tt, record s { file_servers = insert node_id (f rec) s.file_servers })
]

unfoldable pub record_heartbeat : Context → String → ℕ → String → Store → Result (Unit {0}) × Store
unfolding unless_done update_node
record_heartbeat ctx node_id at status s = unless_done ctx s (
    update_node node_id
      (λ rec. record rec {
        last_heartbeat_unix = at;
        status = if status == "" then rec.status else status;
      })
      s)

unfoldable pub set_file_server_status :
    Context → String → String → Store → Result (Unit {0}) × Store
unfolding unless_done update_node
set_file_server_status ctx node_id status s =
    unless_done ctx s (update_node node_id (λ rec. record rec { status = status }) s)

-- The users of one home move to another.
unfoldable pub rehome : String → String → GoMap String String → GoMap String String
rehome old_id new_id [] = []
rehome old_id new_id ((u, home) ∷ m) =
    (u, if home == old_id then new_id else home) ∷ rehome old_id new_id m

unfoldable pub move_record :
    String
    → String
    → FileServerRecord
    → GoMap String FileServerRecord
    → GoMap String FileServerRecord
move_record old_id new_id rec m =
    let rest = delete old_id m in
    elim (get new_id rest) [
      | some kept ↦ rest
      | none ↦ insert new_id (record rec { node_id = new_id }) rest
    ]

unfoldable pub rename_file_server : Context → String → String → Store → Result (Unit {0}) × Store
unfolding unless_done
rename_file_server ctx old_id new_id s = unless_done ctx s (
    if old_id == new_id then (ok tt, s) else elim (get old_id s.file_servers) [
      | none ↦ (err not_found, s)
      | some rec ↦ (
        ok tt,
        record s {
          users = rehome old_id new_id s.users;
          file_servers = move_record old_id new_id rec s.file_servers;
        },
      )
    ])

-- Operations on users.
unfoldable pub assign_all : List UserRecord → GoMap String String → GoMap String String
assign_all [] m = m
assign_all (u ∷ us) m = assign_all us (insert u.username u.home_node_id m)

unfoldable pub remove_all : List String → GoMap String String → GoMap String String
remove_all [] m = m
remove_all (u ∷ us) m = remove_all us (delete u m)

unfoldable pub assign_user : Context → String → String → Store → Result (Unit {0}) × Store
unfolding unless_done
assign_user ctx username node_id s =
    unless_done ctx s (ok tt, record s { users = insert username node_id s.users })

unfoldable pub assign_users : Context → List UserRecord → Store → Result (Unit {0}) × Store
unfolding unless_done
assign_users ctx us s = unless_done ctx s (ok tt, record s { users = assign_all us s.users })

unfoldable pub remove_users : Context → List String → Store → Result (Unit {0}) × Store
unfolding unless_done
remove_users ctx us s = unless_done ctx s (ok tt, record s { users = remove_all us s.users })

-- Operations on shares.
unfoldable pub put_share : ShareRecord → GoMap ShareKey ShareRecord → GoMap ShareKey ShareRecord
put_share sh m = insert (share_key (normalized sh)) (normalized sh) m

unfoldable pub put_shares :
    List ShareRecord → GoMap ShareKey ShareRecord → GoMap ShareKey ShareRecord
put_shares [] m = m
put_shares (sh ∷ shs) m = put_shares shs (put_share sh m)

unfoldable pub add_share : Context → ShareRecord → Store → Result (Unit {0}) × Store
unfolding unless_done put_share
add_share ctx sh s = unless_done ctx s (ok tt, record s { shares = put_share sh s.shares })

unfoldable pub add_shares : Context → List ShareRecord → Store → Result (Unit {0}) × Store
unfolding unless_done put_shares
add_shares ctx shs s = unless_done ctx s (ok tt, record s { shares = put_shares shs s.shares })

unfoldable pub remove_share : Context → String → String → String → Store → Result (Unit {0}) × Store
unfolding unless_done
remove_share ctx grantee owner path s = unless_done ctx s (
  ok tt,
  record s {
    shares =
        delete (record { grantee = grantee; owner = owner; path = normalize_share_path path })
          s.shares;
  },
)

unfoldable pub remove_shares_involving : Context → List String → Store → Result (Unit {0}) × Store
unfolding unless_done
remove_shares_involving ctx names s = unless_done ctx s (
    if is_empty names then (ok tt, s) else (
      ok tt,
      record s {
        shares = keep (λ e. not (contains e.0.grantee names || contains e.0.owner names)) s.shares;
      },
    ))

unfoldable pub remove_shares_by_owner : Context → List String → Store → Result (Unit {0}) × Store
unfolding unless_done
remove_shares_by_owner ctx owners s = unless_done ctx s (
    if is_empty owners
    then (ok tt, s)
    else (ok tt, record s { shares = keep (λ e. not (contains e.0.owner owners)) s.shares }))
