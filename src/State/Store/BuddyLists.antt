-- ===== src/State/Store/BuddyLists.antt =====
-- The methods of `SQLiteUserStore` (state/user_store.go) on buddy lists and privacy.
use go_icq.Prelude.{
  ℕ, Bool, true, false, ◌&&◌, ◌||◌, not, ◌==◌, some, List, [], ◌∷◌, map, bytes_eq, if◌then◌else◌,
}
use go_icq.Wire.Result.{Result, ok, err, panic, stuck, ◌>>=◌}
use go_icq.Wire.GoType.{Value}
use go_icq.Wire.Messages.{Tlv, tlv_l_block, of_tlv_value}
use go_icq.Wire.Encode.{marshal_be}
use go_icq.Wire.Decode.{unmarshal_be}
use go_icq.Wire.TlvList.{found, missing, panics, uint8}
use go_icq.Wire.Snacs.Blocks.{feedbag_item}
use go_icq.State.User.Name.{Unicode, new_ident_screen_name}
use go_icq.State.Sql.{upsert, upsert_ordered, update_where, delete_where}
use go_icq.State.Store.{
  FeedbagRow, ModeRow, ClientRow, Tables, same_item, item_before, same_user, same_pair,
}

-- The modes and the classes of items, of wire/snacs.go.
abbrev pub pd_permit_all : ℕ
pd_permit_all = 1

abbrev pub pd_deny_all : ℕ
pd_deny_all = 2

abbrev pub pd_permit_some : ℕ
pd_permit_some = 3

abbrev pub pd_deny_some : ℕ
pd_deny_some = 4

abbrev pub pd_permit_on_list : ℕ
pd_permit_on_list = 5

abbrev pub class_buddy : ℕ
class_buddy = 0

abbrev pub class_permit : ℕ
class_permit = 2

abbrev pub class_deny : ℕ
class_deny = 3

abbrev pub class_pdinfo : ℕ
class_pdinfo = 4

abbrev pub blank : List ℕ → List ℕ → ClientRow
blank me them = record {
  me = me;
  them = them;
  is_buddy = false;
  is_permit = false;
  is_deny = false;
}

abbrev pub is_pair : List ℕ → List ℕ → ClientRow → Bool
is_pair me them row = bytes_eq row.me me && bytes_eq row.them them

unfoldable pub add_buddy : Tables → List ℕ → List ℕ → Tables
add_buddy db me them = record db {
  client_lists =
      upsert same_pair (λ row. record row { is_buddy = true })
        (record (blank me them) { is_buddy = true }) db.client_lists;
}

unfoldable pub remove_buddy : Tables → List ℕ → List ℕ → Tables
remove_buddy db me them = record db {
  client_lists =
      update_where (is_pair me them) (λ row. record row { is_buddy = false }) db.client_lists;
}

unfoldable pub deny_buddy : Tables → List ℕ → List ℕ → Tables
deny_buddy db me them = record db {
  client_lists =
      upsert same_pair (λ row. record row { is_deny = true })
        (record (blank me them) { is_deny = true }) db.client_lists;
}

unfoldable pub remove_deny_buddy : Tables → List ℕ → List ℕ → Tables
remove_deny_buddy db me them = record db {
  client_lists =
      update_where (is_pair me them) (λ row. record row { is_deny = false }) db.client_lists;
}

unfoldable pub permit_buddy : Tables → List ℕ → List ℕ → Tables
permit_buddy db me them = record db {
  client_lists =
      upsert same_pair (λ row. record row { is_permit = true })
        (record (blank me them) { is_permit = true }) db.client_lists;
}

unfoldable pub remove_permit_buddy : Tables → List ℕ → List ℕ → Tables
remove_permit_buddy db me them = record db {
  client_lists =
      update_where (is_pair me them) (λ row. record row { is_permit = false }) db.client_lists;
}

unfoldable pub clear_buddy_list_registry : Tables → Tables
clear_buddy_list_registry db = record db { modes = []; client_lists = [] }

-- A user who is registered keeps his row.
unfoldable pub register_buddy_list : Tables → List ℕ → Tables
register_buddy_list db user = record db {
  modes =
      upsert same_user (λ row. row)
        (record { user = user; client_side_pd_mode = pd_permit_all; use_feedbag = false }) db.modes;
}

unfoldable pub unregister_buddy_list : Tables → List ℕ → Tables
unregister_buddy_list db user = record db {
  modes = delete_where (λ (row : ModeRow). bytes_eq row.user user) db.modes;
  client_lists = delete_where (λ (row : ClientRow). bytes_eq row.me user) db.client_lists;
}

unfoldable pub use_feedbag : Tables → List ℕ → Tables
use_feedbag db user = record db {
  modes =
      upsert same_user (λ row. record row { client_side_pd_mode = 0; use_feedbag = true })
        (record { user = user; client_side_pd_mode = 0; use_feedbag = true }) db.modes;
}

-- `SetPDMode` and its three statements, in one transaction.
unfoldable pub is_pd_mode_equal : List ModeRow → List ℕ → ℕ → Bool
is_pd_mode_equal [] me mode = false
is_pd_mode_equal (row ∷ rows) me mode =
    (bytes_eq row.user me && row.client_side_pd_mode == mode) || is_pd_mode_equal rows me mode

unfoldable pub set_client_side_pd_mode : Tables → List ℕ → ℕ → Tables
set_client_side_pd_mode db me mode = record db {
  modes =
      upsert same_user (λ row. record row { client_side_pd_mode = mode })
        (record { user = me; client_side_pd_mode = mode; use_feedbag = false }) db.modes;
}

unfoldable pub clear_client_side_pd_flags : Tables → List ℕ → Tables
clear_client_side_pd_flags db me = record db {
  client_lists =
      update_where (λ (row : ClientRow). bytes_eq row.me me)
        (λ row. record row { is_deny = false; is_permit = false }) db.client_lists;
}

abbrev pub is_blank : ClientRow → Bool
is_blank row = not row.is_buddy && (not row.is_permit && not row.is_deny)

unfoldable pub clear_blank_client_side_buddies : Tables → List ℕ → Tables
clear_blank_client_side_buddies db me = record db {
  client_lists =
      delete_where (λ (row : ClientRow). is_blank row && bytes_eq row.me me) db.client_lists;
}

unfoldable pub set_pd_mode : Tables → List ℕ → ℕ → Tables
unfolding set_client_side_pd_mode clear_client_side_pd_flags clear_blank_client_side_buddies
set_pd_mode db me mode =
    if is_pd_mode_equal db.modes me mode
    then db
    else clear_blank_client_side_buddies
        (clear_client_side_pd_flags (set_client_side_pd_mode db me mode) me) me

-- A `FeedbagItem` with its TLVs.
abbrev pub FeedbagItem : Type 0
FeedbagItem = Value feedbag_item

abbrev pub names_user : ℕ → Bool
names_user class_id =
    class_id == class_buddy || (class_id == class_permit || class_id == class_deny)

-- The mode that an item with privacy information has: `Uint8` panics on a value that is empty.
abbrev pub item_pd_mode : ℕ → List Tlv → Result ℕ
item_pd_mode class_id tlvs =
    if class_id == class_pdinfo
    then elim (uint8 tlvs 0xCA) [ found m ↦ ok m | missing ↦ ok pd_permit_all | panics ↦ panic ]
    else ok 0

-- The row of an item. A `FeedbagItem` starts with the block of its TLVs.
unfoldable pub feedbag_row : Unicode → List ℕ → FeedbagItem → Result FeedbagRow
feedbag_row u user (block, (group_id, (item_id, (class_id, (name, end_))))) = do
  attributes ← marshal_be tlv_l_block block
  pd ← item_pd_mode class_id (map of_tlv_value block.0)
  ok (record {
    owner = user;
    group_id = group_id;
    item_id = item_id;
    class_id = class_id;
    name = if names_user class_id then new_ident_screen_name u name else name;
    attributes = attributes;
    pd_mode = some pd;
  })

-- The statement for one row.
unfoldable pub put_row : Tables → FeedbagRow → Tables
put_row db new = record db { feedbag = upsert_ordered same_item item_before new db.feedbag }

-- The loop over the items, with the tables as an error leaves them.
abbrev put_if :
    Tables → Result FeedbagRow → (Tables → Tables × Result (Unit {0})) → Tables × Result (Unit {0})
put_if db (ok row) f = f (put_row db row)
put_if db (err e) f = (db, err e)
put_if db panic f = (db, panic)
put_if db stuck f = (db, stuck)

unfoldable pub feedbag_upsert :
    Unicode → Tables → List ℕ → List FeedbagItem → Tables × Result (Unit {0})
unfolding put_row feedbag_row
feedbag_upsert u db user [] = (db, ok tt)
feedbag_upsert u db user (item ∷ items) =
    put_if db (feedbag_row u user item) (λ db'. feedbag_upsert u db' user items)

-- Only the item's own ID is asked for, not its group.
unfoldable pub feedbag_delete : Tables → List ℕ → List FeedbagItem → Tables
feedbag_delete db user [] = db
feedbag_delete db user ((block, (group_id, (item_id, rest))) ∷ items) =
    feedbag_delete
      (record db {
        feedbag =
            delete_where (λ (row : FeedbagRow). bytes_eq row.owner user && row.item_id == item_id)
              db.feedbag;
      })
      user items

-- `Feedbag`: the items of a user, up to the first whose attributes cannot be read.
unfoldable pub feedbag_of : List FeedbagRow → List ℕ → Result (List FeedbagItem)
feedbag_of [] user = ok []
feedbag_of (row ∷ rows) user =
    let rest = feedbag_of rows user in
    if bytes_eq row.owner user
    then (do
      block ← (unmarshal_be tlv_l_block row.attributes).0
      items ← rest
      ok ((block, (row.group_id, (row.item_id, (row.class_id, (row.name, tt))))) ∷ items))
    else rest
