-- ===== src/State/Relationship/Tests.antt =====
-- Relationships of concrete users.
use go_icq.Prelude.{◌≡◌, refl, ℕ, true, false, List, map, codes}
use go_icq.State.User.Name.{Unicode, new_ident_screen_name}
use go_icq.State.Text.{
  lower_byte, runes, runes_after, decode_rune, without_spaces, is_ascii, to_lower,
}
use go_icq.State.Store.{Tables, no_rows}
use go_icq.State.Sql.{
  upsert, update_where, delete_where, matches, lookup, left_rows, unmatched, outer_join, is_member,
}
use go_icq.State.Store.BuddyLists.{
  add_buddy, deny_buddy, remove_deny_buddy, register_buddy_list, set_pd_mode, is_pd_mode_equal,
  pd_deny_some, pd_deny_all, set_client_side_pd_mode, clear_client_side_pd_flags,
  clear_blank_client_side_buddies,
}
use go_icq.State.Relationship.{
  relationship, unrelated, uses_feedbag, group_row, group_by, select_items, select_client,
  merge_lists, their_buddy_lists, your_buddy_list, pd_items, privacy_prefs, relations,
  all_relationships,
}
use go_icq.State.Relationship.Pair.{items_mode, mode_of, relationship_of}
use go_icq.State.Relationship.Pair.Refines.{relationship-relationship_of}
use go_icq.State.Relationship.Effects.{Mirrored, relationship-Mirrored, deny_buddy-you_block}

abbrev alice : List ℕ
alice = codes "alice"

abbrev bob : List ℕ
bob = codes "bob"

-- Two users who have signed on.
abbrev signed_on : Tables
signed_on = register_buddy_list (register_buddy_list no_rows alice) bob

abbrev denying : Tables
denying = set_pd_mode signed_on alice pd_deny_some

-- A package unicode that knows Latin-1 only.
abbrev latin : Unicode
latin = record { lower = map lower_byte; letters = λ r. false; digits = λ r. false }

deny_buddy-you_block_example :
    ((relationship latin (deny_buddy denying alice bob) alice bob).you_block ≡ true)
    × ((relationship latin
          (remove_deny_buddy (deny_buddy denying alice bob) alice bob)
          alice
          bob).you_block
        ≡ false)
unfolding register_buddy_list set_pd_mode is_pd_mode_equal set_client_side_pd_mode
    clear_client_side_pd_flags clear_blank_client_side_buddies upsert update_where delete_where
    uses_feedbag items_mode mode_of
deny_buddy-you_block_example = deny_buddy-you_block latin denying alice bob 1 refl refl refl

relationship-relationship_of_example :
    relationship latin (deny_buddy denying alice bob) bob alice
    ≡ relationship_of latin (deny_buddy denying alice bob) bob alice
relationship-relationship_of_example =
    relationship-relationship_of latin (deny_buddy denying alice bob) bob alice

relationship-Mirrored_example :
    Mirrored
      (relationship latin (deny_buddy denying alice bob) alice bob)
      (relationship latin (deny_buddy denying alice bob) bob alice)
relationship-Mirrored_example = relationship-Mirrored latin (deny_buddy denying alice bob) alice bob

-- Bob, whom Alice denies, is told so, and that she is on his list.
bob-alice :
    relationship latin (add_buddy (deny_buddy denying alice bob) bob alice) bob alice ≡ record {
      with_user = alice;
      blocks_you = true;
      you_block = false;
      is_on_their_list = false;
      is_on_your_list = true;
    }
unfolding register_buddy_list set_pd_mode is_pd_mode_equal set_client_side_pd_mode
    clear_client_side_pd_flags clear_blank_client_side_buddies upsert update_where delete_where
    uses_feedbag deny_buddy add_buddy relationship all_relationships their_buddy_lists
    your_buddy_list relations privacy_prefs pd_items merge_lists select_client select_items group_by
    group_row outer_join unmatched left_rows lookup matches is_member new_ident_screen_name runes
    runes_after decode_rune without_spaces is_ascii to_lower
bob-alice = refl

-- A user who denies all has no relationship with one whom no list names, and one of the two is not told that
-- the other blocks him.
deny_all-stranger :
    relationship latin (set_pd_mode signed_on alice pd_deny_all) bob alice ≡ unrelated alice
unfolding register_buddy_list set_pd_mode is_pd_mode_equal set_client_side_pd_mode
    clear_client_side_pd_flags clear_blank_client_side_buddies upsert update_where delete_where
    uses_feedbag deny_buddy add_buddy relationship all_relationships their_buddy_lists
    your_buddy_list relations privacy_prefs pd_items merge_lists select_client select_items group_by
    group_row outer_join unmatched left_rows lookup matches is_member new_ident_screen_name runes
    runes_after decode_rune without_spaces is_ascii to_lower
deny_all-stranger = refl
