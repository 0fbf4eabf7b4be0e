-- ===== src/State/Store/Keywords/Tests.antt =====
-- Keywords at concrete inputs.
use go_icq.Prelude.{◌≡◌, refl, none, some, inr, [], ◌∷◌, codes}
use go_icq.State.Store.Keywords.{
  Directory, any_of, is_chosen, delete_category, delete_keyword, set_keywords, find_by_aim_keyword,
  keywords_by_category, sort_by_name, select_keywords, category_not_found, id_of,
}
use go_icq.State.Sql.{update_where}
use go_icq.State.Store.Keywords.InUse.{is_keyword, delete_category-is_keyword}

-- Alice likes jazz, of the category of music.
abbrev music : Directory
music = record {
  categories = record { id = 5; name = codes "Music" } ∷ [];
  keywords = record { key_id = 5; word = codes "Jazz"; parent = some 5 } ∷ [];
  choices_of = record { chooser = codes "alice"; choices = none ∷ some 5 ∷ [] } ∷ [];
}

delete_category-is_keyword_example :
    (is_keyword (delete_category music 5).0.keywords 5 ≡ is_keyword music.keywords 5)
    × (is_keyword (delete_keyword music 5).0.keywords 5 ≡ is_keyword music.keywords 5)
unfolding is_chosen any_of
delete_category-is_keyword_example = delete_category-is_keyword music 5 5 refl

alice-found :
    find_by_aim_keyword
      (set_keywords music (codes "alice") (codes "Rock" ∷ codes "Jazz" ∷ []))
      (codes "Jazz")
    ≡ codes "alice" ∷ []
unfolding find_by_aim_keyword set_keywords id_of update_where any_of
alice-found = refl

-- Where there is no keyword outside the categories, to ask for them is an error.
no_top_level : keywords_by_category music 0 ≡ inr category_not_found
unfolding keywords_by_category select_keywords sort_by_name any_of
no_top_level = refl
