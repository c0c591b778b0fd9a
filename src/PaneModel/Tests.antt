-- ===== src/PaneModel/Tests.antt =====
-- A browser before a terminal.
use parasor.Base.{◌≡◌, refl, [], ◌∷◌, none}
use parasor.PaneModel.Sorting.{IsStableSort, sort_panes_for_list-IsStableSort}
use parasor.PaneModel.{
  PaneEntry, terminal, browser, terminal_state, browser_state, make_files_pane, make_git_pane,
  sort_panes_for_list, panes_of, ensure_singletons, has_kind,
}

abbrev shell : PaneEntry
shell = record { id = "t"; kind = terminal; worktree_path = "/w"; state = terminal_state "s" }

abbrev page : PaneEntry
page = record { id = "b"; kind = browser; worktree_path = "/w"; state = browser_state "u" none }

sorted :
    sort_panes_for_list (make_git_pane "/w" ∷ page ∷ shell ∷ [])
    ≡ shell ∷ page ∷ make_git_pane "/w" ∷ []
unfolding sort_panes_for_list panes_of
sorted = refl

ensured :
    ensure_singletons "/w" (page ∷ shell ∷ [])
    ≡ make_files_pane "/w" ∷ page ∷ shell ∷ make_git_pane "/w" ∷ []
unfolding ensure_singletons has_kind
ensured = refl

sort_panes_for_list-IsStableSort_example :
    IsStableSort (page ∷ shell ∷ []) (sort_panes_for_list (page ∷ shell ∷ []))
sort_panes_for_list-IsStableSort_example = sort_panes_for_list-IsStableSort (page ∷ shell ∷ [])
