-- ===== src/PaneModel.antt =====
-- packages/shared/src/pane-model.ts: the panes of a worktree.
pub mod Sorting
pub mod Singletons
mod Tests
use Prim.Native.String.{◌++◌ as append}
use parasor.Base.{
  ℕ, ◌&&◌, ◌||◌, Bool, true, false, not, Option, none, some, List, [], ◌∷◌, ◌++◌, String,
  if◌then◌else◌,
}

pub data PaneKind : Type 0 where
  files terminal browser git : PaneKind

-- `PaneState`, by the kinds.
pub data PaneState : Type 0 where
  files_state git_state : Option String → PaneState
  terminal_state : String → PaneState
  browser_state : String → Option Bool → PaneState

pub record PaneEntry : Type 0 where
  pub id : String
  pub kind : PaneKind
  pub worktree_path : String
  pub state : PaneState

abbrev pub files_pane_id : String → String
files_pane_id worktree_path = append "files:" worktree_path

abbrev pub git_pane_id : String → String
git_pane_id worktree_path = append "git:" worktree_path

abbrev pub make_files_pane : String → PaneEntry
make_files_pane worktree_path = record {
  id = files_pane_id worktree_path;
  kind = files;
  worktree_path = worktree_path;
  state = files_state none;
}

abbrev pub make_git_pane : String → PaneEntry
make_git_pane worktree_path = record {
  id = git_pane_id worktree_path;
  kind = git;
  worktree_path = worktree_path;
  state = git_state none;
}

abbrev pub same_kind : PaneKind → PaneKind → Bool
same_kind files files = true
same_kind terminal terminal = true
same_kind browser browser = true
same_kind git git = true
same_kind _ _ = false

-- `panes.filter((p) => p.kind === kind)`
unfoldable pub panes_of : PaneKind → List PaneEntry → List PaneEntry
panes_of kind [] = []
panes_of kind (p ∷ ps) = if same_kind p.kind kind then p ∷ panes_of kind ps else panes_of kind ps

unfoldable pub sort_panes_for_list : List PaneEntry → List PaneEntry
sort_panes_for_list panes =
    panes_of files panes
    ++ (panes_of terminal panes ++ (panes_of browser panes ++ panes_of git panes))

-- `panes.some((p) => p.kind === kind)`
unfoldable pub has_kind : PaneKind → List PaneEntry → Bool
has_kind kind [] = false
has_kind kind (p ∷ ps) = same_kind p.kind kind || has_kind kind ps

abbrev with_files : String → List PaneEntry → List PaneEntry
with_files worktree_path panes = make_files_pane worktree_path ∷ panes

abbrev with_git : String → List PaneEntry → List PaneEntry
with_git worktree_path panes = panes ++ make_git_pane worktree_path ∷ []

unfoldable pub ensure_singletons : String → List PaneEntry → List PaneEntry
ensure_singletons worktree_path panes =
    let has_files = has_kind files panes in
    let has_git = has_kind git panes in
    if has_files && has_git
    then panes
    else let next = if not has_files then with_files worktree_path panes else panes in
      if not has_git then with_git worktree_path next else next
