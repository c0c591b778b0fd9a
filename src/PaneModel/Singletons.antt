-- ===== src/PaneModel/Singletons.antt =====
-- The two panes that each worktree has.
use mathlib.Core.List.{append-nil}
use parasor.Base.{◌≡◌, refl, ◌||◌, true, false, List, [], ◌∷◌, ◌++◌, arith, String}
use parasor.PaneModel.{
  PaneKind, files, terminal, browser, git, PaneEntry, same_kind, panes_of, has_kind, make_git_pane,
  make_files_pane, ensure_singletons,
}
use parasor.PaneModel.Sorting.{panes_of-++}

has_kind-++ :
    (kind : PaneKind) (a b : List PaneEntry)
    → has_kind kind (a ++ b) ≡ (has_kind kind a || has_kind kind b)
unfolding has_kind
has_kind-++ kind [] b = refl
has_kind-++ kind (p ∷ a) b = ground (arith, has_kind-++ kind a b)

-- Files and git are there, and of the other kinds what was there.
pub record HasSingletons (panes next : List PaneEntry) : Type 0 where
  pub has_files : has_kind files next ≡ true
  pub has_git : has_kind git next ≡ true
  pub terminals : panes_of terminal next ≡ panes_of terminal panes
  pub browsers : panes_of browser next ≡ panes_of browser panes

without_git :
    (kind : PaneKind) (path : String) (ps : List PaneEntry)
    → same_kind git kind ≡ false
    → panes_of kind (ps ++ make_git_pane path ∷ []) ≡ panes_of kind ps
unfolding panes_of
without_git kind path ps n =
    rw (panes_of-++ kind ps (make_git_pane path ∷ []), n) (append-nil (panes_of kind ps))

complete : (path : String) (ps : List PaneEntry) → HasSingletons ps (ensure_singletons path ps)
unfolding ensure_singletons has_kind panes_of
complete path ps = record {
  has_files = ground (arith, has_kind-++ files ps (make_git_pane path ∷ []));
  has_git = ground (
    arith,
    has_kind-++ git ps (make_git_pane path ∷ []),
    has_kind-++ git (make_files_pane path ∷ ps) (make_git_pane path ∷ []),
  );
  terminals = ground (
    arith,
    without_git terminal path ps refl,
    without_git terminal path (make_files_pane path ∷ ps) refl,
  );
  browsers = ground (
    arith,
    without_git browser path ps refl,
    without_git browser path (make_files_pane path ∷ ps) refl,
  );
}

ensure_again :
    (path : String) (ps : List PaneEntry)
    → has_kind files ps ≡ true
    → has_kind git ps ≡ true
    → ensure_singletons path ps ≡ ps
unfolding ensure_singletons
ensure_again path ps f g = rw (f, g)

-- `ensureSingletons` gives a worktree a files pane and a git pane, keeps its terminals and browsers in
-- their order, and changes nothing when it is called again, with whatever path.
ensure_singletons-HasSingletons :
    (path again : String) (ps : List PaneEntry)
    → HasSingletons ps (ensure_singletons path ps)
      × (ensure_singletons again (ensure_singletons path ps) ≡ ensure_singletons path ps)
ensure_singletons-HasSingletons path again ps =
    let c = complete path ps in
    (c, ensure_again again (ensure_singletons path ps) c.has_files c.has_git)
