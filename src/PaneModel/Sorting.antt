-- ===== src/PaneModel/Sorting.antt =====
-- The order of panes in a list: a stable sort by kind.
use mathlib.Core.List.{Perm, perm_middle, append-nil}
use mathlib.Core.List.Perm
use parasor.Base.{
  ℕ, ◌≡◌, ◌≤◌, refl, ◌&&◌, Bool, true, List, [], ◌∷◌, ◌++◌, leb, if◌then◌else◌, arith,
}
use parasor.PaneModel.{
  PaneKind, files, terminal, browser, git, PaneEntry, same_kind, panes_of, sort_panes_for_list,
}

abbrev pub rank : PaneKind → ℕ
rank files = 0
rank terminal = 1
rank browser = 2
rank git = 3

-- The ranks do not go down.
pub ascends : ℕ → List PaneEntry → Bool
ascends n [] = true
ascends n (p ∷ ps) = leb n (rank p.kind) && ascends (rank p.kind) ps

-- The same panes, by rank, and those of one kind in the order they had.
pub record IsStableSort (panes sorted : List PaneEntry) : Type 0 where
  pub permutes : Perm panes sorted
  pub ordered : ascends 0 sorted ≡ true
  pub stable : (kind : PaneKind) → panes_of kind sorted ≡ panes_of kind panes

pub panes_of-++ :
    (kind : PaneKind) (a b : List PaneEntry)
    → panes_of kind (a ++ b) ≡ panes_of kind a ++ panes_of kind b
unfolding panes_of
panes_of-++ kind [] b = refl
panes_of-++ kind (p ∷ a) b = ground (arith, panes_of-++ kind a b)

same_kind-eq : (a b : PaneKind) → same_kind a b ≡ true → a ≡ b
same_kind-eq files b h = ground arith
same_kind-eq terminal b h = ground arith
same_kind-eq browser b h = ground arith
same_kind-eq git b h = ground arith

panes_of-panes_of :
    (kind k : PaneKind) (a : List PaneEntry)
    → panes_of kind (panes_of k a) ≡ (if same_kind k kind then panes_of k a else [])
unfolding panes_of
panes_of-panes_of kind k [] = ground arith
panes_of-panes_of kind k (p ∷ a) = grind (arith, panes_of-panes_of kind k a, same_kind-eq p.kind k)

ascends_lower : (n m : ℕ) (b : List PaneEntry) → n ≤ m → ascends m b ≡ true → ascends n b ≡ true
unfolding ascends
ascends_lower n m [] l h = refl
ascends_lower n m (p ∷ b) l h = ground arith

ascends-panes_of :
    (n : ℕ) (k : PaneKind) (a b : List PaneEntry)
    → n ≤ rank k
    → ascends (rank k) b ≡ true
    → ascends n (panes_of k a ++ b) ≡ true
unfolding ascends panes_of
ascends-panes_of n k [] b l h = ascends_lower n (rank k) b l h
ascends-panes_of n k (p ∷ a) b l h =
    grind
      (arith, ascends-panes_of n k a b l h, ascends-panes_of (rank k) k a b, same_kind-eq p.kind k)

-- A pane in front of its own kind's group.
grouped :
    PaneKind
    → PaneEntry
    → List PaneEntry
    → List PaneEntry
    → List PaneEntry
    → List PaneEntry
    → List PaneEntry
grouped k p a b c d =
    (if same_kind k files then p ∷ a else a)
    ++ ((if same_kind k terminal then p ∷ b else b)
        ++ ((if same_kind k browser then p ∷ c else c) ++ (if same_kind k git then p ∷ d else d)))

grouped-Perm :
    (k : PaneKind) (p : PaneEntry) (a b c d : List PaneEntry)
    → Perm (p ∷ (a ++ (b ++ (c ++ d)))) (grouped k p a b c d)
unfolding grouped
grouped-Perm files p a b c d = Perm.refl _
grouped-Perm terminal p a b c d = Perm.symm (perm_middle a _)
grouped-Perm browser p a b c d =
    Perm.trans (Perm.symm (perm_middle a _)) (Perm.append_left a (Perm.symm (perm_middle b _)))
grouped-Perm git p a b c d = Perm.trans (Perm.symm (perm_middle a _)) (
    Perm.append_left a
      (Perm.trans (Perm.symm (perm_middle b _)) (Perm.append_left b (Perm.symm (perm_middle c _)))))

sort-Perm : (ps : List PaneEntry) → Perm ps (sort_panes_for_list ps)
unfolding sort_panes_for_list panes_of grouped
sort-Perm [] = Perm.refl []
sort-Perm (p ∷ ps) = Perm.trans (Perm.cons p (sort-Perm ps)) (
    grouped-Perm p.kind p (panes_of files ps) (panes_of terminal ps) (panes_of browser ps)
      (panes_of git ps))

ascends-last : (ps : List PaneEntry) → ascends 3 (panes_of git ps) ≡ true
unfolding ascends
ascends-last ps =
    rw (append-nil (panes_of git ps)) at (ascends-panes_of 3 git ps [] (omega arith) refl)

sort-ordered : (ps : List PaneEntry) → ascends 0 (sort_panes_for_list ps) ≡ true
unfolding sort_panes_for_list
sort-ordered ps =
    let browsers =
      ascends-panes_of 2 browser ps (panes_of git ps) (omega arith)
        (ascends_lower 2 3 (panes_of git ps) (omega arith) (ascends-last ps)) in
    let terminals =
      ascends-panes_of 1 terminal ps _ (omega arith) (ascends_lower 1 2 _ (omega arith) browsers) in
    ascends-panes_of 0 files ps _ (omega arith) (ascends_lower 0 1 _ (omega arith) terminals)

sort-stable :
    (ps : List PaneEntry) (kind : PaneKind)
    → panes_of kind (sort_panes_for_list ps) ≡ panes_of kind ps
unfolding sort_panes_for_list
sort-stable ps kind =
    rw
      (
        panes_of-++ kind (panes_of files ps),
        panes_of-++ kind (panes_of terminal ps),
        panes_of-++ kind (panes_of browser ps),
        panes_of-panes_of kind files ps,
        panes_of-panes_of kind terminal ps,
        panes_of-panes_of kind browser ps,
        panes_of-panes_of kind git ps,
      )
      (one kind)
  where
    one :
        (k : PaneKind)
        → (if same_kind files k then panes_of files ps else [])
            ++ ((if same_kind terminal k then panes_of terminal ps else [])
                ++ ((if same_kind browser k then panes_of browser ps else [])
                    ++ (if same_kind git k then panes_of git ps else [])))
          ≡ panes_of k ps
    one files = append-nil _
    one terminal = append-nil _
    one browser = append-nil _
    one git = refl

-- `sortPanesForList` is a stable sort by kind: the result has the same panes, files panes come before
-- terminals, browsers and git panes, and the panes of one kind keep their order.
pub sort_panes_for_list-IsStableSort :
    (ps : List PaneEntry) → IsStableSort ps (sort_panes_for_list ps)
sort_panes_for_list-IsStableSort ps = record {
  permutes = sort-Perm ps;
  ordered = sort-ordered ps;
  stable = sort-stable ps;
}
