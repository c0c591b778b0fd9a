-- ===== src/EventStore/Isolation.antt =====
-- What the page knows of one project, and the messages about others.
use parasor.Base.Classes.{string_eq, ◌==◌}
use parasor.Base.Keyed.{find_by, remove_by, find_by-push_other, find_by-remove_by}
use parasor.Base.Map.{lookup, insert, erase, lookup-insert, lookup-erase}
use parasor.Base.{
  ℕ, ◌≡◌, refl, ap, ◌∙◌, inl, inr, Bool, false, Option, none, some, List, [], ◌∷◌, String,
  if◌then◌else◌, arith, Bool-cases, Option-cases,
}
use parasor.EventStore.Reducers.{apply_event}
use parasor.EventStore.Changes.{
  change_by, without_worktree, created_projects, created_states, new_project_state,
}
use parasor.EventStore.{
  AppStore, Message, Project, ProjectState, Worktree, MobileSnapshot, session_restarted,
  session_ended, mobile_session_snapshot, project_created, project_updated, project_deleted,
  layout_updated, ports_updated, services_updated, git_state, sidebar_state_changed,
  worktree_created, worktree_renamed, worktree_removed,
}

-- The project itself, its state, its ports and services, git states, worktrees and mobile snapshots.
pub record ProjectView : Type 0 where
  pub project : Option Project
  pub state : Option ProjectState
  pub ports : Option String
  pub services : Option String
  pub git : Option (List (String × Option String))
  pub worktrees : Option (List Worktree)
  pub mobile : Option (List MobileSnapshot)

unfoldable pub view : String → AppStore → ProjectView
view q s = record {
  project = find_by (λ p. p.id) q s.projects;
  state = lookup q s.project_states;
  ports = lookup q s.ports;
  services = lookup q s.services;
  git = lookup q s.git_states;
  worktrees = lookup q s.worktrees;
  mobile = lookup q s.mobile_session_snapshots;
}

-- The message is about the project.
unfoldable pub concerns : Message → String → Bool
concerns (mobile_session_snapshot p path snapshot) q = p == q
concerns (project_created p) q = p.id == q
concerns (project_updated p) q = p.id == q
concerns (project_deleted p) q = p == q
concerns (layout_updated p layout) q = p == q
concerns (ports_updated p x) q = p == q
concerns (services_updated p x) q = p == q
concerns (git_state p path state) q = p == q
concerns (sidebar_state_changed p sidebar) q = p == q
concerns (worktree_created p worktree) q = p == q
concerns (worktree_renamed p path branch) q = p == q
concerns (worktree_removed p path) q = p == q
concerns _ q = false

module _ (p q : String) (n : (p == q) ≡ false) where
  insert_other {ℓ} :
      {V : Type ℓ} (v : V) (m : List (String × V)) → lookup q (insert p v m) ≡ lookup q m
  insert_other v m = lookup-insert p q v m ∙ ap (λ b. if b then some v else lookup q m) n

  erase_other {ℓ} : {V : Type ℓ} (m : List (String × V)) → lookup q (erase p m) ≡ lookup q m
  erase_other m = lookup-erase p q m ∙ ap (λ b. if b then none else lookup q m) n

  change_other :
      (change : Project → Project) (ps : List Project)
      → ((x : Project) → x.id ≡ p → (change x).id ≡ p)
      → find_by (λ x. x.id) q (change_by (λ x. x.id) p change ps) ≡ find_by (λ x. x.id) q ps
  unfolding find_by change_by
  change_other change [] f = refl
  change_other change (x ∷ xs) f = elim (Bool-cases (x.id == p)) [
    | inl e ↦
        let is : x.id ≡ p = (string_eq.equals_iff x.id p).0 e in
        let old : (x.id == q) ≡ false = ap (λ i. i == q) is ∙ n in
        let new : ((change x).id == q) ≡ false = ap (λ i. i == q) (f x is) ∙ n in
        rw (e, old, new) (change_other change xs f)
    | inr e ↦ rw (e, change_other change xs f)
  ]

  remove_other :
      (ps : List Project)
      → find_by (λ x. x.id) q (remove_by (λ x. x.id) p ps) ≡ find_by (λ x. x.id) q ps
  remove_other ps =
      find_by-remove_by (λ x. x.id) q p ps
      ∙ ap (λ b. if b then none else find_by (λ x. x.id) q ps) n

  without_other :
      (path : String) (m : List (String × List (String × Option String)))
      → lookup q (without_worktree p path m) ≡ lookup q m
  without_other path m = elim (Option-cases (lookup p m)) [
    | inl e ↦ rw (without_worktree, e)
    | inr (states, e) ↦ elim (Option-cases (lookup path states)) [
      | inl e' ↦ rw (without_worktree, e, e')
      | inr (state, e') ↦ rw (without_worktree, e, e') (insert_other (erase path states) m)
    ]
  ]

created_other :
    (p : Project) (q : String) (ps : List Project)
    → (p.id == q) ≡ false
    → find_by (λ x. x.id) q (created_projects p ps) ≡ find_by (λ x. x.id) q ps
created_other p q ps n = elim (Option-cases (find_by (λ x. x.id) p.id ps)) [
  | inl e ↦ rw (created_projects, e) (find_by-push_other (λ x. x.id) q p ps n)
  | inr (old, e) ↦ rw (created_projects, e) (change_other p.id q n (λ _. p) ps (λ x is. refl))
]

created_state_other :
    (p : Project) (q : String) (m : List (String × ProjectState))
    → (p.id == q) ≡ false
    → lookup q (created_states p m) ≡ lookup q m
created_state_other p q m n = elim (Option-cases (lookup p.id m)) [
  | inl e ↦ rw (created_states, e) (insert_other p.id q n (new_project_state p) m)
  | inr (old, e) ↦ rw (created_states, e)
]

-- A message leaves every project that it is not about as it is.
pub view-apply_event :
    (now : ℕ) (s : AppStore) (m : Message) (q : String)
    → concerns m q ≡ false
    → view q (apply_event now s m) ≡ view q s
unfolding apply_event view concerns
view-apply_event now s (session_restarted t generation) q n = ground arith
view-apply_event now s (session_ended id generation reason) q n = ground arith
view-apply_event now s (mobile_session_snapshot p path snapshot) q n =
    rw (insert_other p q n _ s.mobile_session_snapshots)
view-apply_event now s (project_created p) q n =
    rw (created_other p q s.projects n, created_state_other p q s.project_states n)
view-apply_event now s (project_updated p) q n =
    rw (change_other p.id q n (λ _. p) s.projects (λ x is. refl))
view-apply_event now s (project_deleted p) q n = rw (
  remove_other p q n s.projects,
  erase_other p q n s.project_states,
  erase_other p q n s.ports,
  erase_other p q n s.services,
  erase_other p q n s.git_states,
  erase_other p q n s.worktrees,
  erase_other p q n s.mobile_session_snapshots,
)
view-apply_event now s (ports_updated p x) q n = rw (insert_other p q n x s.ports)
view-apply_event now s (services_updated p x) q n = rw (insert_other p q n x s.services)
view-apply_event now s (git_state p path state) q n = rw (insert_other p q n _ s.git_states)
view-apply_event now s (layout_updated p layout) q n =
    elim (Option-cases (lookup p s.project_states)) [
      | inl e ↦ rw (apply_event, e)
      | inr (old, e) ↦
          rw (apply_event, e, insert_other p q n (record old { layout = layout }) s.project_states)
    ]
view-apply_event now s (sidebar_state_changed p sidebar) q n =
    elim (Option-cases (lookup p s.project_states)) [
      | inl e ↦ rw (apply_event, e)
      | inr (old, e) ↦
          rw
            (apply_event, e, insert_other p q n (record old { sidebar = sidebar }) s.project_states)
    ]
view-apply_event now s (worktree_created p worktree) q n =
    elim (Option-cases (find_by (λ x. x.id) p s.projects)) [
      | inl e ↦ rw (apply_event, e)
      | inr (old, e) ↦ rw (apply_event, e, insert_other p q n _ s.worktrees)
    ]
view-apply_event now s (worktree_renamed p path branch) q n =
    elim (Option-cases (lookup p s.worktrees)) [
      | inl e ↦ rw (apply_event, e)
      | inr (old, e) ↦ rw (apply_event, e, insert_other p q n _ s.worktrees)
    ]
view-apply_event now s (worktree_removed p path) q n = elim (Option-cases (lookup p s.worktrees)) [
  | inl e ↦ rw (apply_event, e)
  | inr (old, e) ↦
      rw (apply_event, e, insert_other p q n _ s.worktrees, without_other p q n path s.git_states)
]
view-apply_event now s m q n = refl
