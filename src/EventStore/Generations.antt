-- ===== src/EventStore/Generations.antt =====
-- The generations of a session at the page, and messages that come late.
use parasor.Base.Classes.{string_eq, ◌==◌}
use parasor.Base.Keyed.{find_by, remove_by}
use parasor.Base.{
  ◌⊎◌, ℕ, ◌≡◌, ◌≤◌, refl, sym, ap, subst, inl, inr, true, false, none, some, List, [], ◌∷◌, ◌++◌,
  String, ltb, arith, Bool-cases, Option-cases,
}
use parasor.EventStore.Reducers.{apply_event}
use parasor.EventStore.Changes.{change_by, without_project, is_stale, ends}
use parasor.EventStore.Retention.{apply_all}
use parasor.EventStore.{
  AppStore, Message, session_created, session_closed, session_restarted, session_ended,
  project_deleted, session_cwd_changed, session_title_changed, session_pin_changed, layout_updated,
  sidebar_state_changed, worktree_created, worktree_renamed, worktree_removed,
}
use parasor.InProcessHost.{Session}

module _ (id : String) (g : ℕ) where
  -- The session is not in an older generation.
  abbrev pub Reaches : Session → Type 0
  Reaches s = ((s.id == id) ≡ false) ⊎ (g ≤ s.generation)

  unfoldable pub AllReach : List Session → Type 0
  AllReach [] = Unit
  AllReach (s ∷ ss) = Reaches s × AllReach ss

  -- The server tells a restart with the generation that its session has, and creates no session in an older one.
  abbrev pub IsTruthful : Message → Type 0
  IsTruthful (session_created s) = Reaches s
  IsTruthful (session_restarted s generation) = s.generation ≡ generation
  IsTruthful _ = Unit

  unfoldable pub AllTruthful : List (ℕ × Message) → Type 0
  AllTruthful [] = Unit
  AllTruthful ((now, m) ∷ ms) = IsTruthful m × AllTruthful ms

  AllReach-push :
      (s : Session) (ss : List Session) → Reaches s → AllReach ss → AllReach (ss ++ s ∷ [])
  unfolding AllReach
  AllReach-push s [] r a = (r, tt)
  AllReach-push s (t ∷ ss) r (x, a) = (x, AllReach-push s ss r a)

  AllReach-remove_by :
      (j : String) (ss : List Session) → AllReach ss → AllReach (remove_by (λ t. t.id) j ss)
  unfolding AllReach remove_by
  AllReach-remove_by j [] a = tt
  AllReach-remove_by j (s ∷ ss) (x, a) = elim (Bool-cases (s.id == j)) [
    | inl e ↦ rw e (AllReach-remove_by j ss a)
    | inr e ↦ rw e (x, AllReach-remove_by j ss a)
  ]

  AllReach-without_project :
      (p : String) (ss : List Session) → AllReach ss → AllReach (without_project p ss)
  unfolding AllReach without_project
  AllReach-without_project p [] a = tt
  AllReach-without_project p (s ∷ ss) (x, a) = elim (Bool-cases (s.project_id == p)) [
    | inl e ↦ rw e (AllReach-without_project p ss a)
    | inr e ↦ rw e (x, AllReach-without_project p ss a)
  ]

  AllReach-change_by :
      (j : String) (change : Session → Session) (ss : List Session)
      → ((s : Session) → (s.id == j) ≡ true → Reaches s → Reaches (change s))
      → AllReach ss
      → AllReach (change_by (λ t. t.id) j change ss)
  unfolding AllReach change_by
  AllReach-change_by j change [] f a = tt
  AllReach-change_by j change (s ∷ ss) f (x, a) = elim (Bool-cases (s.id == j)) [
    | inl e ↦ rw e (f s e x, AllReach-change_by j change ss f a)
    | inr e ↦ rw e (x, AllReach-change_by j change ss f a)
  ]

  change_by-absent :
      (j : String) (change : Session → Session) (ss : List Session)
      → find_by (λ t. t.id) j ss ≡ none
      → change_by (λ t. t.id) j change ss ≡ ss
  unfolding find_by change_by
  change_by-absent j change [] h = refl
  change_by-absent j change (s ∷ ss) h = ground (arith, change_by-absent j change ss)

  find_by-reaches :
      (ss : List Session) {s : Session}
      → AllReach ss
      → find_by (λ t. t.id) id ss ≡ some s
      → g ≤ s.generation
  unfolding AllReach find_by
  find_by-reaches [] a h = absurd cc
  find_by-reaches (t ∷ ss) {s} (x, a) h = elim (Bool-cases (t.id == id)) [
    | inl e ↦
        let q : some t ≡ some s = rw e at h in
        let q' : t ≡ s = cc in
        elim x [ inl apart ↦ absurd cc | inr late ↦ omega (arith, late, ap (λ u. u.generation) q') ]
    | inr e ↦ find_by-reaches ss a (rw e at h)
  ]

  -- A restart that is not stale.
  AllReach-restarted :
      (s : Session) (generation : ℕ) (ss : List Session)
      → s.generation ≡ generation
      → is_stale (find_by (λ t. t.id) s.id ss) generation ≡ false
      → AllReach ss
      → AllReach (change_by (λ t. t.id) s.id (λ _. s) ss)
  AllReach-restarted s generation ss t fresh a = elim (Option-cases (find_by (λ t. t.id) s.id ss)) [
    | inl absent ↦ rw (change_by-absent s.id (λ _. s) ss absent) a
    | inr (existing, there) ↦
        AllReach-change_by s.id (λ _. s) ss
          (λ old here reached. elim (Bool-cases (s.id == id)) [
            | inr apart ↦ inl apart
            | inl same ↦
                let is : s.id ≡ id = (string_eq.equals_iff s.id id).0 same in
                let later : ltb generation existing.generation ≡ false = rw there at fresh in
                let first : g ≤ existing.generation = find_by-reaches ss a (rw is at there) in
                inr (ground (arith, t, first, later))
          ])
          a
  ]

  -- A message about what a project has, which may be unknown.
  abbrev ConcernsProject : Message → Type 0
  ConcernsProject (layout_updated p x) = Unit
  ConcernsProject (sidebar_state_changed p x) = Unit
  ConcernsProject (worktree_created p x) = Unit
  ConcernsProject (worktree_renamed p x y) = Unit
  ConcernsProject (worktree_removed p x) = Unit
  ConcernsProject _ = ⊥

  sessions-kept :
      (now : ℕ) (s : AppStore) (m : Message)
      → ConcernsProject m
      → (apply_event now s m).sessions ≡ s.sessions
  unfolding apply_event
  sessions-kept now s (layout_updated p x) c = ground arith
  sessions-kept now s (sidebar_state_changed p x) c = ground arith
  sessions-kept now s (worktree_created p x) c = ground arith
  sessions-kept now s (worktree_renamed p x y) c = ground arith
  sessions-kept now s (worktree_removed p x) c = ground arith
  sessions-kept now s m c = absurd c

  AllReach-apply_event :
      (now : ℕ) (s : AppStore) (m : Message)
      → IsTruthful m
      → AllReach s.sessions
      → AllReach (apply_event now s m).sessions
  unfolding apply_event
  AllReach-apply_event now s (session_created t) r a = AllReach-push t s.sessions r a
  AllReach-apply_event now s (session_closed j) r a = AllReach-remove_by j s.sessions a
  AllReach-apply_event now s (session_restarted t generation) r a =
      elim (Bool-cases (is_stale (find_by (λ u. u.id) t.id s.sessions) generation)) [
        | inl e ↦ rw (apply_event, e) a
        | inr e ↦ rw (apply_event, e) (AllReach-restarted t generation s.sessions r e a)
      ]
  AllReach-apply_event now s (session_ended j generation reason) r a =
      elim (Bool-cases (is_stale (find_by (λ u. u.id) j s.sessions) generation)) [
        | inl e ↦ rw (apply_event, e) a
        | inr e ↦
            rw (apply_event, e)
              (AllReach-change_by j (ends now reason) s.sessions (λ t here reached. reached) a)
      ]
  AllReach-apply_event now s (project_deleted p) r a = AllReach-without_project p s.sessions a
  AllReach-apply_event now s (session_cwd_changed j cwd) r a =
      AllReach-change_by j (λ t. record t { cwd = cwd }) s.sessions (λ t here reached. reached) a
  AllReach-apply_event now s (session_title_changed j title manual) r a =
      AllReach-change_by j (λ t. record t { title = title; title_manual = manual }) s.sessions
        (λ t here reached. reached) a
  AllReach-apply_event now s (session_pin_changed j pinned) r a =
      AllReach-change_by j (λ t. record t { pinned = pinned }) s.sessions
        (λ t here reached. reached) a
  AllReach-apply_event now s (layout_updated p x) r a =
      subst AllReach (sym (sessions-kept now s (layout_updated p x) tt)) a
  AllReach-apply_event now s (sidebar_state_changed p x) r a =
      subst AllReach (sym (sessions-kept now s (sidebar_state_changed p x) tt)) a
  AllReach-apply_event now s (worktree_created p x) r a =
      subst AllReach (sym (sessions-kept now s (worktree_created p x) tt)) a
  AllReach-apply_event now s (worktree_renamed p x y) r a =
      subst AllReach (sym (sessions-kept now s (worktree_renamed p x y) tt)) a
  AllReach-apply_event now s (worktree_removed p x) r a =
      subst AllReach (sym (sessions-kept now s (worktree_removed p x) tt)) a
  AllReach-apply_event now s m r a = a

  -- Once no session of the id is in a generation before `g`, none is after any messages, however late they are.
  pub apply_all-AllReach :
      (ms : List (ℕ × Message)) (s : AppStore)
      → AllTruthful ms
      → AllReach s.sessions
      → AllReach (apply_all ms s).sessions
  unfolding apply_all AllTruthful
  apply_all-AllReach [] s t a = a
  apply_all-AllReach ((now, m) ∷ ms) s (t, ts) a =
      apply_all-AllReach ms (apply_event now s m) ts (AllReach-apply_event now s m t a)
