-- ===== src/InProcessHost/FirstInput.antt =====
-- The first input of a session is typed once, into the PTY that it was scheduled for.
use parasor.Base.Bytes.{Bytes}
use parasor.Base.Classes.{string_eq}
use parasor.Base.Map.{lookup, lookup-insert_self}
use parasor.Base.{
  ℕ, ◌≡◌, refl, ◌⊎◌, inl, inr, true, Option, none, some, List, [], ◌∷◌, String, arith, ◌==◌, not,
  ◌||◌, Bool-cases, Option-cases,
}
use parasor.InProcessHost.Bootstrap.{send, send_to, is_process}
use parasor.InProcessHost.Input.{write}
use parasor.InProcessHost.{
  PtyProcess, ManagedSession, Host, Effect, tap_input, write_pty, is_running, put,
}
use parasor.TerminalRelay.Generation.{should_drop_stale_input}

-- What one `send` does: nothing, or it types the input, which is gone from the session then.
pub record Types (id : String) (proc : PtyProcess) (generation : ℕ) (h h' : Host)
    (calls : List Effect) : Type 0 where
  pub session : ManagedSession
  pub process : PtyProcess
  pub input : Bytes
  pub held : lookup id h.sessions ≡ some session
  pub has_process : session.process ≡ some process
  pub same_process : process.handle ≡ proc.handle
  pub same_generation : session.current_generation ≡ generation
  pub runs : is_running session.info.state ≡ true
  pub had_input : session.bootstrap_input ≡ some input
  pub calls_eq : calls ≡ tap_input id input ∷ write_pty process input ∷ []
  pub spent : (proc' : PtyProcess) (g : ℕ) → send id proc' g h' ≡ (h', [])

spent-put :
    (id : String) (h : Host) (m : ManagedSession) (proc : PtyProcess) (g : ℕ)
    → send id proc g (put id (record m { bootstrap_input = none }) h)
      ≡ (put id (record m { bootstrap_input = none }) h, [])
unfolding send
spent-put id h m proc g =
    rw (lookup-insert_self id (record m { bootstrap_input = none }) h.sessions, send) refl

write-put :
    (id : String) (h : Host) (m : ManagedSession) (input : Bytes) (process : PtyProcess) (g : ℕ)
    → m.process ≡ some process
    → m.current_generation ≡ g
    → write id input (some g) (put id m h) ≡ tap_input id input ∷ write_pty process input ∷ []
unfolding write should_drop_stale_input
write-put id h m input process g p e = rw (lookup-insert_self id m h.sessions, write) (ground arith)

send_to-Types :
    (id : String) (proc : PtyProcess) (generation : ℕ) (h : Host) (m : ManagedSession)
    (process : Option PtyProcess) (input : Option Bytes)
    → lookup id h.sessions ≡ some m
    → m.process ≡ process
    → m.bootstrap_input ≡ input
    → (send_to id proc generation input m h ≡ (h, []))
      ⊎ Types id proc generation h
          (send_to id proc generation input m h).0
          (send_to id proc generation input m h).1
send_to-Types id proc generation h m process none held p b = inl refl
send_to-Types id proc generation h m process (some []) held p b = inl refl
send_to-Types id proc generation h m none (some (c ∷ cs)) held p b = inl (ground arith)
send_to-Types id proc generation h m (some process) (some (c ∷ cs)) held p b =
    elim (Bool-cases (
      not (is_process m.process proc)
      || not (m.current_generation == generation)
      || not (is_running m.info.state))) [
        | inl k ↦ rw k (inl refl)
        | inr k ↦ rw k (
            inr (record {
              session = m;
              process = process;
              input = c ∷ cs;
              held = held;
              has_process = p;
              same_process = ground arith;
              same_generation = ground arith;
              runs = ground arith;
              had_input = b;
              calls_eq =
                  write-put id h (record m { bootstrap_input = none }) (c ∷ cs) process generation p
                    (ground arith);
              spent = spent-put id h m;
            }))
      ]

-- The timer of a spawn types a session's first input into the PTY of that spawn, while it runs and is the current one, or it
-- does nothing; and once the input is typed, no timer types it again.
pub send-Types :
    (id : String) (proc : PtyProcess) (generation : ℕ) (h : Host)
    → (send id proc generation h ≡ (h, []))
      ⊎ Types id proc generation h (send id proc generation h).0 (send id proc generation h).1
unfolding send
send-Types id proc generation h = elim (Option-cases (lookup id h.sessions)) [
  | inl e ↦ inl (rw (e, send) refl)
  | inr (m, e) ↦
      let held = send_to-Types id proc generation h m m.process m.bootstrap_input e refl refl in
      rw (e, send) held
]
