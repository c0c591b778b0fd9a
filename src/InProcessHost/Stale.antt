-- ===== src/InProcessHost/Stale.antt =====
-- The handlers of a PTY that was replaced, and the input meant for it.
use parasor.Base.Bytes.{Bytes}
use parasor.Base.Classes.{string_eq, equals_self}
use parasor.Base.Int.{ℤ}
use parasor.Base.Map.{lookup, lookup-insert}
use parasor.Base.{
  ℕ, ◌<◌, ◌≤◌, ◌≡◌, refl, sym, ap, ◌∙◌, true, false, Option, none, some, [], ◌∷◌, String, arith,
  ◌==◌,
}
use parasor.InProcessHost.Bootstrap.{send, send_to}
use parasor.InProcessHost.Input.{write}
use parasor.InProcessHost.Lifecycle.{restart, restarted, on_exit, log_bump}
use parasor.InProcessHost.Output.{flush, held_session}
use parasor.InProcessHost.Saved.{persist_tracked-parts}
use parasor.InProcessHost.{
  PtyProcess, ManagedSession, Host, Surroundings, tap_output, is_ended, persist_session, put, save,
}
use parasor.TerminalRelay.Generation.{should_drop_stale_input}

pub lookup-save :
    (id : String) (m : ManagedSession) (h : Host) → lookup id (save id m h).sessions ≡ some m
unfolding save persist_session
lookup-save id m h =
    ap (lookup id)
      (persist_tracked-parts h.daemon_context m.session_record
        (persist_session m.info (put id m h))).0
    ∙ lookup-insert id id m h.sessions
    ∙ rw (equals_self id)

module _ (id : String) (h : Host) (m : ManagedSession) (generation : ℕ)
    (held : lookup id h.sessions ≡ some m) (newer : generation < m.current_generation) where
  stale-flush :
      (env : Surroundings) (batch : Bytes)
      → flush env id generation batch h ≡ (h, tap_output id batch generation ∷ [])
  unfolding flush held_session
  stale-flush env batch =
      let q : (generation == m.current_generation) ≡ false = ground arith in
      rw (held, flush, held_session, q)

  stale-on_exit :
      (env : Surroundings) (code : ℤ) (signal : Option ℤ)
      → on_exit env id generation code signal h ≡ (h, [])
  unfolding on_exit
  stale-on_exit env code signal =
      let q : (m.current_generation == generation) ≡ false = ground arith in rw (held, on_exit, q)

  stale-send_to :
      (proc : PtyProcess) (input : Option Bytes) → send_to id proc generation input m h ≡ (h, [])
  stale-send_to proc none = refl
  stale-send_to proc (some input) =
      let q : (m.current_generation == generation) ≡ false = ground arith in ground arith

  stale-send : (proc : PtyProcess) → send id proc generation h ≡ (h, [])
  unfolding send
  stale-send proc = rw (held, send) (stale-send_to proc m.bootstrap_input)

  stale-write : (input : Bytes) → 0 < generation → write id input (some generation) h ≡ []
  unfolding write should_drop_stale_input
  stale-write input p =
      let q : should_drop_stale_input (some generation) m.current_generation ≡ true =
        ground arith in
      rw (held, write) (ground arith)

-- The generation that a restart gives is a new one.
restart-newer :
    (env : Surroundings) (id : String) (h : Host) (m m' : ManagedSession)
    → lookup id h.sessions ≡ some m
    → is_ended m.info.state ≡ true
    → lookup id (restart env id h).0.sessions ≡ some m'
    → m.current_generation < m'.current_generation
unfolding restart restarted
restart-newer env id h m m' held over again =
    let given = restarted env h.daemon_context m in
    let same : some given ≡ some m' =
      sym (lookup-save id given (log_bump id given.current_generation h))
      ∙ (rw (held, restart, over) at again) in
    let eq : given.current_generation ≡ m'.current_generation = cc in omega (arith, eq)

-- A session that was over has been restarted, and at some later time, its new PTY running or not, still has the
-- generation that the restart gave it, or a newer one. Then the handlers of the old PTY have no effect on the host: late
-- output goes to the other listeners alone, under its old generation, and neither to a log nor to a client; a late
-- exit does nothing; a first input is not typed by the old timer; and input tagged with the old generation, which
-- is not 0, reaches no PTY.
pub restart-fences :
    (env env' : Surroundings) (id : String) (h later : Host) (m m' m'' : ManagedSession)
    (batch input : Bytes) (code : ℤ) (signal : Option ℤ) (proc : PtyProcess)
    → lookup id h.sessions ≡ some m
    → is_ended m.info.state ≡ true
    → lookup id (restart env id h).0.sessions ≡ some m'
    → lookup id later.sessions ≡ some m''
    → m'.current_generation ≤ m''.current_generation
    → 0 < m.current_generation
    → (flush env' id m.current_generation batch later
        ≡ (later, tap_output id batch m.current_generation ∷ []))
      × (on_exit env' id m.current_generation code signal later ≡ (later, []))
      × (send id proc m.current_generation later ≡ (later, []))
      × (write id input (some m.current_generation) later ≡ [])
restart-fences env env' id h later m m' m'' batch input code signal proc held over again now k p = (
  stale-flush id later m'' m.current_generation now newer env' batch,
  stale-on_exit id later m'' m.current_generation now newer env' code signal,
  stale-send id later m'' m.current_generation now newer proc,
  stale-write id later m'' m.current_generation now newer input p,
)
  where
    newer : m.current_generation < m''.current_generation
    newer = omega (arith, restart-newer env id h m m' held over again, k)
