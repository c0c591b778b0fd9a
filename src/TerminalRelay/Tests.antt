-- ===== src/TerminalRelay/Tests.antt =====
-- A socket that is congested, drains, and whose client pauses on its own.
use parasor.Base.{◌≡◌, refl, List, [], ◌∷◌, true, ◌*◌}
use parasor.TerminalRelay.Flow.{Event, relays, pauses, resumes, occur, occur_all, attached}
use parasor.TerminalRelay.{apply_server_backpressure, flow_pause, flow_resume}

abbrev congested : List Event
congested = pauses ∷ relays (2 * 1024 * 1024) ∷ resumes ∷ []

paused_when_congested : (occur_all congested attached).flow_paused ≡ true
unfolding occur_all occur apply_server_backpressure flow_pause flow_resume
paused_when_congested = refl
