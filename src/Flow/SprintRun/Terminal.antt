-- ===== src/Flow/SprintRun/Terminal.antt =====
-- The end states of a sprint run (src/flow/sprint-run.ts).
use scrum4me_mcp.Prelude.{◌≡◌, refl, ◌⊎◌, String, List, [], ◌∷◌, arith}
use scrum4me_mcp.Flow.SprintRun.{
  SprintRunKind, done, failed, cancelled, SprintRunState, SprintRunEvent, transition, run,
}

abbrev pub IsTerminal : SprintRunKind → Type 0
IsTerminal k = (k ≡ done) ⊎ (k ≡ failed) ⊎ (k ≡ cancelled)

terminal_step :
    (s : SprintRunState) (e : SprintRunEvent) (now : String)
    → IsTerminal s.kind
    → transition s e now ≡ (s, [])
unfolding transition
terminal_step s e now h = ground arith

-- A done, failed or cancelled run stays as it is over any events, and asks for nothing.
terminal_absorbs :
    (s : SprintRunState) (es : List (SprintRunEvent × String))
    → IsTerminal s.kind
    → run s es ≡ (s, [])
unfolding run
terminal_absorbs s [] h = refl
terminal_absorbs s ((e, now) ∷ es) h = rw (terminal_step s e now h) (rw (terminal_absorbs s es h))
