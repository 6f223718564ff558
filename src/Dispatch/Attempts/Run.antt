-- ===== src/Dispatch/Attempts/Run.antt =====
-- Sequences of the four calls of src/dispatch/attempts.ts on one attempt, by any workers, at any times
-- and with any authorization. Other calls write the rows of an attempt too and are not operations
-- here: stop evidence (src/dispatch/stop-evidence.ts), recovery (src/dispatch/recovery.ts), and the
-- ends by acceptance and cancel (src/dispatch/lifecycle.ts), which are in Dispatch/Ending.
use scrum4me_mcp.Prelude.{ℕ, String, List, [], ◌∷◌}
use scrum4me_mcp.Dispatch.Table.{Scope, Locked, Actor, Proof, Service, Call, Answer}
use scrum4me_mcp.Dispatch.Attempts.{
  start_dispatch_attempt, renew_dispatch_attempt, reconcile_dispatch_attempt, mark_expired,
}

pub data Operation : Type 0 where
  start reconcile : Actor → Proof → Scope → Call → Operation
  renew : Actor → Proof → String → Call → Operation
  expire : Call → ℕ → Operation

unfoldable pub perform : Service → Operation → Locked → Locked × Answer
unfolding start_dispatch_attempt renew_dispatch_attempt reconcile_dispatch_attempt mark_expired
perform s (start actor proof scope call) x = start_dispatch_attempt s actor proof scope call x
perform s (reconcile actor proof scope call) x =
    reconcile_dispatch_attempt s actor proof scope call x
perform s (renew actor proof scope_id call) x = renew_dispatch_attempt s actor proof scope_id call x
perform s (expire call max) x = mark_expired call max x

-- The rows and the answers after a sequence of calls.
unfoldable pub run : Service → List Operation → Locked → Locked × List Answer
unfolding perform
run s [] x = (x, [])
run s (o ∷ os) x = let (y, a) = perform s o x in let (z, rest) = run s os y in (z, a ∷ rest)
