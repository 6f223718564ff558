-- ===== src/Dispatch/Ending/Finishable.antt =====
-- The checks of the locked rows in the first transaction of `acceptDispatchResult`
-- (src/dispatch/completion.ts).
use scrum4me_mcp.Prelude.{
  ◌≡◌, Bool, true, false, not, ◌&&◌, ◌==◌, is_null, nat_eq, some?, truthy, arith,
}
use scrum4me_mcp.Dispatch.Ending.Table.{Db}
use scrum4me_mcp.Dispatch.Ending.Lifecycle.{Locked, is_succeeded}
use scrum4me_mcp.Dispatch.Ending.Retry.{accepts_stop}
use scrum4me_mcp.Dispatch.Ending.Judge.{Submission, may_finish}

-- What the checks of the rows mean for a success.
pub record Finishable (k : Submission) (x : Locked) (db : Db) : Type 0 where
  pub same_generation : nat_eq x.c.generation x.r.generation ≡ true
  pub has_stopped : is_null x.a.stopped_at ≡ false
  pub stop_is_accepted : some? (accepts_stop x.r.id x.a.id) db.events ≡ true
  pub inputs : k.input_matches ≡ true
  pub profile : (x.p.sha256 == x.i.profile_sha256) ≡ true
  pub image : (x.p.image_digest == x.i.image_digest) ≡ true
  pub sources : k.sources_intact ≡ true
  pub in_scope : truthy x.a.scope_id ≡ true

pub may-Finishable :
    (k : Submission) (x : Locked) (db : Db)
    → may_finish k x db ≡ true
    → is_succeeded k.payload.outcome ≡ true
    → Finishable k x db
unfolding may_finish
may-Finishable k x db may ok =
    let (a, b, c, d, e, f, g, h) =
      parts (nat_eq x.c.generation x.r.generation) (is_null x.a.stopped_at)
        (some? (accepts_stop x.r.id x.a.id) db.events) k.input_matches
        (x.p.sha256 == x.i.profile_sha256) (x.p.image_digest == x.i.image_digest) k.sources_intact
        (truthy x.a.scope_id) (is_succeeded k.payload.outcome) may ok in
    record {
      same_generation = a;
      has_stopped = b;
      stop_is_accepted = c;
      inputs = d;
      profile = e;
      image = f;
      sources = g;
      in_scope = h;
    }
  where
    parts :
        (a b c d e f g h s : Bool)
        → (a && not b && c && d && e && f && g && not (not h && s)) ≡ true
        → s ≡ true
        → (a ≡ true)
          × (b ≡ false)
          × (c ≡ true)
          × (d ≡ true)
          × (e ≡ true)
          × (f ≡ true)
          × (g ≡ true)
          × (h ≡ true)
    parts a b c d e f g h s m k = ground arith
