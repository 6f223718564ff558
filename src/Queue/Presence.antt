-- ===== src/Queue/Presence.antt =====
-- src/queue/presence.ts, `derivePresenceStatus`. Times are in milliseconds; `fresh_seconds` is
-- `PRESENCE_FRESH_SECONDS` of the shared vocabulary.
use scrum4me_mcp.Prelude.{
  ℕ, ◌+◌, ◌*◌, ◌≤◌, ◌≡◌, ◌≢◌, ◌⊎◌, arith, Bool, true, false, not, ◌&&◌, Option, none, some, leb,
  ltb, if◌then◌else◌,
}

pub data PresenceStatus : Type 0 where
  weg bezig beschikbaar onbemand : PresenceStatus

pub record PresenceInput : Type 0 where
  pub watcher_heartbeat_at : Option ℕ
  pub session_expected_by : Option ℕ
  pub session_announced_at : Option ℕ
  pub session_signed_off_at : Option ℕ
  pub open_claims : ℕ

abbrev pub heartbeat_fresh : ℕ → ℕ → Option ℕ → Bool
heartbeat_fresh fresh_seconds now none = false
heartbeat_fresh fresh_seconds now (some t) = leb now (t + fresh_seconds * 1000)

abbrev expected_fresh : ℕ → Option ℕ → Bool
expected_fresh now none = false
expected_fresh now (some t) = ltb now t

abbrev aangemeld : Option ℕ → Option ℕ → Bool
aangemeld none off = false
aangemeld (some on) none = true
aangemeld (some on) (some off) = ltb off on

pub derive_presence_status : ℕ → ℕ → PresenceInput → PresenceStatus
derive_presence_status fresh_seconds now i =
    if not (heartbeat_fresh fresh_seconds now i.watcher_heartbeat_at)
      && not (expected_fresh now i.session_expected_by)
    then PresenceStatus.weg
    else if ltb 0 i.open_claims
    then PresenceStatus.bezig
    else if aangemeld i.session_announced_at i.session_signed_off_at
    then PresenceStatus.beschikbaar
    else PresenceStatus.onbemand

-- A later heartbeat of an agent that is not away leaves its status as it was; and where that
-- heartbeat is at most the fresh seconds old, an agent that was away is shown as one of the three
-- other statuses.
pub later_heartbeat_keeps :
    (fresh_seconds now : ℕ) (i : PresenceInput) (t later : ℕ)
    → i.watcher_heartbeat_at ≡ some t
    → t ≤ later
    → let i' = record i { watcher_heartbeat_at = some later } in
      ((derive_presence_status fresh_seconds now i ≡ PresenceStatus.weg)
        ⊎ (derive_presence_status fresh_seconds now i'
            ≡ derive_presence_status fresh_seconds now i))
      × ((heartbeat_fresh fresh_seconds now (some later) ≡ false)
          ⊎ (derive_presence_status fresh_seconds now i' ≢ PresenceStatus.weg))
unfolding derive_presence_status
later_heartbeat_keeps fresh_seconds now i t later h l = ground arith
