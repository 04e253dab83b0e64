-- ===== src/Protect/Polling.antt =====
-- internal/cli/commands_protect.go: CrowdSec batches (`crowdSecUpdate`) and the polling loop
-- (`pollCrowdSec`, `applyThreatUpdate`). Each tick is one round; the end by a cancelled context is
-- left out.
pub mod Wedge
use better_firewall.Prelude.{
  ℕ, suc, zero, ◌+◌, ◌-◌, ◌/◌, Bool, true, false, not, ◌&&◌, ◌||◌, List, [], ◌∷◌, ◌++◌, String,
  Option, none, some, ◌==◌, String-eq, if◌then◌else◌, equal_fold,
}
use better_firewall.Prelude.Int.{ℤ, pos, negsuc, leb_ℤ, ◌+ℤ◌}
use better_firewall.Store.{State, ThreatBan}
use better_firewall.Net.{NetText}
use better_firewall.Protect.Threats.{
  Update, Result, ok, err, ◌>>=◌, bad_decision_id, bad_duration, bad_delete_id, crowd_sec_address,
  apply_threat_update_to_state,
}

-- internal/protect/types.go.
pub record Decision : Type 0 where
  pub id : ℤ
  pub type : String
  pub scope : String
  pub value : String
  pub duration : String
  pub scenario : String

pub record Response : Type 0 where
  pub new : List Decision
  pub deleted : List Decision

-- `now.Add(duration).Unix()`, for a positive duration: nanoseconds to whole seconds.
abbrev pub expiry : ℕ → ℤ → ℤ
expiry now (pos d) = pos ((now + d) / 1000000000)
expiry now (negsuc d) = pos ((now - suc d) / 1000000000)

-- The variables of the loop.
pub record Poll : Type 0 where
  pub startup : Bool
  pub pending : Option Update

-- What one round meets: the answer of the server, the clock in nanoseconds, whether the lock was
-- taken and what the file held, the clock in seconds, and whether the commit succeeds.
pub record Round : Type 0 where
  pub response : Option Response
  pub clock : ℕ
  pub locked : Bool
  pub loaded : Option State
  pub now : ℤ
  pub commits : State → Bool

-- The end of `applyThreatUpdate`: an unchanged state is not committed.
pub committed : (State → Bool) → Result (State × Bool) → Bool
committed commits (err e) = false
committed commits (ok (st, changed)) = if not changed then true else commits st

-- `applyThreatUpdate`: does it succeed?
pub apply_threat_update : NetText → Round → Update → Bool
unfolding committed
apply_threat_update net e update = if not e.locked then false else elim e.loaded [
  | none ↦ false
  | some st ↦ committed e.commits (apply_threat_update_to_state net st update e.now)
]

-- The second half of a round: a pending batch is applied, and kept if that fails.
pub deliver : NetText → Round → Poll → Poll
deliver net e s = elim s.pending [
  | none ↦ s
  | some update ↦
      if apply_threat_update net e update then record { startup = false; pending = none } else s
]

-- `parse_duration` is time.ParseDuration, in nanoseconds; `none` is its error.
module _ (net : NetText) (parse_duration : String → Option ℤ) where
  -- One new decision: an error, nothing to add, or a ban.
  unfoldable pub new_ban : ℕ → Decision → Result (List ThreatBan)
  new_ban now d =
      if not (equal_fold d.type "ban")
      then ok []
      else if leb_ℤ d.id (pos 0)
      then err bad_decision_id
      else crowd_sec_address net d.scope d.value >>= λ address. elim (parse_duration d.duration) [
        | none ↦ err bad_duration
        | some t ↦
            if leb_ℤ t (pos 0)
            then ok []
            else ok (
                record {
                  address = address;
                  source = "crowdsec";
                  reason = d.scenario;
                  decision_id = d.id;
                  expires_at = expiry now t;
                }
                ∷ [])
      ]

  pub new_bans : ℕ → List Decision → Result (List ThreatBan)
  new_bans now [] = ok []
  new_bans now (d ∷ ds) = new_ban now d >>= λ bans. new_bans now ds >>= λ rest. ok (bans ++ rest)

  pub deleted_ids : List Decision → Result (List ℤ)
  deleted_ids [] = ok []
  deleted_ids (d ∷ ds) =
      if leb_ℤ d.id (pos 0) then err bad_delete_id else deleted_ids ds >>= λ rest. ok (d.id ∷ rest)

  -- `crowdSecUpdate`.
  unfoldable pub crowd_sec_update : Response → Bool → ℕ → Result Update
  unfolding new_bans deleted_ids
  crowd_sec_update response startup now = new_bans now response.new >>= λ add.
      if startup
      then ok (record { snapshot = true; add = add; delete_ids = [] })
      else deleted_ids response.deleted >>= λ ids.
          ok (record { snapshot = false; add = add; delete_ids = ids })

  -- The first half of a round: a new batch is asked for if none is pending.
  pub fetch : Round → Poll → Poll
  fetch e s = elim s.pending [
    | some _ ↦ s
    | none ↦ elim e.response [
      | none ↦ s
      | some response ↦ elim (crowd_sec_update response s.startup e.clock) [
        | err _ ↦ record s { startup = true }
        | ok update ↦ record s { pending = some update }
      ]
    ]
  ]

  -- One round of `pollCrowdSec`.
  pub poll : Poll → Round → Poll
  poll s e = deliver net e (fetch e s)

  pub poll_all : Poll → List Round → Poll
  poll_all s [] = s
  poll_all s (e ∷ es) = poll_all (poll s e) es
