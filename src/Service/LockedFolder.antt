-- ===== src/Service/LockedFolder.antt =====
-- service/locked_folder.py: `unlock_and_revert`, over a client of Immich that answers with a status or does
-- not answer. Opening and closing the client is left out.
use media_refinery.Common.{
  All, Bool, List, Option, Outcome, String, [], any, code, contains, false, if◌then◌else◌, is_empty,
  length, nat_eq, none, not, raised, returned, some, suc, true, ℕ, ◌+◌, ◌∷◌, ◌≡◌, ◌⊎◌,
}

-- The requests, all with the bearer token of the session.
pub data LockRequest : Type 0 where
  unlock : String → LockRequest
  show_in_timeline : String → LockRequest
  lock : LockRequest

pub data UnlockFault : Type 0 where
  unlock_error invalid_pin upstream_unavailable : UnlockFault

pub record RevertOutcome : Type 0 where
  pub reverted_count : ℕ
  pub failed_asset_ids : List String

-- The status of the answer; `none` is an HTTPError.
abbrev pub Sender : Type 0 → Type 0
Sender W = String → LockRequest → W → Option ℕ × W

abbrev pub is_one_of : List ℕ → ℕ → Bool
is_one_of codes code = any (λ c. nat_eq c code) codes

module _ {W : Type 0} (send : Sender W) (bearer : String) where
  unfoldable pub revert_asset : String → W → Bool × W
  revert_asset asset_id w =
      let (answer, after) = send bearer (show_in_timeline asset_id) w in
      (elim answer [ none ↦ false | some code ↦ is_one_of (200 ∷ 204 ∷ []) code ], after)

  -- The loop over the assets.
  unfoldable pub revert_assets : List String → W → RevertOutcome × W
  unfolding revert_asset
  revert_assets [] w = (record { reverted_count = 0; failed_asset_ids = [] }, w)
  revert_assets (asset_id ∷ rest) w =
      let (done, after) = revert_asset asset_id w in
      let (others, final) = revert_assets rest after in
      (
        if done
            then record {
              reverted_count = suc others.reverted_count;
              failed_asset_ids = others.failed_asset_ids;
            }
            else record {
              reverted_count = others.reverted_count;
              failed_asset_ids = asset_id ∷ others.failed_asset_ids;
            },
        final,
      )

  -- After the unlock was accepted: the assets, then the lock, whose answer does not matter.
  unfoldable pub revert_and_lock : List String → W → RevertOutcome × W
  unfolding revert_assets
  revert_and_lock asset_ids w =
      let (outcome, after) = revert_assets asset_ids w in (outcome, (send bearer lock after).1)

  -- What follows the answer to the unlock.
  unfoldable pub after_unlock : Option ℕ → List String → W → Outcome UnlockFault RevertOutcome × W
  unfolding revert_and_lock
  after_unlock none asset_ids w = (raised upstream_unavailable, w)
  after_unlock (some code) asset_ids w =
      if is_one_of (400 ∷ 401 ∷ 403 ∷ []) code
      then (raised invalid_pin, w)
      else if not (is_one_of (200 ∷ 201 ∷ 204 ∷ []) code)
      then (raised unlock_error, w)
      else let (outcome, final) = revert_and_lock asset_ids w in (returned outcome, final)

  unfoldable pub unlock_and_revert :
      String → List String → W → Outcome UnlockFault RevertOutcome × W
  unfolding after_unlock
  unlock_and_revert pin asset_ids w =
      if is_empty bearer
      then (raised unlock_error, w)
      else if is_empty pin
      then (raised invalid_pin, w)
      else let (answer, unlocked) = send bearer (unlock pin) w in
        after_unlock answer asset_ids unlocked

  -- The world after the requests.
  unfoldable pub sent : List LockRequest → W → W
  sent [] w = w
  sent (request ∷ rest) w = sent rest (send bearer request w).1

  -- The requests for the assets, and for the lock at their end.
  unfoldable pub reverts_then_lock : List String → List LockRequest
  reverts_then_lock [] = lock ∷ []
  reverts_then_lock (asset_id ∷ rest) = show_in_timeline asset_id ∷ reverts_then_lock rest

  -- Every asset is counted as reverted or listed as failed, and the session is locked again.
  pub record IsReverted (pin : String) (asset_ids : List String) (w : W)
      (r : Outcome UnlockFault RevertOutcome × W) : Type 0 where
    pub outcome : RevertOutcome
    pub outcome_eq : r.0 ≡ returned outcome
    pub count_eq : outcome.reverted_count + length outcome.failed_asset_ids ≡ length asset_ids
    pub failed_all : All (λ id. contains asset_ids id ≡ true) outcome.failed_asset_ids
    pub world_eq : r.1 ≡ sent (unlock pin ∷ reverts_then_lock asset_ids) w

  -- Nothing was asked but, at most, the unlock.
  pub record IsDenied (pin : String) (w : W) (r : Outcome UnlockFault RevertOutcome × W)
      : Type 0 where
    pub fault : UnlockFault
    pub fault_eq : r.0 ≡ raised fault
    pub world_eq : (r.1 ≡ w) ⊎ (r.1 ≡ sent (unlock pin ∷ []) w)

  abbrev IsAnswered : List String → W → Outcome UnlockFault RevertOutcome × W → Type 0
  IsAnswered asset_ids w r =
      ((outcome : RevertOutcome) × (r ≡ (returned outcome, sent (reverts_then_lock asset_ids) w))
        × (outcome.reverted_count + length outcome.failed_asset_ids ≡ length asset_ids)
        × All (λ id. contains asset_ids id ≡ true) outcome.failed_asset_ids)
      ⊎ ((fault : UnlockFault) × (r ≡ (raised fault, w)))
