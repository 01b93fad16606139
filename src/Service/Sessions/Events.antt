-- ===== src/Service/Sessions/Events.antt =====
-- service/auth.py: the calls on the table of sessions, and whether a row of a session is still good.
use media_refinery.Common.{
  Bool, Bool-cases, List, String, [], arith, false, inl, inr, is_some, none-ne-some, not, refl,
  some, subst, true, ◌&&◌, ◌++◌, ◌==◌, ◌∷◌, ◌≡◌,
}
use media_refinery.Service.Sessions.{
  Gate, GateRequest, get_current_user, lookup_session, persist_session, revoke_session,
}
use mathlib.Core.Option.{some-injective}
use media_refinery.Security.Cipher.{Bytes}
use media_refinery.Service.{SessionRow, delete_rows, first_row, update_rows}
use media_refinery.Service.Scheduler.Quota.{stamp}
use media_refinery.Service.Sessions.Admitted.{is_out}

pub data SessionEvent : Type 0 where
  requested : GateRequest → SessionEvent
  opened : String → String → Bytes → String → String → SessionEvent
  logged_out : String → String → SessionEvent
  cleared : String → SessionEvent

module _ (gate : Gate) where
  -- The table after a call.
  unfoldable pub run_session_event : SessionEvent → List SessionRow → List SessionRow
  run_session_event (requested request) rows = (get_current_user gate request rows).1
  run_session_event (opened user id token expires_at stamp) rows =
      persist_session user id token expires_at stamp rows
  run_session_event (logged_out stamp id) rows = revoke_session stamp id rows
  run_session_event (cleared user) rows = delete_rows (λ row. row.user_id == user) rows

  unfoldable pub run_session_events : List SessionEvent → List SessionRow → List SessionRow
  unfolding run_session_event
  run_session_events [] rows = rows
  run_session_events (event ∷ rest) rows = run_session_events rest (run_session_event event rows)

-- No new session takes the id: ids are random.
unfoldable pub IsOther : String → SessionEvent → Type 0
IsOther id (opened user other token expires_at stamp) = (other == id) ≡ false
IsOther id event = Unit

abbrev is_good : String → SessionRow → Bool
is_good id row = row.session_id == id && not (is_some row.revoked_at)

pub update-is_out :
    (id : String) (p : SessionRow → Bool) (f : SessionRow → SessionRow) (rows : List SessionRow)
    → ((row : SessionRow) → is_good id row ≡ false → is_good id (f row) ≡ false)
    → is_out id rows ≡ true
    → is_out id (update_rows p f rows) ≡ true
unfolding update_rows
update-is_out id p f [] h out = refl
update-is_out id p f (row ∷ rows) h out = elim (Bool-cases (is_good id row)) [
  | inl good ↦ absurd (ground (arith, good, out))
  | inr bad ↦
      ground (arith, bad, h row bad, out, update-is_out id p f rows h (ground (arith, bad, out)))
]

pub delete-is_out :
    (id : String) (p : SessionRow → Bool) (rows : List SessionRow)
    → is_out id rows ≡ true
    → is_out id (delete_rows p rows) ≡ true
unfolding delete_rows
delete-is_out id p [] out = refl
delete-is_out id p (row ∷ rows) out =
    ground (arith, out, delete-is_out id p rows (ground (arith, out)))

pub insert-is_out :
    (id : String) (rows : List SessionRow) (new : SessionRow)
    → is_out id rows ≡ true
    → (new.session_id == id) ≡ false
    → is_out id (rows ++ (new ∷ [])) ≡ true
insert-is_out id [] new out other = ground (arith, other)
insert-is_out id (row ∷ rows) new out other =
    ground (arith, out, insert-is_out id rows new (ground (arith, out)) other)

pub revoke-is_out :
    (stamp id : String) (rows : List SessionRow) → is_out id (revoke_session stamp id rows) ≡ true
unfolding revoke_session update_rows
revoke-is_out stamp id [] = refl
revoke-is_out stamp id (row ∷ rows) = ground (arith, revoke-is_out stamp id rows)

pub lookup-is_out :
    (id : String) (rows : List SessionRow) {row : SessionRow}
    → is_out id rows ≡ true
    → lookup_session id rows ≡ some row
    → is_some row.revoked_at ≡ true
unfolding lookup_session first_row
lookup-is_out id [] out found = absurd (none-ne-some found)
lookup-is_out id (row ∷ rows) {row = found_row} out found =
    elim (Bool-cases (row.session_id == id)) [
      | inl same ↦
          let here : row ≡ found_row =
            some-injective _ _ (rw (lookup_session, first_row, same) at found) in
          subst (λ (r : SessionRow). is_some r.revoked_at ≡ true) here (ground (arith, same, out))
      | inr other ↦
          lookup-is_out id rows (ground (arith, other, out))
            (rw (lookup_session, first_row, other) at found)
    ]
