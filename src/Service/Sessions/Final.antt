-- ===== src/Service/Sessions/Final.antt =====
-- service/auth.py and service/deps.py: a session that was revoked, by a logout or because Immich refused its
-- token, over the later calls on the table of sessions.
use media_refinery.Service.Sessions.Events.{
  IsOther, SessionEvent, cleared, delete-is_out, insert-is_out, logged_out, lookup-is_out, opened,
  requested, revoke-is_out, run_session_event, run_session_events, update-is_out,
}
use media_refinery.Common.{
  ap, Outcome, Outcome-cases, leb, ◌⊎◌, All, Bool, Bool-cases, List, Option-cases, String, [],
  arith, false, inl, inr, raised, refl, returned, true, ◌==◌, ◌∷◌, ◌≡◌,
}
use media_refinery.Security.Limiter.Window.{fresh}
use media_refinery.Service.Sessions.{
  GateFault, auth_error, bad_json, decrypt_session_token, invalid_credentials,
  revalidate_via_users_me, session_revoked, should_revalidate_session, upstream_session_expired,
  with_revalidated, Gate, GateRequest, admit, get_current_user, lookup_session,
  mark_session_revalidated, persist_session, revalidate, revoke_session, session_of_cookie,
  unauthorized, with_revoked,
}
use media_refinery.Service.{SessionRow, delete_rows}
use media_refinery.Service.Scheduler.Quota.{stamp}
use media_refinery.Service.Sessions.Admitted.{is_out}

module _ (gate : Gate) (id : String) where
  revoke_other-is_out :
      (stamp k : String) (rows : List SessionRow)
      → is_out id rows ≡ true
      → is_out id (revoke_session stamp k rows) ≡ true
  unfolding revoke_session
  revoke_other-is_out stamp k rows out =
      update-is_out id (λ row. row.session_id == k) (with_revoked stamp) rows
        (λ row bad. ground (arith, bad)) out

  mark-is_out :
      (stamp k : String) (rows : List SessionRow)
      → is_out id rows ≡ true
      → is_out id (mark_session_revalidated stamp k rows) ≡ true
  unfolding mark_session_revalidated
  mark-is_out stamp k rows out =
      update-is_out id (λ row. row.session_id == k) (with_revalidated stamp) rows (λ row bad. bad)
        out

  -- The three tables that a request may leave.
  IsLeft : GateRequest → List SessionRow → Outcome GateFault String × List SessionRow → Type 0
  IsLeft request rows r =
      (r.1 ≡ rows)
      ⊎ (((k : String) × (r.1 ≡ revoke_session request.stamp k rows))
          ⊎ ((k : String) × (r.1 ≡ mark_session_revalidated request.stamp k rows)))

  revalidate-IsLeft :
      (request : GateRequest) (k : String) (row : SessionRow) (rows : List SessionRow)
      → IsLeft request rows (revalidate gate request k row rows)
  unfolding IsLeft revalidate
  revalidate-IsLeft request k row rows = elim (Option-cases (decrypt_session_token gate row)) [
    | inl unread ↦ inl (rw (revalidate, unread) refl)
    | inr (token, read) ↦ elim (Outcome-cases (revalidate_via_users_me (request.users_me token))) [
      | inl (u, fine) ↦ inr (inr (k, rw (revalidate, read, fine) refl))
      | inr (invalid_credentials, bad) ↦ inr (inl (k, rw (revalidate, read, bad) refl))
      | inr (auth_error, bad) ↦ inl (rw (revalidate, read, bad) refl)
      | inr (bad_json, bad) ↦ inl (rw (revalidate, read, bad) refl)
    ]
  ]

  admit-IsLeft :
      (request : GateRequest) (k : String) (row : SessionRow) (rows : List SessionRow)
      → IsLeft request rows (admit gate request k row rows)
  unfolding IsLeft admit
  admit-IsLeft request k row rows = elim (Option-cases row.revoked_at) [
    | inr (at, revoked) ↦ inl (rw (admit, revoked) refl)
    | inl good ↦ elim (Option-cases (gate.parse_expiry row.expires_at)) [
      | inl unclear ↦ inl (rw (admit, good, unclear) refl)
      | inr (expiry, clear) ↦ elim (Bool-cases (leb expiry request.now)) [
        | inl late ↦ inl (rw (admit, good, clear, late) refl)
        | inr early ↦
            elim (Bool-cases (should_revalidate_session gate row.last_revalidated_at request.now)) [
              | inl due ↦ rw (admit, good, clear, early, due) (revalidate-IsLeft request k row rows)
              | inr fresh ↦ inl (rw (admit, good, clear, early, fresh) refl)
            ]
      ]
    ]
  ]

  get_current_user-is_out :
      (request : GateRequest) (rows : List SessionRow)
      → is_out id rows ≡ true
      → is_out id (get_current_user gate request rows).1 ≡ true
  unfolding get_current_user IsLeft
  get_current_user-is_out request rows out =
      elim (Outcome-cases (session_of_cookie gate request.cookie)) [
        | inr (e, refused) ↦ rw (get_current_user, refused) out
        | inl (k, verified) ↦ elim (Option-cases (lookup_session k rows)) [
          | inl missed ↦ rw (get_current_user, verified, missed) out
          | inr (row, found) ↦
              rw (get_current_user, verified, found)
                (elim (admit-IsLeft request k row rows) [
                  | inl same ↦ rw same out
                  | inr (inl (j, e)) ↦ rw e (revoke_other-is_out request.stamp j rows out)
                  | inr (inr (j, e)) ↦ rw e (mark-is_out request.stamp j rows out)
                ])
        ]
      ]

  run_session_events-is_out :
      (events : List SessionEvent) (rows : List SessionRow)
      → All (IsOther id) events
      → is_out id rows ≡ true
      → is_out id (run_session_events gate events rows) ≡ true
  unfolding run_session_events run_session_event IsOther persist_session revoke_session
  run_session_events-is_out [] rows others out = out
  run_session_events-is_out (requested request ∷ rest) rows others out =
      run_session_events-is_out rest (get_current_user gate request rows).1 others.1
        (get_current_user-is_out request rows out)
  run_session_events-is_out (opened user k token expires_at stamp ∷ rest) rows others out =
      run_session_events-is_out rest (persist_session user k token expires_at stamp rows) others.1
        (insert-is_out id rows _ out others.0)
  run_session_events-is_out (logged_out stamp k ∷ rest) rows others out =
      run_session_events-is_out rest (revoke_session stamp k rows) others.1 (
        update-is_out id (λ row. row.session_id == k) (with_revoked stamp) rows
          (λ row bad. ground (arith, bad)) out)
  run_session_events-is_out (cleared user ∷ rest) rows others out =
      run_session_events-is_out rest (delete_rows (λ row. row.user_id == user) rows) others.1
        (delete-is_out id (λ row. row.user_id == user) rows out)

  refused_while_out :
      (request : GateRequest) (rows : List SessionRow)
      → session_of_cookie gate request.cookie ≡ returned id
      → is_out id rows ≡ true
      → (get_current_user gate request rows).0 ≡ raised (unauthorized session_revoked)
  unfolding get_current_user admit
  refused_while_out request rows verified out = elim (Option-cases (lookup_session id rows)) [
    | inl missed ↦ rw (get_current_user, verified, missed) refl
    | inr (row, found) ↦ elim (Option-cases row.revoked_at) [
      | inr (at, revoked) ↦ rw (get_current_user, verified, found, admit, revoked) refl
      | inl good ↦ absurd (ground (arith, lookup-is_out id rows out found, good))
    ]
  ]

  -- After a session is revoked, and after any later requests, logins under other session ids,
  -- logouts and purges, a request with its cookie is refused as revoked.
  pub revoked_for_good :
      (stamp : String) (rows : List SessionRow) (events : List SessionEvent) (request : GateRequest)
      → All (IsOther id) events
      → session_of_cookie gate request.cookie ≡ returned id
      → (get_current_user gate request
          (run_session_events gate events (revoke_session stamp id rows))).0
        ≡ raised (unauthorized session_revoked)
  revoked_for_good stamp rows events request others verified =
      refused_while_out request _ verified (
        run_session_events-is_out events (revoke_session stamp id rows) others
          (revoke-is_out stamp id rows))

  abbrev is_upstream : Outcome GateFault String → Bool
  is_upstream (raised (unauthorized upstream_session_expired)) = true
  is_upstream r = false

  not_upstream :
      {r : Outcome GateFault String}
      → r ≡ raised (unauthorized upstream_session_expired)
      → is_upstream r ≡ false
      → ⊥
  not_upstream e h = absurd (ground (arith, ap is_upstream e, h))

  revalidate_refused :
      (request : GateRequest) (row : SessionRow) (rows : List SessionRow)
      → (revalidate gate request id row rows).0 ≡ raised (unauthorized upstream_session_expired)
      → (revalidate gate request id row rows).1 ≡ revoke_session request.stamp id rows
  unfolding revalidate
  revalidate_refused request row rows h = elim (Option-cases (decrypt_session_token gate row)) [
    | inl unread ↦ absurd (not_upstream (rw (revalidate, unread) at h) refl)
    | inr (token, read) ↦ elim (Outcome-cases (revalidate_via_users_me (request.users_me token))) [
      | inl (u, fine) ↦ absurd (not_upstream (rw (revalidate, read, fine) at h) refl)
      | inr (invalid_credentials, bad) ↦ rw (revalidate, read, bad) refl
      | inr (auth_error, bad) ↦ absurd (not_upstream (rw (revalidate, read, bad) at h) refl)
      | inr (bad_json, bad) ↦ absurd (not_upstream (rw (revalidate, read, bad) at h) refl)
    ]
  ]

  admit_refused :
      (request : GateRequest) (row : SessionRow) (rows : List SessionRow)
      → (admit gate request id row rows).0 ≡ raised (unauthorized upstream_session_expired)
      → (admit gate request id row rows).1 ≡ revoke_session request.stamp id rows
  unfolding admit
  admit_refused request row rows h = elim (Option-cases row.revoked_at) [
    | inr (at, revoked) ↦ absurd (not_upstream (rw (admit, revoked) at h) refl)
    | inl good ↦ elim (Option-cases (gate.parse_expiry row.expires_at)) [
      | inl unclear ↦ absurd (not_upstream (rw (admit, good, unclear) at h) refl)
      | inr (expiry, clear) ↦ elim (Bool-cases (leb expiry request.now)) [
        | inl late ↦ absurd (not_upstream (rw (admit, good, clear, late) at h) refl)
        | inr early ↦
            elim (Bool-cases (should_revalidate_session gate row.last_revalidated_at request.now)) [
              | inr fresh ↦ absurd (not_upstream (rw (admit, good, clear, early, fresh) at h) refl)
              | inl due ↦
                  rw (admit, good, clear, early, due)
                    (revalidate_refused request row rows (rw (admit, good, clear, early, due) at h))
            ]
      ]
    ]
  ]

  -- A request that Immich refused leaves its session revoked.
  refused_upstream :
      (request : GateRequest) (rows : List SessionRow)
      → session_of_cookie gate request.cookie ≡ returned id
      → (get_current_user gate request rows).0 ≡ raised (unauthorized upstream_session_expired)
      → is_out id (get_current_user gate request rows).1 ≡ true
  unfolding get_current_user
  refused_upstream request rows verified h = elim (Option-cases (lookup_session id rows)) [
    | inl missed ↦ absurd (not_upstream (rw (get_current_user, verified, missed) at h) refl)
    | inr (row, found) ↦
        let left = admit_refused request row rows (rw (get_current_user, verified, found) at h) in
        rw (get_current_user, verified, found, left) (revoke-is_out request.stamp id rows)
  ]

  -- After a request whose session Immich refused to confirm, and after any later requests, logins
  -- under other session ids, logouts and purges, a request with that session's cookie is refused as
  -- revoked.
  pub rejected_for_good :
      (first : GateRequest) (rows : List SessionRow) (events : List SessionEvent)
      (request : GateRequest)
      → session_of_cookie gate first.cookie ≡ returned id
      → (get_current_user gate first rows).0 ≡ raised (unauthorized upstream_session_expired)
      → All (IsOther id) events
      → session_of_cookie gate request.cookie ≡ returned id
      → (get_current_user gate request
          (run_session_events gate events (get_current_user gate first rows).1)).0
        ≡ raised (unauthorized session_revoked)
  rejected_for_good first rows events request same refused others verified =
      refused_while_out request _ verified (
        run_session_events-is_out events (get_current_user gate first rows).1 others
          (refused_upstream first rows same refused))
