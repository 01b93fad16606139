-- ===== src/Service/Sessions/Admitted.antt =====
-- service/deps.py: whom `get_current_user` admits, and for how long a session that was revoked stays out.
use media_refinery.Common.{
  Bool, Bool-cases, List, Option-cases, Outcome-cases, String, any, arith, inl, inr, is_some, leb,
  none, not, raised-ne-returned, returned, returned-injective, some, ℕ, ◌&&◌, ◌<◌, ◌==◌, ◌≡◌,
}
use media_refinery.Security.Limiter.Window.{fresh}
use media_refinery.Service.{SessionRow}
use media_refinery.Service.Sessions.{
  Gate, GateRequest, admit, auth_error, bad_json, decrypt_session_token, get_current_user,
  invalid_credentials, lookup_session, revalidate, revalidate_via_users_me, session_of_cookie,
  should_revalidate_session,
}

-- No row of the session is still good.
abbrev pub is_out : String → List SessionRow → Bool
is_out id rows = not (any (λ row. row.session_id == id && not (is_some row.revoked_at)) rows)

-- What stands behind a request that was let in.
pub record IsAdmitted (gate : Gate) (request : GateRequest) (rows : List SessionRow) (user : String)
    : Type 0 where
  pub session_id : String
  pub row : SessionRow
  pub cookie_eq : session_of_cookie gate request.cookie ≡ returned session_id
  pub row_eq : lookup_session session_id rows ≡ some row
  pub revoked_eq : row.revoked_at ≡ none
  pub expiry : ℕ
  pub expiry_eq : gate.parse_expiry row.expires_at ≡ some expiry
  pub is_early : request.now < expiry
  pub user_eq : row.user_id ≡ user

module _ (gate : Gate) (request : GateRequest) where
  revalidate-user :
      (id : String) (row : SessionRow) (rows : List SessionRow) {user : String}
      → (revalidate gate request id row rows).0 ≡ returned user
      → row.user_id ≡ user
  unfolding revalidate
  revalidate-user id row rows h = elim (Option-cases (decrypt_session_token gate row)) [
    | inl unread ↦ absurd (raised-ne-returned (rw (revalidate, unread) at h))
    | inr (token, read) ↦ elim (Outcome-cases (revalidate_via_users_me (request.users_me token))) [
      | inl (u, fine) ↦ returned-injective (rw (revalidate, read, fine) at h)
      | inr (invalid_credentials, bad) ↦
          absurd (raised-ne-returned (rw (revalidate, read, bad) at h))
      | inr (auth_error, bad) ↦ absurd (raised-ne-returned (rw (revalidate, read, bad) at h))
      | inr (bad_json, bad) ↦ absurd (raised-ne-returned (rw (revalidate, read, bad) at h))
    ]
  ]

  -- Whoever get_current_user lets in has a cookie that verifies to a session id whose row is in the
  -- table, belongs to that user, is not revoked and expires after the time of the request.
  pub get_current_user-IsAdmitted :
      (rows : List SessionRow) {user : String}
      → (get_current_user gate request rows).0 ≡ returned user
      → IsAdmitted gate request rows user
  unfolding get_current_user admit
  get_current_user-IsAdmitted rows {user} h =
      elim (Outcome-cases (session_of_cookie gate request.cookie)) [
        | inr (e, refused) ↦ absurd (raised-ne-returned (rw (get_current_user, refused) at h))
        | inl (id, verified) ↦ elim (Option-cases (lookup_session id rows)) [
          | inl missed ↦ absurd (raised-ne-returned (rw (get_current_user, verified, missed) at h))
          | inr (row, found) ↦
              admitted id row verified found (rw (get_current_user, verified, found) at h)
        ]
      ]
    where
      admitted :
          (id : String) (row : SessionRow)
          → session_of_cookie gate request.cookie ≡ returned id
          → lookup_session id rows ≡ some row
          → (admit gate request id row rows).0 ≡ returned user
          → IsAdmitted gate request rows user
      admitted id row verified found a = elim (Option-cases row.revoked_at) [
        | inr (at, revoked) ↦ absurd (raised-ne-returned (rw (admit, revoked) at a))
        | inl good ↦ elim (Option-cases (gate.parse_expiry row.expires_at)) [
          | inl unclear ↦ absurd (raised-ne-returned (rw (admit, good, unclear) at a))
          | inr (expiry, clear) ↦ elim (Bool-cases (leb expiry request.now)) [
            | inl late ↦ absurd (raised-ne-returned (rw (admit, good, clear, late) at a))
            | inr early ↦ record {
              session_id = id;
              row = row;
              cookie_eq = verified;
              row_eq = found;
              revoked_eq = good;
              expiry = expiry;
              expiry_eq = clear;
              is_early = ground (arith, early);
              user_eq =
                  elim (Bool-cases
                    (should_revalidate_session gate row.last_revalidated_at request.now)) [
                      | inl due ↦
                          revalidate-user id row rows (rw (admit, good, clear, early, due) at a)
                      | inr fresh ↦ returned-injective (rw (admit, good, clear, early, fresh) at a)
                    ];
            }
          ]
        ]
      ]
