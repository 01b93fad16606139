-- ===== src/Service/Sessions.antt =====
-- service/auth.py and service/deps.py: the sessions of the web service and `get_current_user`, the gate of
-- every request that is not public. The signer of the cookie, the parsers of times, the decoder of text and
-- the answers of Immich are parameters; a time is a natural number of seconds.
pub mod Admitted
pub mod Events
pub mod Final
use media_refinery.Client.{DateTime, aware, naive}
use media_refinery.Common.{
  Bool, List, Option, Outcome, String, [], code, if◌then◌else◌, is_empty, leb, nat_eq, none, not,
  raised, replace_zulu, returned, some, true, ℕ, ◌++◌, ◌+◌, ◌==◌, ◌∷◌,
}
use media_refinery.Security.Cipher.{AesGcmCipher, Bytes, decrypt}
use media_refinery.Service.{SessionRow, first_row, update_rows}

pub data UsersMe : Type 0 where
  unreachable : UsersMe
  -- the status, and whether the body is JSON
  answered : ℕ → Bool → UsersMe

-- What `revalidate_via_users_me` raises; `bad_json` is the ValueError of the body.
pub data AuthFault : Type 0 where
  invalid_credentials auth_error bad_json : AuthFault

unfoldable pub revalidate_via_users_me : UsersMe → Outcome AuthFault Unit
revalidate_via_users_me unreachable = raised auth_error
revalidate_via_users_me (answered code json) =
    if nat_eq code 401
    then raised invalid_credentials
    else if not (nat_eq code 200)
    then raised auth_error
    else if json
    then returned tt
    else raised bad_json

-- The detail of a status 401.
pub data Detail : Type 0 where
  not_authenticated invalid_session session_revoked invalid_session_expiry : Detail
  session_expired upstream_session_expired : Detail

-- An HTTPException by its status and detail, or an exception that the handler does not catch.
pub data GateFault : Type 0 where
  unauthorized : Detail → GateFault
  bad_gateway uncaught : GateFault

pub record Gate : Type 0 where
  pub verify : String → Option String
  pub parse_expiry : String → Option ℕ
  pub from_iso_format : String → Option DateTime
  pub decode_utf8 : Bytes → Option String
  pub cipher : AesGcmCipher
  pub interval_seconds : ℕ

-- One request: its cookie, its time, what Immich answers to a token, and CURRENT_TIMESTAMP.
pub record GateRequest : Type 0 where
  pub cookie : Option String
  pub now : ℕ
  pub users_me : String → UsersMe
  pub stamp : String

unfoldable pub lookup_session : String → List SessionRow → Option SessionRow
lookup_session id rows = first_row (λ row. row.session_id == id) rows

abbrev pub with_revoked : String → SessionRow → SessionRow
with_revoked stamp row = record row { revoked_at = some stamp }

unfoldable pub revoke_session : String → String → List SessionRow → List SessionRow
revoke_session stamp id rows = update_rows (λ row. row.session_id == id) (with_revoked stamp) rows

abbrev pub with_revalidated : String → SessionRow → SessionRow
with_revalidated stamp row = record row { last_revalidated_at = some stamp }

unfoldable pub mark_session_revalidated : String → String → List SessionRow → List SessionRow
mark_session_revalidated stamp id rows =
    update_rows (λ row. row.session_id == id) (with_revalidated stamp) rows

unfoldable pub persist_session :
    String → String → Bytes → String → String → List SessionRow → List SessionRow
persist_session user id token expires_at stamp rows =
    rows
    ++ (record {
      session_id = id;
      user_id = user;
      encrypted_immich_token = token;
      created_at = stamp;
      expires_at = expires_at;
      last_revalidated_at = some stamp;
      revoked_at = none;
    }
        ∷ [])

unfoldable pub seconds_of : DateTime → ℕ
seconds_of (naive t) = t
seconds_of (aware t) = t

module _ (gate : Gate) where
  unfoldable pub should_revalidate_session : Option String → ℕ → Bool
  unfolding seconds_of
  should_revalidate_session none now = true
  should_revalidate_session (some last) now = elim (gate.from_iso_format (replace_zulu last)) [
    | none ↦ true
    | some t ↦ leb (seconds_of t + gate.interval_seconds) now
  ]

  -- `none` is a ValueError, of the cipher or of the decoder.
  unfoldable pub decrypt_session_token : SessionRow → Option String
  decrypt_session_token row = elim (decrypt gate.cipher row.encrypted_immich_token none) [
    | raised e ↦ none
    | returned bytes ↦ gate.decode_utf8 bytes
  ]

  -- The revalidation of a session with Immich.
  unfoldable pub revalidate :
      GateRequest
      → String
      → SessionRow
      → List SessionRow
      → Outcome GateFault String × List SessionRow
  unfolding decrypt_session_token revalidate_via_users_me
  revalidate request id row rows = elim (decrypt_session_token row) [
    | none ↦ (raised uncaught, rows)
    | some token ↦ elim (revalidate_via_users_me (request.users_me token)) [
      | raised invalid_credentials ↦
          (raised (unauthorized upstream_session_expired), revoke_session request.stamp id rows)
      | raised auth_error ↦ (raised bad_gateway, rows)
      | raised bad_json ↦ (raised uncaught, rows)
      | returned _ ↦ (returned row.user_id, mark_session_revalidated request.stamp id rows)
    ]
  ]

  -- The checks of a session that was found.
  unfoldable pub admit :
      GateRequest
      → String
      → SessionRow
      → List SessionRow
      → Outcome GateFault String × List SessionRow
  unfolding revalidate
  admit request id row rows = elim row.revoked_at [
    | some at ↦ (raised (unauthorized session_revoked), rows)
    | none ↦ elim (gate.parse_expiry row.expires_at) [
      | none ↦ (raised (unauthorized invalid_session_expiry), rows)
      | some expiry ↦
          if leb expiry request.now
          then (raised (unauthorized session_expired), rows)
          else if should_revalidate_session row.last_revalidated_at request.now
          then revalidate request id row rows
          else (returned row.user_id, rows)
    ]
  ]

  unfoldable pub session_of_cookie : Option String → Outcome GateFault String
  session_of_cookie none = raised (unauthorized not_authenticated)
  session_of_cookie (some cookie) =
      if is_empty cookie
      then raised (unauthorized not_authenticated)
      else elim (gate.verify cookie) [
        | none ↦ raised (unauthorized invalid_session)
        | some id ↦ returned id
      ]

  unfoldable pub get_current_user :
      GateRequest → List SessionRow → Outcome GateFault String × List SessionRow
  unfolding session_of_cookie admit
  get_current_user request rows = elim (session_of_cookie request.cookie) [
    | raised e ↦ (raised e, rows)
    | returned id ↦ elim (lookup_session id rows) [
      | none ↦ (raised (unauthorized session_revoked), rows)
      | some row ↦ admit request id row rows
    ]
  ]
