-- ===== src/Tests/Sessions.antt =====
-- The theorems on sessions, the locked folder and the auto scan at concrete data.
use media_refinery.Common.{
  Option, String, pos, All, List, [], code, if◌then◌else◌, is_empty, none, raised, refl, returned,
  some, true, ℕ, ◌==◌, ◌∷◌, ◌≡◌,
}
use media_refinery.Client.{DateTime, aware}
use media_refinery.Service.Sessions.Events.{
  IsOther, SessionEvent, opened, requested, run_session_events,
}
use media_refinery.Service.Sessions.Final.{rejected_for_good, revoked_for_good}
use media_refinery.Security.Cipher.{decrypt, AesGcmCipher, Bytes}
use media_refinery.Service.{first_row, Db, SessionRow}
use media_refinery.Service.LockedFolder.{LockRequest, Sender, show_in_timeline}
use media_refinery.Service.Sessions.{
  lookup_session, should_revalidate_session, Gate, GateRequest, answered, get_current_user,
  revoke_session, session_of_cookie, session_revoked, unauthorized, upstream_session_expired,
}
use media_refinery.Tests.Services.{tables}
use media_refinery.Service.AutoScanning.{answer}
use media_refinery.Service.AutoScanning.Tick.{TickEnv}
use media_refinery.Service.Sessions.Admitted.{IsAdmitted, get_current_user-IsAdmitted}
use media_refinery.Tests.{item}
use media_refinery.Values.{Value, cons, end, mapping, nil, seq, str}

abbrev keyed : AesGcmCipher
keyed = record {
  aead = record {
    seal = λ key nonce plaintext associated. plaintext;
    unseal = λ key nonce sealed associated. some sealed;
  };
  key = [];
}

abbrev token_bytes : Bytes
token_bytes =
    1 ∷ 0 ∷ 0 ∷ 0 ∷ 0 ∷ 0 ∷ 0 ∷ 0 ∷ 0 ∷ 0 ∷ 0 ∷ 0 ∷ 0 ∷ 7 ∷ 7 ∷ 7 ∷ 7 ∷ 7 ∷ 7 ∷ 7 ∷ 7 ∷ 7 ∷ 7 ∷ 7
    ∷ 7 ∷ 7 ∷ 7 ∷ 7 ∷ 7 ∷ 7 ∷ []

abbrev gate : Gate
gate = record {
  verify = λ cookie. some cookie;
  parse_expiry = λ s. some 1000;
  from_iso_format = λ s. none;
  decode_utf8 = λ bytes. some "token";
  cipher = keyed;
  interval_seconds = 60;
}

abbrev session : SessionRow
session = record {
  session_id = "s1";
  user_id = "u1";
  encrypted_immich_token = token_bytes;
  created_at = "2026-04-01 08:00:00";
  expires_at = "2026-04-02T08:00:00Z";
  last_revalidated_at = none;
  revoked_at = none;
}

-- A request with the session's cookie, to which Immich answers with a status.
abbrev request_at : ℕ → GateRequest
request_at code = record {
  cookie = some "s1";
  now = 500;
  users_me = λ token. answered code true;
  stamp = "2026-04-01 09:00:00";
}

session_verified : (code : ℕ) → session_of_cookie gate (request_at code).cookie ≡ returned "s1"
unfolding session_of_cookie is_empty
session_verified code = refl

admitted_user : (get_current_user gate (request_at 200) (session ∷ [])).0 ≡ returned "u1"
unfolding get_current_user is_empty lookup_session first_row should_revalidate_session decrypt
admitted_user = refl

get_current_user-IsAdmitted_example : IsAdmitted gate (request_at 200) (session ∷ []) "u1"
get_current_user-IsAdmitted_example =
    get_current_user-IsAdmitted gate (request_at 200) (session ∷ []) admitted_user

abbrev later_events : List SessionEvent
later_events =
    requested (request_at 200)
    ∷ opened "u1" "s2" token_bytes "2026-04-03T08:00:00Z" "2026-04-01 09:30:00"
    ∷ []

others : All (IsOther "s1") later_events
unfolding IsOther
others = (tt, (refl, tt))

revoked_for_good_example :
    (get_current_user gate
      (request_at 200)
      (run_session_events gate later_events (revoke_session "now" "s1" (session ∷ [])))).0
    ≡ raised (unauthorized session_revoked)
revoked_for_good_example =
    revoked_for_good gate "s1" "now" (session ∷ []) later_events (request_at 200) others
      (session_verified 200)

refused_user :
    (get_current_user gate (request_at 401) (session ∷ [])).0
    ≡ raised (unauthorized upstream_session_expired)
unfolding get_current_user is_empty lookup_session first_row should_revalidate_session decrypt
refused_user = refl

rejected_for_good_example :
    (get_current_user gate (request_at 200) (
      run_session_events gate later_events
        (get_current_user gate (request_at 401) (session ∷ [])).1)).0
    ≡ raised (unauthorized session_revoked)
rejected_for_good_example =
    rejected_for_good gate "s1" (request_at 401) (session ∷ []) later_events (request_at 200)
      (session_verified 401) refused_user others (session_verified 200)

-- A server that keeps its requests and does not know the asset "b".
abbrev send : Sender (List LockRequest)
send bearer (show_in_timeline id) log =
    (if id == "b" then some 404 else some 204, show_in_timeline id ∷ log)
send bearer request log = (some 204, request ∷ log)

abbrev page : Value
page = mapping (
    item "assets"
      (mapping (
        item "items"
          (seq (cons (mapping (item "fileCreatedAt" (str "2026-04-01T07:00:00Z") end)) nil)) end))
      end)

abbrev tick_env : TickEnv
tick_env = record {
  token_of = λ row. some "token";
  search = λ bearer. record { to_int = λ v. none; page_of = λ since n. answer 200 (some page) };
  dispatch = λ user db. (returned (some 1), db);
  details = λ walk run. "{}";
  max_pages = 10;
}

abbrev session_tables : Db
session_tables = record tables { sessions = session ∷ [] }

-- One user who has never been polled, and one who was polled a minute ago.
abbrev polled_tables : Db
polled_tables = record session_tables {
  user_auto_scan =
      record {
        user_id = "u1";
        enabled = true;
        interval_minutes = pos 30;
        last_seen_taken_at = none;
        last_run_at = none;
        last_status = none;
        last_error_code = none;
      }
      ∷ record {
        user_id = "u2";
        enabled = true;
        interval_minutes = pos 1;
        last_seen_taken_at = none;
        last_run_at = some "2026-04-01T08:59:00Z";
        last_status = none;
        last_error_code = none;
      }
      ∷ [];
}

abbrev parsed : String → Option DateTime
parsed s = some (aware 940)
