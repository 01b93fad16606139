-- ===== src/Service/AutoScanning.antt =====
-- service/auto_scan.py: the tick of one user and the pass of the coordinator over the users. Immich answers
-- a page of the search with a status and a body; `int` and the comparison of times are parameters, and the
-- dispatch of a scan is a call on the service's world.
pub mod Tick
pub mod Ticked
pub mod Rows
pub mod Recorded
pub mod Coordinator
use media_refinery.Common.{
  Outcome, raised, returned, Bool, List, Option, String, [], code, false, if◌then◌else◌, leb,
  length, max, min, nat_eq, negsuc, none, pos, some, suc, text_ltb, true, zero, ℕ, ℤ, ◌+◌, ◌∷◌,
}
use media_refinery.Values.{
  Value, as_mapping, get_value, mapping, non_empty_text, null, seq, str, to_list, truthy,
}

abbrev pub max_pages_per_tick : ℕ
max_pages_per_tick = 10

unfoldable pub clamp_interval : ℤ → ℕ
clamp_interval (pos n) = max 5 (min 1440 n)
clamp_interval (negsuc n) = 5

-- The body is `none` where it is no JSON.
pub data Answer : Type 0 where
  no_answer : Answer
  answer : ℕ → Option Value → Answer

-- Python's `int` of a value; `none` is a TypeError or a ValueError.
pub record Search : Type 0 where
  pub to_int : Value → Option ℤ
  pub page_of : Option String → ℤ → Answer

-- `isinstance(items, list)`, after `or []`
abbrev pub items_of : Value → List Value
items_of (seq vs) = to_list vs
items_of v = []

abbrev pub next_of : Search → Value → Option ℤ
next_of search null = none
next_of search (str String.[]) = none
next_of search v = search.to_int v

unfoldable pub extract_items_and_next : Search → Value → List Value × Option ℤ
extract_items_and_next search (mapping payload) = elim (as_mapping (get_value payload "assets")) [
  | none ↦ ([], none)
  | some assets ↦
      (items_of (get_value assets "items"), next_of search (get_value assets "nextPage"))
]
extract_items_and_next search v = ([], none)

-- `item.get("fileCreatedAt") or item.get("localDateTime")`, where it is a text that is not empty
unfoldable pub taken_at : Value → Option String
taken_at (mapping item) =
    let created = get_value item "fileCreatedAt" in
    non_empty_text (if truthy created then created else get_value item "localDateTime")
taken_at v = none

unfoldable pub later : Option String → Option String → Option String
later out none = out
later none (some candidate) = some candidate
later (some out) (some candidate) = if text_ltb out candidate then some candidate else some out

unfoldable pub max_taken_at : List Value → Option String → Option String
unfolding taken_at later
max_taken_at [] out = out
max_taken_at (item ∷ items) out = max_taken_at items (later out (taken_at item))

-- What a walk over the pages has found; `error_code` is `none` while the status is ok.
pub record Walk : Type 0 where
  pub pages_walked : ℕ
  pub new_assets : ℕ
  pub new_cursor : Option String
  pub error_code : Option String
  pub disable : Bool

abbrev pub failed_walk : String → Bool → Walk → Walk
failed_walk code disable w = record w { error_code = some code; disable = disable }

abbrev pub count_page : Walk → Walk
count_page w = record w { pages_walked = suc w.pages_walked }

abbrev pub take_page : List Value → Walk → Walk
take_page items w = record w {
  new_assets = w.new_assets + length items;
  new_cursor = max_taken_at items w.new_cursor;
}

-- The tests of one answer: the error code and whether the user is disabled, or the body.
unfoldable pub page_result : ℕ → Option Value → Outcome (String × Bool) Value
page_result code body =
    if nat_eq code 401
    then raised ("upstream_session_expired", true)
    else if leb 500 code
    then raised ("upstream_unreachable", false)
    else if leb 400 code
    then raised ("upstream_bad_request", false)
    else elim body [
      | none ↦ raised ("upstream_invalid_json", false)
      | some payload ↦ returned payload
    ]

module _ (search : Search) (last_seen : Option String) where
  -- `while page is not None and pages_walked < max_pages`, with the pages that are left
  unfoldable pub walk_pages : ℕ → Option ℤ → Walk → Walk
  unfolding extract_items_and_next max_taken_at page_result
  walk_pages zero page w = w
  walk_pages (suc left) none w = w
  walk_pages (suc left) (some page) w = elim (search.page_of last_seen page) [
    | no_answer ↦ failed_walk "upstream_unreachable" false w
    | answer code body ↦ elim (page_result code body) [
      | raised (error, disable) ↦ failed_walk error disable (count_page w)
      | returned payload ↦
          let (items, next) = extract_items_and_next search payload in
          walk_pages left next (take_page items (count_page w))
    ]
  ]

abbrev pub started_walk : Option String → Walk
started_walk last_seen = record {
  pages_walked = 0;
  new_assets = 0;
  new_cursor = last_seen;
  error_code = none;
  disable = false;
}

pub record TickOutcome : Type 0 where
  pub user_id : String
  pub status : String
  pub new_assets : ℕ
  pub pages_walked : ℕ
  pub submitted_run_id : Option ℕ
  pub error_code : Option String

-- `"ok"`, or `"error"` where there is a code
abbrev pub status_of : Option String → String
status_of none = "ok"
status_of (some code) = "error"
