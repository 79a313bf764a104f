-- ===== src/Recur/Evaluate.antt =====
-- mini-recur/make_goldens.py: `resolve` and `evaluate`. An instant is its seconds since 1970, a date its
-- ordinal, and a local time its minutes; what zoneinfo says of a time zone is an argument. Edits name
-- rules of the scenario, and are of the two kinds that it allows.
pub mod Once
pub mod Window
use Prim.Native.String.{compare}
use Prim.Native.Nat.{Ordering}
use qwen_3_8_evals.Prelude.{
  ℕ, zero, suc, ◌+◌, ◌-◌, ◌*◌, ◌%◌, String, Bool, true, false, not, ◌&&◌, ◌||◌, Option, none, some,
  List, [], ◌∷◌, ◌++◌, map, if◌then◌else◌, str_eq, leb, ltb, ◌==◌, any, sort,
}

pub record Rule : Type 0 where
  pub id : String
  pub days : List ℕ
  pub time : ℕ

pub data EditKind : Type 0 where
  set_time : String → ℕ → EditKind
  set_timezone : String → EditKind

pub record Edit : Type 0 where
  pub at_instant : ℕ
  pub kind : EditKind

pub record Scenario : Type 0 where
  pub timezone : String
  pub win_start : ℕ
  pub win_end : ℕ
  pub rules : List Rule
  pub edits : List Edit

pub data OccurrenceStatus : Type 0 where
  scheduled skipped_dst : OccurrenceStatus

-- What zoneinfo knows: the instant of a local date and time with fold=0, and the local date and time of
-- an instant.
pub record Zones : Type 0 where
  pub to_utc : String → ℕ → ℕ → ℕ
  pub local_date : String → ℕ → ℕ
  pub local_time : String → ℕ → ℕ

-- `times`: a dict from rule ids to local times.
abbrev pub Times : Type 0
Times = List (String × ℕ)

unfoldable pub set_rule_time : String → ℕ → Times → Times
set_rule_time id time [] = (id, time) ∷ []
set_rule_time id time ((k, t) ∷ rest) =
    if str_eq k id then (k, time) ∷ rest else (k, t) ∷ set_rule_time id time rest

unfoldable pub times_of : List Rule → Times → Times
times_of [] times = times
times_of (r ∷ rest) times = times_of rest (set_rule_time r.id r.time times)

-- `days[rid]`: the last rule of that id gives the days.
unfoldable pub days_of : String → List Rule → List ℕ → List ℕ
days_of id [] found = found
days_of id (r ∷ rest) found = days_of id rest (if str_eq r.id id then r.days else found)

pub record Epoch : Type 0 where
  pub start : ℕ
  pub end : ℕ
  pub timezone : String
  pub times : Times

abbrev pub far_future : ℕ
far_future = 4102444800

abbrev pub edited_zone : EditKind → String → String
edited_zone (set_time _ _) zone = zone
edited_zone (set_timezone zone) _ = zone

abbrev pub edited_times : EditKind → Times → Times
edited_times (set_time id time) times = set_rule_time id time times
edited_times (set_timezone _) times = times

-- The epochs from `start` on, each up to the next edit.
unfoldable pub epochs_from : ℕ → String → Times → List Edit → List Epoch
epochs_from start zone times [] =
    record { start = start; end = far_future; timezone = zone; times = times } ∷ []
epochs_from start zone times (e ∷ rest) =
    record { start = start; end = e.at_instant; timezone = zone; times = times }
    ∷ epochs_from e.at_instant (edited_zone e.kind zone) (edited_times e.kind times) rest

pub record Candidate : Type 0 where
  pub firing : ℕ
  pub rule_id : String
  pub date : ℕ
  pub time : ℕ
  pub status : OccurrenceStatus

-- d.weekday(), for the ordinal of a date
abbrev pub weekday : ℕ → ℕ
weekday d = (d + 6) % 7

abbrev pub is_in : ℕ → ℕ → ℕ → Bool
is_in start end t = leb start t && ltb t end

module _ (zones : Zones) where
  unfoldable pub resolve : String → ℕ → ℕ → OccurrenceStatus × ℕ
  resolve zone d time =
      let u = zones.to_utc zone d time in
      (
        (if zones.local_date zone u == d && zones.local_time zone u == time
            then scheduled
            else skipped_dst),
        u,
      )

  -- The candidates of one rule on one date.
  unfoldable pub candidate : Scenario → Epoch → ℕ → String → ℕ → List Candidate
  unfolding resolve
  candidate s ep d id time =
      let (status, firing) = resolve ep.timezone d time in
      if any (λ day. day == weekday d) (days_of id s.rules [])
        && (is_in ep.start ep.end firing && is_in s.win_start s.win_end firing)
      then record { firing = firing; rule_id = id; date = d; time = time; status = status } ∷ []
      else []

  unfoldable pub of_times : Scenario → Epoch → ℕ → Times → List Candidate
  of_times s ep d [] = []
  of_times s ep d ((id, time) ∷ rest) = candidate s ep d id time ++ of_times s ep d rest

  -- `while d <= hi`: the dates from `d`, of which `left` remain.
  unfoldable pub of_dates : Scenario → Epoch → ℕ → ℕ → List Candidate
  of_dates s ep d zero = []
  of_dates s ep d (suc left) = of_times s ep d ep.times ++ of_dates s ep (suc d) left

  unfoldable pub of_epochs : Scenario → List Epoch → List Candidate
  of_epochs s [] = []
  of_epochs s (ep ∷ rest) =
      let lo = zones.local_date ep.timezone s.win_start - 2 in
      let hi = zones.local_date ep.timezone s.win_end + 2 in
      of_dates s ep lo (hi + 1 - lo) ++ of_epochs s rest

-- The order of the tuples (firing, rule id, date); dates of one width are ordered as their texts.
abbrev pub text_before : String → String → Bool → Bool
text_before a b tie = elim (compare a b) [
  | Ordering.lt ↦ true
  | Ordering.eq ↦ tie
  | Ordering.gt ↦ false
]

abbrev pub candidate_before : Candidate → Candidate → Bool
candidate_before a b =
    ltb a.firing b.firing
    || (a.firing == b.firing && text_before a.rule_id b.rule_id (leb a.date b.date))

-- The sets of keys and the output, newest first, as the loop builds them; no two candidates of the
-- output have the same place in the order.
pub record Seen : Type 0 where
  pub scheduled_keys : List (String × ℕ)
  pub skip_keys : List (String × ℕ)
  pub out : List Candidate

abbrev pub is_key : String → ℕ → String × ℕ → Bool
is_key id d (k, e) = str_eq k id && e == d

abbrev pub has_key : String → ℕ → List (String × ℕ) → Bool
has_key id d keys = any (is_key id d) keys

abbrev pub add_status : OccurrenceStatus → Candidate → Seen → Seen
add_status skipped_dst c seen =
    if has_key c.rule_id c.date seen.skip_keys
    then seen
    else record seen { skip_keys = (c.rule_id, c.date) ∷ seen.skip_keys; out = c ∷ seen.out }
add_status scheduled c seen = record seen {
  scheduled_keys = (c.rule_id, c.date) ∷ seen.scheduled_keys;
  out = c ∷ seen.out;
}

-- One turn of the loop over the candidates.
unfoldable pub add_candidate : Candidate → Seen → Seen
add_candidate c seen =
    if has_key c.rule_id c.date seen.scheduled_keys then seen else add_status c.status c seen

unfoldable pub add_all : List Candidate → Seen → Seen
add_all [] seen = seen
add_all (c ∷ rest) seen = add_all rest (add_candidate c seen)

abbrev pub unseen : Seen
unseen = record { scheduled_keys = []; skip_keys = []; out = [] }

-- First writer wins: the sorted candidates, their keys taken once, sorted again.
unfoldable pub first_writers : List Candidate → List Candidate
first_writers cs = sort candidate_before (add_all (sort candidate_before cs) unseen).out

pub record Occurrence : Type 0 where
  pub rule_id : String
  pub local_date : ℕ
  pub local_time : ℕ
  pub instant : Option ℕ
  pub status : OccurrenceStatus

abbrev pub instant_of : OccurrenceStatus → ℕ → Option ℕ
instant_of scheduled firing = some firing
instant_of skipped_dst firing = none

abbrev pub occurrence : Candidate → Occurrence
occurrence c = record {
  rule_id = c.rule_id;
  local_date = c.date;
  local_time = c.time;
  instant = instant_of c.status c.firing;
  status = c.status;
}

module _ (zones : Zones) where
  unfoldable pub candidates_of : Scenario → List Candidate
  candidates_of s = of_epochs zones s (epochs_from 0 s.timezone (times_of s.rules []) s.edits)

  unfoldable pub evaluate : Scenario → List Occurrence
  unfolding candidates_of
  evaluate s = map occurrence (first_writers (candidates_of s))
