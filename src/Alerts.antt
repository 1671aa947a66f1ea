-- ===== src/Alerts.antt =====
-- The webhook alerter: internal/alert/alert.go. The dispatch to the webhook is kept in the state, its
-- HTTP call is left out; so are log messages and times.
pub mod Dedup
use Prim.Native.String.{String, ◌++◌}
use package.text.Mathlib.Text.{◌==◌}
use g_sandbox.Base.{
  ℕ, Bool, true, false, ◌&&◌, ◌||◌, not, Option, none, some, List, [], ◌∷◌, take, leb,
  if◌then◌else◌,
}

-- A value among the details: a text, one that prints itself, or any other.
pub data Detail : Type 0 where
  text : String → Detail
  stringer : String → Detail
  other_value : Detail

-- A call of `Notify`, with its kind's text and the details that can identify a subject.
pub record Notice : Type 0 where
  pub kind : String
  pub severity : String
  pub message : String
  pub user : Option Detail
  pub provider : Option Detail
  pub sandbox : Option Detail

-- `HistoryMaxLen`
abbrev pub history_max_len : ℕ
history_max_len = 100

-- `Webhook`, as far as it decides.
pub record Webhook : Type 0 where
  pub has_url : Bool
  pub dedups : Bool  -- the window is positive
  pub lower : String → String  -- strings.ToLower

-- The Redis keys of the window, the history with the newest first, and what was dispatched.
pub record AlertState : Type 0 where
  pub claimed : List String
  pub history : List Notice
  pub sent : List Notice

-- Whether Redis answers the two commands of a call.
pub record Answers : Type 0 where
  pub set_nx : Bool
  pub persists : Bool

-- One key of `subject`.
unfoldable pub subject_part : Webhook → Option Detail → String
subject_part w none = ""
subject_part w (some (text s)) = if s == "" then "" else ":" ++ w.lower s
subject_part w (some (stringer s)) = if s == "" then "" else ":" ++ w.lower s
subject_part w (some other_value) = ""

-- `subject`
unfoldable pub subject : Webhook → Notice → String
subject w n = subject_part w n.user ++ subject_part w n.provider ++ subject_part w n.sandbox

unfoldable pub dedup_key : Webhook → Notice → String
dedup_key w n = "alert:dedup:" ++ n.kind ++ subject w n

abbrev pub has_text : String → List String → Bool
has_text k [] = false
has_text k (j ∷ js) = j == k || has_text k js

-- `claimDedup`: on an error of Redis the alert goes out.
unfoldable pub claim_dedup : Webhook → Bool → Notice → AlertState → Bool × AlertState
claim_dedup w set_nx n s =
    if not set_nx
    then (true, s)
    else if has_text (dedup_key w n) s.claimed
    then (false, s)
    else (true, record s { claimed = dedup_key w n ∷ s.claimed })

-- `persist`
unfoldable pub persist : Bool → Notice → AlertState → AlertState
persist false n s = s
persist true n s = record s { history = take history_max_len (n ∷ s.history) }

unfoldable pub dispatch : Webhook → Notice → AlertState → AlertState
dispatch w n s = if w.has_url then record s { sent = n ∷ s.sent } else s

-- `Notify`
unfoldable pub notify : Webhook → Answers → Notice → AlertState → AlertState
notify w a n s =
    let (goes, s') = claim_dedup w a.set_nx n s in
    if not w.dedups
    then dispatch w n (persist a.persists n s)
    else if goes
    then dispatch w n (persist a.persists n s')
    else s'

-- A run of calls while Redis answers, the first one first.
unfoldable pub notify_all : Webhook → List Notice → AlertState → AlertState
notify_all w [] s = s
notify_all w (n ∷ ns) s = notify_all w ns (notify w (record { set_nx = true; persists = true }) n s)

-- `History`; 0 stands for any n that is not positive.
unfoldable pub history : ℕ → AlertState → List Notice
history n s = if leb n 0 then take history_max_len s.history else take n s.history
