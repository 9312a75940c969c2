-- ===== src/Messages.antt =====
-- `safe_send_message` of crates/har-dag-executor/src/executor_shared.rs. What the platform answers is
-- the argument `answer`; a caller that sends several messages with one tracker, as far as it is
-- not refused, is `refused`.
pub mod Streaks
use harness_agent_rs.Prelude.{
  ℕ, ◌+◌, ◌%◌, ◌^◌, Bool, true, false, Option, none, some, List, [], ◌∷◌, Text, leb, if◌then◌else◌,
  Result, ok, err,
}
use harness_agent_rs.Errors.{ErrorType, classify_error}

-- What the platform's `send_message` returns.
pub data Answer : Type 0 where
  delivered : Answer
  undelivered : Text → Answer

abbrev pub unknown_error_threshold : ℕ
unknown_error_threshold = 3

pub record UnknownErrorTracker : Type 0 where
  pub count : ℕ

pub data SafeSendError : Type 0 where
  fatal : Text → SafeSendError
  unknown_threshold : ℕ → Text → SafeSendError

-- The result of the call, and the tracker after it.
abbrev pub Sent : Type 0
Sent = Result SafeSendError Bool × Option UnknownErrorTracker

abbrev reset : Option UnknownErrorTracker → Option UnknownErrorTracker
reset none = none
reset (some t) = some (record { count = 0 })

-- An unknown error; the counter is a `u32`.
unfoldable pub track : Text → Option UnknownErrorTracker → Sent
track e none = (ok false, none)
track e (some t) =
    let n = (t.count + 1) % 2 ^ 32 in
    if leb unknown_error_threshold n
    then (err (unknown_threshold unknown_error_threshold e), some (record { count = n }))
    else (ok false, some (record { count = n }))

module _ (to_lowercase : Text → Text) where
  unfoldable pub safe_send_message : Answer → Option UnknownErrorTracker → Sent
  unfolding classify_error track
  safe_send_message delivered tracker = (ok true, reset tracker)
  safe_send_message (undelivered e) tracker = elim (classify_error to_lowercase e) [
    | ErrorType.fatal ↦ (err (SafeSendError.fatal e), reset tracker)
    | ErrorType.transient ↦ (ok false, reset tracker)
    | ErrorType.unknown ↦ track e tracker
  ]

  -- Whether the sender is refused at some message.
  unfoldable pub refused : List Answer → Option UnknownErrorTracker → Bool
  unfolding safe_send_message
  refused [] tracker = false
  refused (a ∷ answers) tracker =
      let rest = refused answers (safe_send_message a tracker).1 in
      elim (safe_send_message a tracker).0 [ err e ↦ true | ok b ↦ rest ]
