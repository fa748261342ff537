-- ===== src/Serving/Wire/Refusals.antt =====
-- serving/wire/session.py, `refusal`: whether a request is let in.
use microtensor_subnet.Base.{
  ℕ, zero, suc, Result, ok, raised, true, false, String, Bool, Option, none, some, ltb, eqb, not,
  ◌&&◌, ◌==◌, contains, if◌then◌else◌,
}
use microtensor_subnet.Serving.Wire.Offered.{
  Served, Settings, of_gpu, model_kind, SessionError, bad_deadline,
}
use microtensor_subnet.Base.Int.{ℤ, pos, negsuc}
use microtensor_subnet.Serving.Wire.Capacity.{Capacity, free}

-- What `float(frame.get("deadline") or 0.0)` comes to: none is given, an instant in ticks of the clock, a
-- value that no instant passes (`nan` and the positive infinity), or an exception.
pub data Deadline : Type 0 where
  not_given : Deadline
  due : ℤ → Deadline
  never_due unreadable : Deadline

-- A `request` frame. Without an instance its instance is the empty text; `chat` says whether the kind of
-- the request is "chat".
pub record Request : Type 0 where
  pub id : String
  pub model : String
  pub instance : String
  pub deadline : Deadline
  pub chat : Bool

-- deadline and deadline < now
unfoldable pub is_past : Deadline → ℕ → Result SessionError Bool
is_past not_given now = ok false
is_past (due (pos zero)) now = ok false
is_past (due (pos (suc n))) now = ok (ltb (suc n) now)
is_past (due (negsuc n)) now = ok true
is_past never_due now = ok false
is_past unreadable now = raised bad_deadline

pub data Refusal : Type 0 where
  not_served deadline_passed draining not_for_chat no_chat_handler chat_only at_concurrency :
      Refusal

-- the reasons after the deadline was read
abbrev pub refusal_after : Served → Capacity → Request → Bool → String → Bool → Option Refusal
refusal_after served c request has_chat gpu past =
    if past
    then some deadline_passed
    else if contains gpu c.draining
    then some draining
    else if request.chat && not (served.kind == model_kind)
    then some not_for_chat
    else if request.chat && not has_chat
    then some no_chat_handler
    else if not request.chat && served.kind == model_kind
    then some chat_only
    else if eqb (free gpu c) 0
    then some at_concurrency
    else none

abbrev pub refusal_read :
    Served
    → Capacity
    → Request
    → Bool
    → String
    → Result SessionError Bool
    → Result SessionError (Option Refusal)
refusal_read served c request has_chat gpu (raised e) = raised e
refusal_read served c request has_chat gpu (ok past) =
    ok (refusal_after served c request has_chat gpu past)

abbrev pub refusal_of :
    Served → Capacity → Request → Bool → String → ℕ → Result SessionError (Option Refusal)
refusal_of served c request has_chat gpu now =
    if not (served.model == request.model)
    then ok (some not_served)
    else refusal_read served c request has_chat gpu (is_past request.deadline now)

-- The reasons of `refusal` in order; `none` is the empty text.
unfoldable pub refusal :
    Settings → Capacity → Request → Bool → String → ℕ → Result SessionError (Option Refusal)
unfolding is_past
refusal settings c request has_chat gpu now = elim (of_gpu gpu settings.serves) [
  | none ↦ ok (some not_served)
  | some served ↦ refusal_of served c request has_chat gpu now
]
