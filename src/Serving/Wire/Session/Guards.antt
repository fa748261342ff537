-- ===== src/Serving/Wire/Session/Guards.antt =====
-- What `refusal` guards: a request that is let in takes a place that is free.
use microtensor_subnet.Base.Int.{pos, negsuc}
use microtensor_subnet.Base.{
  ℕ, zero, suc, ◌≢◌, Result, raised, Bool-cases, ok-injective, ◌<◌, ◌≡◌, refl, String, Bool, true,
  false, [], ◌∷◌, ◌++◌, Option, none, some, ok, inl, inr, arith, Option-cases, contains, ◌==◌,
}
use microtensor_subnet.Serving.Wire.Offered.{Settings, Served, of_gpu, SessionError}
use microtensor_subnet.Serving.Wire.Capacity.{Capacity, take, free}
use microtensor_subnet.Serving.Wire.Capacity.Slots.{take-free}
use microtensor_subnet.Serving.Wire.Session.{State, routed, handle_request, start}
use microtensor_subnet.Serving.Wire.Refusals.{
  Request, Refusal, not_served, Deadline, not_given, due, never_due, unreadable, is_past, refusal,
  refusal_of, refusal_after, refusal_read,
}
use microtensor_subnet.Serving.Wire.Reports.{refused}

-- What a request may find: it is refused, or it takes a place on the gpu it was routed to.
pub data Handled (settings : Settings) (has_chat : Bool) (now : ℕ) (r : Request) (s t : State)
    : Type 0 where
  turned_away :
      (reason : Refusal)
      → refusal settings s.capacity r has_chat (routed s r) now ≡ ok (some reason)
      → t ≡ record s { sent = s.sent ++ refused r.id reason ∷ [] }
      → Handled settings has_chat now r s t
  let_in :
      (taken : Capacity)
      → refusal settings s.capacity r has_chat (routed s r) now ≡ ok none
      → take (routed s r) s.capacity ≡ ok taken
      → t ≡ start s r.id (routed s r) taken
      → Handled settings has_chat now r s t

refusal_of-none :
    (served : Served) (c : Capacity) (r : Request) (has_chat : Bool) (gpu : String) (now : ℕ)
    → refusal_of served c r has_chat gpu now ≡ ok none
    → ((served.model == r.model) ≡ true) × (contains gpu c.draining ≡ false) × (0 < free gpu c)
refusal_of-none served c r has_chat gpu now h = elim (Bool-cases (served.model == r.model)) [
  | inr e ↦ absurd (ground (arith, e))
  | inl e ↦ by_deadline e (is_past r.deadline now) (rw e at h)
]
  where
    open_after :
        (past : Bool)
        → refusal_after served c r has_chat gpu past ≡ none
        → (contains gpu c.draining ≡ false) × (0 < free gpu c)
    open_after past k = (ground arith, ground arith)

    by_deadline :
        (served.model == r.model) ≡ true
        → (past : Result SessionError Bool) → refusal_read served c r has_chat gpu past ≡ ok none
        → ((served.model == r.model) ≡ true) × (contains gpu c.draining ≡ false) × (0 < free gpu c)
    by_deadline e (raised x) k = absurd (cc)
    by_deadline e (ok past) k =
        let (stays, room) = open_after past (ok-injective k) in (e, stays, room)

-- Whoever is let in is served by the gpu under that model, which does not drain and has room.
pub refusal-none :
    (settings : Settings) (c : Capacity) (r : Request) (has_chat : Bool) (gpu : String) (now : ℕ)
    → refusal settings c r has_chat gpu now ≡ ok none
    → (served : Served) × (of_gpu gpu settings.serves ≡ some served)
      × ((served.model == r.model) ≡ true)
      × (contains gpu c.draining ≡ false)
      × (0 < free gpu c)
unfolding refusal
refusal-none settings c r has_chat gpu now h = elim (Option-cases (of_gpu gpu settings.serves)) [
  | inl e ↦ absurd (ground (arith, e))
  | inr (served, e) ↦
      let (a, b, d) = refusal_of-none served c r has_chat gpu now (ground (arith, e)) in
      (served, e, a, b, d)
]

pub handle_request-Handled :
    (settings : Settings) (has_chat : Bool) (now : ℕ) (r : Request) (s : State) {t : State}
    → handle_request settings has_chat now r s ≡ ok t
    → Handled settings has_chat now r s t
unfolding handle_request
handle_request-Handled settings has_chat now r s {t} h =
    by_refusal (refusal settings s.capacity r has_chat (routed s r) now) refl
  where
    by_refusal :
        (o : Result SessionError (Option Refusal))
        → refusal settings s.capacity r has_chat (routed s r) now ≡ o
        → Handled settings has_chat now r s t
    by_refusal (raised x) e = absurd (ground (arith, e))
    by_refusal (ok (some reason)) e = turned_away reason e (ground (arith, e))
    by_refusal (ok none) e =
        let (_, _, _, _, room) = refusal-none settings s.capacity r has_chat (routed s r) now e in
        let (taken, took) = take-free (routed s r) s.capacity room in
        let_in taken e took (ground (arith, e, took))

-- `float` reads the deadline of a request.
abbrev pub CanRead : Deadline → Type 0
CanRead d = d ≢ unreadable

is_past_total : (d : Deadline) (now : ℕ) → CanRead d → (past : Bool) × (is_past d now ≡ ok past)
unfolding is_past
is_past_total not_given now h = (_, refl)
is_past_total (due (pos zero)) now h = (_, refl)
is_past_total (due (pos (suc n))) now h = (_, refl)
is_past_total (due (negsuc n)) now h = (_, refl)
is_past_total never_due now h = (_, refl)
is_past_total unreadable now h = absurd (h refl)

refusal_of_total :
    (served : Served) (c : Capacity) (r : Request) (has_chat : Bool) (gpu : String) (now : ℕ)
    → CanRead r.deadline
    → (o : Option Refusal) × (refusal_of served c r has_chat gpu now ≡ ok o)
refusal_of_total served c r has_chat gpu now h = elim (Bool-cases (served.model == r.model)) [
  | inr e ↦ (some not_served, rw e refl)
  | inl e ↦
      let (past, read) = is_past_total r.deadline now h in
      (refusal_after served c r has_chat gpu past, rw (e, read) refl)
]

refusal_total :
    (settings : Settings) (c : Capacity) (r : Request) (has_chat : Bool) (gpu : String) (now : ℕ)
    → CanRead r.deadline
    → (o : Option Refusal) × (refusal settings c r has_chat gpu now ≡ ok o)
unfolding refusal
refusal_total settings c r has_chat gpu now h = elim (Option-cases (of_gpu gpu settings.serves)) [
  | inl e ↦ (some not_served, rw (refusal, e) refl)
  | inr (served, e) ↦
      let (o, read) = refusal_of_total served c r has_chat gpu now h in (o, rw (refusal, e) read)
]

-- A request whose deadline can be read never fails: it is refused with a reason, or it is let in.
pub handle_request_total :
    (settings : Settings) (has_chat : Bool) (now : ℕ) (r : Request) (s : State)
    → CanRead r.deadline
    → (t : State) × (handle_request settings has_chat now r s ≡ ok t)
unfolding handle_request
handle_request_total settings has_chat now r s read =
    let (o, e) = refusal_total settings s.capacity r has_chat (routed s r) now read in
    by_refusal o e
  where
    by_refusal :
        (o : Option Refusal)
        → refusal settings s.capacity r has_chat (routed s r) now ≡ ok o
        → (t : State) × (handle_request settings has_chat now r s ≡ ok t)
    by_refusal (some reason) e =
        (record s { sent = s.sent ++ refused r.id reason ∷ [] }, ground (arith, e))
    by_refusal none e =
        let (_, _, _, _, room) = refusal-none settings s.capacity r has_chat (routed s r) now e in
        let (taken, took) = take-free (routed s r) s.capacity room in
        (start s r.id (routed s r) taken, ground (arith, e, took))
