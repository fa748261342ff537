-- ===== src/Serving/Wire/Reports.antt =====
-- serving/wire/session.py: the frames that an operator sends, `_report` and the frames that tell the
-- gateway what is ready. The figures of the gpus are left out of a report.
use microtensor_subnet.Base.{
  ℕ, String, List, [], ◌∷◌, Option, none, some, ◌||◌, ◌==◌, contains, if◌then◌else◌,
}
use microtensor_subnet.Base.Dict.{Dict, get, has}
use microtensor_subnet.Serving.Wire.Offered.{Served}
use microtensor_subnet.Serving.Wire.Capacity.{Capacity, in_flight}
use microtensor_subnet.Serving.Wire.Link.{Link, label_of}
use microtensor_subnet.Serving.Wire.Refusals.{Refusal}

pub record Instance : Type 0 where
  pub label : String
  pub phase : String
  pub requests : ℕ

pub data Frame : Type 0 where
  ready : String → Served → Frame
  heartbeat : List Instance → Frame
  refused : String → Refusal → Frame
  finished : String → Frame
  failed : String → Frame
  drain_all : Frame
  drained : String → Frame

-- The phase in a report: of a gpu that serves, or of one that is being set up.
abbrev pub phase_of : String → Dict String → Capacity → Option String
phase_of gpu phases c =
    if has gpu c.limits
    then some (if contains gpu c.draining then "draining" else "ready")
    else elim (get gpu phases) [
      | none ↦ none
      | some phase ↦ if phase == "pulling" || phase == "loading" then some phase else none
    ]

abbrev pub reported : String → String → ℕ → Option String → List Instance → List Instance
reported gpu label requests none rest = rest
reported gpu label requests (some phase) rest =
    if label == ""
    then rest
    else record { label = label; phase = phase; requests = requests } ∷ rest

-- `_report`
unfoldable pub report : List String → Dict String → Capacity → Link → List Instance
report [] phases c link = []
report (gpu ∷ rest) phases c link =
    reported gpu (label_of gpu link) (in_flight gpu c) (phase_of gpu phases c)
      (report rest phases c link)

-- `ready` for each served model whose gpu has a label
unfoldable pub ready_frames : List Served → Link → List Frame
ready_frames [] link = []
ready_frames (s ∷ rest) link =
    let others = ready_frames rest link in
    let label = label_of s.gpu link in if label == "" then others else ready label s ∷ others
