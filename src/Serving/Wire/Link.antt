-- ===== src/Serving/Wire/Link.antt =====
-- serving/wire/session.py, `Link` and `backoff`: the labels that the gateway gave to the gpus. An
-- entry of a list that is no mapping is `none`; a missing field is the empty text.
pub mod Backoff
use microtensor_subnet.Base.{
  ℕ, zero, suc, ◌-◌, ◌*◌, min, String, Bool, true, false, List, [], ◌∷◌, Option, none, some, ◌||◌,
  ◌==◌, if◌then◌else◌, eqb, arith,
}
use microtensor_subnet.Base.Dict.{Dict, get_or, put}

pub record Link : Type 0 where
  pub labels : Dict String
  pub ids : Dict String
  pub statuses : Dict String
  pub welcomed : Bool

abbrev pub new_link : Link
new_link = record { labels = []; ids = []; statuses = []; welcomed = false }

pub record Entry : Type 0 where
  pub label : String
  pub id : String
  pub status : String

abbrev pub learn_one : Link → Option Entry → Link
learn_one link none = link
learn_one link (some e) = if e.label == "" || e.id == "" then link else record {
  labels = put e.label e.id link.labels;
  ids = put e.id e.label link.ids;
  statuses = if e.status == "" then link.statuses else put e.label e.status link.statuses;
  welcomed = link.welcomed;
}

-- `Link.learn`; what is not a list has no entries.
unfoldable pub learn : Link → List (Option Entry) → Link
learn link [] = link
learn link (e ∷ rest) = learn (learn_one link e) rest

-- `Link.gpu`
unfoldable pub gpu_of : String → Link → String
gpu_of label link = get_or label label link.labels

-- `Link.label`
unfoldable pub label_of : String → Link → String
label_of gpu link = get_or gpu "" link.ids

pub record Assignment : Type 0 where
  pub gpu : String
  pub label : String
  pub model : String
  pub artifact_digest : String

pub record Wanted : Type 0 where
  pub gpu : String
  pub model : String
  pub artifact_digest : String

abbrev pub assigned_one : Link → Option Wanted → List Assignment → List Assignment
assigned_one link none rest = rest
assigned_one link (some w) rest =
    if w.model == ""
    then rest
    else record {
      gpu = gpu_of w.gpu link;
      label = w.gpu;
      model = w.model;
      artifact_digest = w.artifact_digest;
    }
      ∷ rest

-- `Link.assigned`
unfoldable pub assigned : Link → List (Option Wanted) → List Assignment
unfolding gpu_of
assigned link [] = []
assigned link (w ∷ rest) = assigned_one link w (assigned link rest)

abbrev pub power_of_two : ℕ → ℕ
power_of_two zero = 1
power_of_two (suc n) = 2 * power_of_two n

-- `backoff`, on whole numbers: a power of two up to 2 ^ 16 is exact in floating point.
unfoldable pub backoff : ℕ → ℕ → ℕ
backoff attempt ceiling =
    if eqb attempt 0 then 0 else min ceiling (power_of_two (min (attempt - 1) 16))
