-- ===== src/Serving/Host.antt =====
-- serving/host/__init__.py, `ServingHost`: what is held on the gpus of a host, how a gpu is released and
-- taken up, and `apply`, which carries out a plan. Closing a container changes no state that is read
-- here, and a failure of it is only logged.
pub mod Views
pub mod Turns
pub mod Steps
pub mod Applied
pub mod Reviewed
pub mod Settles
pub mod Tests
use Prim.Native.String.{len, slice}
use text.Mathlib.Text.{starts_with}
use microtensor_subnet.Base.{
  String, Bool, true, false, not, List, [], ◌∷◌, Option, none, some, ◌==◌, contains, if◌then◌else◌,
  ◌&&◌,
}
use microtensor_subnet.Base.Dict.{Dict, get, put, pop, has, keys}
use microtensor_subnet.Base.Floats.{Floats}
use microtensor_subnet.Serving.Plan.{Offer, Capacity, Policy, Plan, Holding}
use microtensor_subnet.Serving.Plan.Assign.{Held}
use microtensor_subnet.Serving.Plan.Build.{is_pair, build, wanted_of}

-- What `take_up` reads of the catalogue's entry of a model: whether it is a model of the general kind,
-- and whether it has a certified image.
pub record Entry : Type 0 where
  pub general : Bool
  pub imaged : Bool

-- The dicts of a host, each by gpu: what runs in a sandbox, behind a plain engine, and in an image.
pub record Host : Type 0 where
  pub held : Held
  pub plain : Held
  pub images_held : Held
  pub phases_by : Dict String
  pub entries : Dict Entry
  pub devices : List String
  pub shims : List String
  pub accept_licences : Bool

-- What the work outside of the host gives, where `false` and `none` are an exception of SERVE_FAILURES:
-- a shim that gets ready and serves the model, a sandbox that opens, and the model and the digest
-- that were fetched and opened, or that an image was opened for. No other exception of this work is
-- modelled. `declares` tells whether the gateway takes the declaration of a holding, or none is made;
-- where it does not, `declare` raises a ServerError, which is not of SERVE_FAILURES.
pub record Workshop : Type 0 where
  pub shim_ready : Holding → Bool
  pub system_opens : Holding → Bool
  pub model_opens : Holding → Option (String × String)
  pub image_opens : Holding → Option (String × String)
  pub declares : Holding → Bool
  -- `str.lower`
  pub lower : String → String

-- `holding`; an entry of the later dicts stands for one of the earlier.
abbrev pub update : Held → Held → Held
update d [] = d
update d ((gpu, pair) ∷ more) = update (put gpu pair d) more

unfoldable pub holding : Host → Held
unfolding put
holding h = update (update (update [] h.held) h.plain) h.images_held

-- `release`
unfoldable pub release : String → Host → Host
unfolding has pop
release gpu h =
    let idle : Host = record h { phases_by = pop gpu h.phases_by } in
    if has gpu h.images_held
    then record idle { images_held = pop gpu h.images_held }
    else (if has gpu h.plain
        then record idle { plain = pop gpu h.plain }
        else record idle { held = pop gpu h.held })

-- `plan_now`, for offers that were read, where `c` says what the gpus of the host can do
unfoldable pub plan_now :
    {F : Type 0}
    → Floats F
    → Workshop
    → List (Offer F)
    → Capacity F
    → Policy
    → Option (Dict String)
    → Dict String
    → Host
    → Plan F
plan_now f w rows c p pinned preferred s =
    build f w.lower rows (record c { gpus = s.devices }) (holding s)
      (record p { accept_licences = s.accept_licences }) pinned preferred

-- What taking up comes to: `rejected` is an exception of `take_up` before the phase of the gpu is set,
-- and `failed` one after it.
pub data Taken : Type 0 where
  in_image : String × String → Taken
  in_plain : String × String → Taken
  in_sandbox : String × String → Taken
  rejected failed : Taken

-- removeprefix(DIGEST_PREFIX)
unfoldable pub bare_digest : String → String
bare_digest digest =
    if starts_with digest "sha256:" then slice digest (len "sha256:") (len digest) else digest

abbrev pub taken_shim : Workshop → Holding → Taken
taken_shim w h = if w.shim_ready h then in_image (h.model, h.artifact_digest) else failed

abbrev pub taken_system : Workshop → Holding → Taken
taken_system w h = if w.system_opens h then in_sandbox (h.model, h.artifact_digest) else failed

abbrev pub checked_image : Workshop → Holding → Option (String × String) → Taken
checked_image w h none = failed
checked_image w h (some (model, digest)) =
    if w.lower digest == w.lower h.artifact_digest then in_image (model, digest) else failed

abbrev pub checked_model : Workshop → Holding → Option (String × String) → Taken
checked_model w h none = failed
checked_model w h (some (model, digest)) =
    if digest == bare_digest (w.lower h.artifact_digest) then in_plain (model, digest) else failed

abbrev pub taken_model : Workshop → Bool → Holding → Taken
taken_model w accepted h = if accepted then checked_model w h (w.model_opens h) else failed

-- the checks and the dispatch of `take_up`
abbrev pub taken_for : Workshop → Host → Holding → Option Entry → Taken
taken_for w s h none = rejected
taken_for w s h (some entry) =
    if not (contains h.gpu s.devices)
    then rejected
    else (if contains h.gpu s.shims
        then taken_shim w h
        else (if entry.general
            then taken_model w s.accept_licences h
            else (if entry.imaged then checked_image w h (w.image_opens h) else taken_system w h)))

unfoldable pub taken : Workshop → Host → Holding → Taken
unfolding get bare_digest
taken w s h = taken_for w s h (get h.model s.entries)

-- What is then held; the phase of the gpu is popped in the end. Whether `declare` raises after that is told by
-- `raises`.
unfoldable pub settled : String → Taken → Host → Host
unfolding put pop
settled gpu (in_image pair) s = record s {
  images_held = put gpu pair s.images_held;
  phases_by = pop gpu s.phases_by;
}
settled gpu (in_plain pair) s = record s {
  plain = put gpu pair s.plain;
  phases_by = pop gpu s.phases_by;
}
settled gpu (in_sandbox pair) s = record s {
  held = put gpu pair s.held;
  phases_by = pop gpu s.phases_by;
}
settled gpu rejected s = s
settled gpu failed s = record s { phases_by = pop gpu s.phases_by }

-- `take_up`
unfoldable pub take_up : Workshop → Holding → Host → Host
take_up w h s = settled h.gpu (taken w s h) s

-- the loop over the gpus that are dropped
unfoldable pub release_all : List String → Host → Host
release_all [] s = s
release_all (gpu ∷ gpus) s = release_all gpus (release gpu s)

-- `if holding.gpu in self.holding(): self.release(holding.gpu)`
unfoldable pub cleared : String → Host → Host
cleared gpu s = if has gpu (holding s) then release gpu s else s

-- one turn of the loop over what is to be held
unfoldable pub hold_one : Workshop → Holding → Host → Host
hold_one w h s =
    if is_pair (get h.gpu (holding s)) (h.model, h.artifact_digest)
    then s
    else take_up w h (cleared h.gpu s)

abbrev pub is_taken : Taken → Bool
is_taken (in_image pair) = true
is_taken (in_plain pair) = true
is_taken (in_sandbox pair) = true
is_taken rejected = false
is_taken failed = false

-- whether `declare` raises in that turn, which is after the holding is stored
unfoldable pub raises : Workshop → Holding → Host → Bool
raises w h s =
    not (is_pair (get h.gpu (holding s)) (h.model, h.artifact_digest))
    && is_taken (taken w (cleared h.gpu s) h)
    && not (w.declares h)

-- What becomes of the host: it ran through, or a ServerError ended the call in this state.
pub data Ran : Type 0 where
  done ended : Host → Ran

unfoldable pub hold_all : Workshop → List Holding → Host → Ran
unfolding hold_one raises
hold_all w [] s = done s
hold_all w (h ∷ hold) s =
    let rest = hold_all w hold (hold_one w h s) in
    if raises w h s then ended (hold_one w h s) else rest

-- the last loop: what is held and not wanted
unfoldable pub release_unwanted : Held → List String → Host → Host
release_unwanted wanted [] s = s
release_unwanted wanted (gpu ∷ gpus) s =
    release_unwanted wanted gpus (if has gpu wanted then s else release gpu s)

abbrev pub then_release : List Holding → Ran → Ran
then_release hold (ended s) = ended s
then_release hold (done kept) = done (release_unwanted (wanted_of hold) (keys (holding kept)) kept)

-- `apply`, for the gpus that a plan drops and the holdings that it has
unfoldable pub apply : Workshop → List String → List Holding → Host → Ran
apply w drop hold s = then_release hold (hold_all w hold (release_all drop s))
