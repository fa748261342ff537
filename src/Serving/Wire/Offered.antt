-- ===== src/Serving/Wire/Offered.antt =====
-- serving/wire/session.py, `Served` and `Settings`: what an operator offers on which gpu. Of the
-- settings, the fields that decide something are kept; a gpu is given by its id.
pub mod Declared
use microtensor_subnet.Base.{
  ℕ, String, Bool, true, false, List, [], ◌∷◌, Option, none, some, Result, ok, raised, ◌>>=◌, ◌>>◌,
  raise_if, ltb, eqb, not, ◌&&◌, ◌||◌, ◌==◌, map, keep, any, contains, length, if◌then◌else◌,
  add_to_set,
}
use microtensor_subnet.Serving.Pools.Dials.{is_empty}

-- What a session or its settings raise: SessionError, `bad_frame` for an exception of `protocol.decode`, such as
-- WireError, and `bad_deadline` for what `float` raises of a deadline.
pub data SessionError : Type 0 where
  unpinned no_gpu_named too_little_concurrency bad_kind no_gateway no_hotkey nothing_announced
        gpu_twice not_announced past_concurrency no_such_gpu bad_frame bad_deadline :
      SessionError

abbrev pub model_kind : String
model_kind = "model"

abbrev pub system_kind : String
system_kind = "system"

-- A concurrency below zero would be refused as zero is.
pub record Served : Type 0 where
  pub model : String
  pub artifact_digest : String
  pub gpu : String
  pub concurrency : ℕ
  pub kind : String

-- `Served.__post_init__`
unfoldable pub checked_served : Served → Result SessionError Served
checked_served s = do
  raise_if (s.model == "" || s.artifact_digest == "") unpinned
  raise_if (s.gpu == "") no_gpu_named
  raise_if (ltb s.concurrency 1) too_little_concurrency
  raise_if (not (s.kind == system_kind || s.kind == model_kind)) bad_kind
  ok s

pub record Settings : Type 0 where
  pub gateway : String
  pub hotkey : String
  pub serves : List Served
  pub gpus : List String

-- set(texts), in the order of first occurrence
unfoldable pub distinct_of : List String → List String → List String
distinct_of seen [] = seen
distinct_of seen (x ∷ xs) = distinct_of (add_to_set x seen) xs

-- `Settings.__post_init__`
unfoldable pub checked_settings : Settings → Result SessionError Settings
unfolding distinct_of
checked_settings s =
    let held = map (λ x. x.gpu) s.serves in
    do
      raise_if (s.gateway == "") no_gateway
      raise_if (s.hotkey == "") no_hotkey
      raise_if (is_empty s.serves && is_empty s.gpus) nothing_announced
      raise_if (not (eqb (length (distinct_of [] held)) (length held))) gpu_twice
      raise_if (not (is_empty s.gpus) && any (λ gpu. not (contains gpu s.gpus)) held) not_announced
      ok s

-- next((s for s in self.serves if s.gpu == gpu), None)
unfoldable pub of_gpu : String → List Served → Option Served
of_gpu gpu [] = none
of_gpu gpu (s ∷ rest) = if s.gpu == gpu then some s else of_gpu gpu rest

unfoldable pub announced : Settings → List String
announced s = if is_empty s.gpus then map (λ x. x.gpu) s.serves else s.gpus
