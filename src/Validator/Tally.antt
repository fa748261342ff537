-- ===== src/Validator/Tally.antt =====
-- validator/progress.py, `Tally`: progress in steps, shown only when it changes. A negative total
-- would be shown as 0; the value -1 of `shown` is `none`. The calls of `progress` are kept, the
-- latest first; a detail is the text of a mapping.
pub mod Shown
use microtensor_subnet.Base.{
  ℕ, zero, suc, ◌+◌, ◌*◌, ◌/◌, String, Bool, true, false, List, [], ◌∷◌, Option, none, some, leb,
  eqb, if◌then◌else◌,
}

pub record Call : Type 0 where
  pub shown : ℕ
  pub total : ℕ
  pub detail : Option String

pub record Tally : Type 0 where
  pub listening : Bool
  pub total : ℕ
  pub steps : ℕ
  pub done : ℕ
  pub shown : Option ℕ
  pub detail : Option String
  pub calls : List Call

-- total if self.done >= self.steps else self.done * total // self.steps
unfoldable pub level_of : Tally → ℕ
level_of t = if leb t.steps t.done then t.total else t.done * t.total / t.steps

abbrev pub is_shown : Option ℕ → ℕ → Bool
is_shown none n = false
is_shown (some m) n = eqb m n

-- `Tally._emit`
unfoldable pub emit : Tally → Tally
unfolding level_of
emit t =
    if t.listening
    then if is_shown t.shown (level_of t) then t else record t {
      shown = some (level_of t);
      calls = record { shown = level_of t; total = t.total; detail = t.detail } ∷ t.calls;
    }
    else t

unfoldable pub new_tally : Bool → ℕ → ℕ → Tally
unfolding emit
new_tally listening total steps = emit (record {
  listening = listening;
  total = total;
  steps = steps;
  done = 0;
  shown = none;
  detail = none;
  calls = [];
})

unfoldable pub advance : ℕ → Tally → Tally
unfolding emit
advance count t = emit (record t { done = t.done + count })

unfoldable pub mark : String → Tally → Tally
unfolding emit
mark detail t = emit (record t { detail = some detail; shown = none })

-- `Tally.over`: the rows that were taken from the iterator, one step for each
unfoldable pub over : ℕ → Tally → Tally
unfolding advance
over zero t = t
over (suc rows) t = over rows (advance 1 t)
