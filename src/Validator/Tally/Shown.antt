-- ===== src/Validator/Tally/Shown.antt =====
-- What a tally shows.
use native.Mathlib.Nat.{
  le-div_iff_mul-le, div-mul-le_self, mul-div-le, mul-le-mul_right, le_of_mul-le-mul_left,
}
use microtensor_subnet.Base.{
  ℕ, zero, suc, ◌+◌, ◌*◌, ◌/◌, ◌≤◌, ◌<◌, ◌≡◌, refl, String, Bool, true, List, [], ◌∷◌, Option, none,
  some, leb, if◌then◌else◌, arith, inl, inr, Bool-cases, ap, ◌∙◌, subst,
}
use microtensor_subnet.Validator.Tally.{
  Call, Tally, level_of, is_shown, emit, new_tally, advance, mark, over,
}

div_mono : (a b q : ℕ) → 0 < q → a ≤ b → a / q ≤ b / q
div_mono a b q pos h = (le-div_iff_mul-le pos).1 (omega (arith, div-mul-le_self a q))

level_of-le : (t : Tally) → level_of t ≤ t.total
unfolding level_of
level_of-le t = elim (Bool-cases (leb t.steps t.done)) [
  | inl e ↦ rw (e, if◌then◌else◌) (omega arith)
  | inr e ↦ rw (e, if◌then◌else◌) (within t.done t.total t.steps (ground arith))
]
  where
    within : (done total steps : ℕ) → done < steps → done * total / steps ≤ total
    within done total steps h =
        le_of_mul-le-mul_left {k = steps}
          (omega (
            arith,
            mul-div-le (done * total) steps,
            mul-le-mul_right {m = done} {n = steps} total (omega arith),
          ))
          (omega arith)

level_of_mono : (t : Tally) (count : ℕ) → level_of t ≤ level_of (record t { done = t.done + count })
unfolding level_of
level_of_mono t count = elim (Bool-cases (leb t.steps (t.done + count))) [
  | inl e ↦ rw (e, if◌then◌else◌) (level_of-le t)
  | inr e ↦ ground (
    arith,
    e,
    div_mono (t.done * t.total) ((t.done + count) * t.total) t.steps (ground arith)
        (mul-le-mul_right {m = t.done} {n = t.done + count} t.total (omega arith)),
  )
]

-- The latest call shows at most `bound`, and each call at least what the call before it showed,
-- always out of the same total.
abbrev pub Descends : ℕ → ℕ → List Call → Type 0
Descends total bound [] = Unit
Descends total bound (c ∷ rest) =
    (c.shown ≤ bound) × (c.total ≡ total) × Descends total c.shown rest

Descends-le :
    (total a b : ℕ) (calls : List Call) → a ≤ b → Descends total a calls → Descends total b calls
Descends-le total a b [] h d = tt
Descends-le total a b (c ∷ rest) h (le, same, d) = (omega arith, same, d)

-- The calls of a tally rise to at most its level, which is at most the total; once it has been
-- emitted with somebody listening, the value shown is the level.
pub record IsShown (t : Tally) : Type 0 where
  pub rising : Descends t.total (level_of t) t.calls
  pub bounded : level_of t ≤ t.total
  pub current : t.listening ≡ true → t.shown ≡ some (level_of t)

is_shown_eq : (o : Option ℕ) (n : ℕ) → is_shown o n ≡ true → o ≡ some n
is_shown_eq none n h = absurd (cc)
is_shown_eq (some m) n h = ap some (ground arith)

emit-IsShown : (t : Tally) → Descends t.total (level_of t) t.calls → IsShown (emit t)
unfolding emit level_of
emit-IsShown t d = elim (Bool-cases t.listening) [
  | inr deaf ↦
      rw (emit, deaf, if◌then◌else◌)
        (record {
          rising = d;
          bounded = level_of-le t;
          current = λ h. absurd (ground (arith, h, deaf));
        })
  | inl hears ↦ elim (Bool-cases (is_shown t.shown (level_of t))) [
    | inl same ↦
        rw (emit, hears, same, if◌then◌else◌)
          (record {
            rising = d;
            bounded = level_of-le t;
            current = λ h. is_shown_eq t.shown (level_of t) same;
          })
    | inr new ↦
        rw (emit, hears, new, if◌then◌else◌)
          (record { rising = (omega arith, refl, d); bounded = level_of-le t; current = λ h. refl })
  ]
]

new_tally-IsShown : (listening : Bool) (total steps : ℕ) → IsShown (new_tally listening total steps)
unfolding new_tally
new_tally-IsShown listening total steps =
    emit-IsShown
      (record {
        listening = listening;
        total = total;
        steps = steps;
        done = 0;
        shown = none;
        detail = none;
        calls = [];
      })
      tt

pub advance-IsShown : (count : ℕ) (t : Tally) → IsShown t → IsShown (advance count t)
unfolding advance
advance-IsShown count t v =
    emit-IsShown (record t { done = t.done + count })
      (Descends-le t.total (level_of t) (level_of (record t { done = t.done + count })) t.calls
        (level_of_mono t count) v.rising)

pub mark-IsShown : (detail : String) (t : Tally) → IsShown t → IsShown (mark detail t)
unfolding mark level_of
mark-IsShown detail t v = emit-IsShown (record t { detail = some detail; shown = none }) v.rising

over-IsShown : (rows : ℕ) (t : Tally) → IsShown t → IsShown (over rows t)
unfolding over
over-IsShown zero t v = v
over-IsShown (suc rows) t v = over-IsShown rows (advance 1 t) (advance-IsShown 1 t v)

-- the fields that no emission changes
abbrev pub Kept : Tally → Tally → Type 0
Kept s t =
    (t.listening ≡ s.listening) × (t.total ≡ s.total) × (t.steps ≡ s.steps) × (t.done ≡ s.done)

emit-Kept : (t : Tally) → Kept t (emit t)
unfolding emit
emit-Kept t = ground arith

over-done :
    (rows : ℕ) (t : Tally)
    → ((over rows t).listening ≡ t.listening)
      × ((over rows t).total ≡ t.total)
      × ((over rows t).steps ≡ t.steps)
      × ((over rows t).done ≡ t.done + rows)
unfolding over advance
over-done zero t = (refl, refl, refl, omega arith)
over-done (suc rows) t = ground (
  arith,
  over-done rows (emit (record t { done = t.done + 1 })),
  emit-Kept (record t { done = t.done + 1 }),
)

level_of_full : (t : Tally) → t.steps ≤ t.done → level_of t ≡ t.total
unfolding level_of
level_of_full t h = ground arith

new_tally-Kept :
    (total steps : ℕ)
    → ((new_tally true total steps).listening ≡ true)
      × ((new_tally true total steps).total ≡ total)
      × ((new_tally true total steps).steps ≡ steps)
unfolding new_tally emit
new_tally-Kept total steps = (refl, refl, refl)

full-IsShown :
    (total : ℕ) (t : Tally)
    → IsShown t
    → t.listening ≡ true
    → t.total ≡ total
    → t.steps ≤ t.done
    → Descends total total t.calls × (t.shown ≡ some total)
full-IsShown total t v hears of_total full =
    let whole : level_of t ≡ total = level_of_full t full ∙ of_total in
    (
      subst (λ n. Descends n total t.calls) of_total
          (subst (λ n. Descends t.total n t.calls) whole v.rising),
      v.current hears ∙ ap some whole,
    )

-- Over all the steps, a listener sees the shown values rise, never past the total, and sees the
-- total in the end.
pub over-IsShown_all :
    (total steps : ℕ)
    → Descends total total (over steps (new_tally true total steps)).calls
      × ((over steps (new_tally true total steps)).shown ≡ some total)
over-IsShown_all total steps =
    let t = new_tally true total steps in
    let (hears, of_total, of_steps) = new_tally-Kept total steps in
    let (a, b, c, d) = over-done steps t in
    full-IsShown total (over steps t) (over-IsShown steps t (new_tally-IsShown true total steps))
      (a ∙ hears) (b ∙ of_total) (omega (arith, c, d, of_steps))
