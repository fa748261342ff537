-- ===== src/Validator/Duplicates/Earliest.antt =====
-- validator/duplicates.py: a pool is a copy of the earliest entry that it matches.
use text.Mathlib.TextEquality.{eq_iff}
use microtensor_subnet.Base.{
  ◌≡◌, refl, sym, ap, ◌∙◌, String, Bool, true, false, List, [], ◌∷◌, ◌++◌, Option, none, some, ◌||◌,
  ◌==◌, if◌then◌else◌, arith, All, Bool-cases, inl, inr,
}
use microtensor_subnet.Base.Dict.{Dict, get, get-put}
use microtensor_subnet.Base.Floats.{Floats}
use microtensor_subnet.Validator.Duplicates.{
  Entry, zero_parts, same_model, same_router, matched_parts, zeroed_by, with_zeroed, compare_from,
  compare,
}
use microtensor_subnet.Validator.Duplicates.Judged.{
  Pool, slm, router, system, name_of, or_else, or_else-none, or_else_assoc, some_if, judged,
  get-parts_if, blamed,
}

same_text : (k : String) → (k == k) ≡ true
same_text k = ground (arith, eq_iff k k)

append_nil : {A : Type 0} (xs : List A) → xs ++ [] ≡ xs
append_nil [] = refl
append_nil (x ∷ xs) = ap (λ ys. x ∷ ys) (append_nil xs)

append_assoc : {A : Type 0} (xs ys zs : List A) → (xs ++ ys) ++ zs ≡ xs ++ (ys ++ zs)
append_assoc [] ys zs = refl
append_assoc (x ∷ xs) ys zs = ap (λ us. x ∷ us) (append_assoc xs ys zs)

module _ {F : Type 0} (f : Floats F) (fsum : List F → F) (sqrt : F → F) where
  -- What an entry is a copy of in a pool: the model, the router, or for the system either.
  abbrev pub is_copy : Pool → Entry F → Entry F → Bool
  is_copy slm later earlier = same_model f fsum sqrt later earlier
  is_copy router later earlier = same_router f fsum sqrt later earlier
  is_copy system later earlier =
      same_model f fsum sqrt later earlier || same_router f fsum sqrt later earlier

  -- The first of the entries that it is a copy of.
  abbrev pub earliest : Pool → Entry F → List (Entry F) → Option String
  earliest p later [] = none
  earliest p later (earlier ∷ more) =
      if is_copy p later earlier then some earlier.hotkey else earliest p later more

  is_copy-judged :
      (p : Pool) (later earlier : Entry F)
      → judged p (same_model f fsum sqrt later earlier) (same_router f fsum sqrt later earlier)
        ≡ is_copy p later earlier
  is_copy-judged slm later earlier = refl
  is_copy-judged router later earlier = refl
  is_copy-judged system later earlier = refl

  get-zero_parts :
      (p : Pool) (later earlier : Entry F) (d : Dict String)
      → get (name_of p) (zero_parts (matched_parts f fsum sqrt later earlier) earlier.hotkey d)
        ≡ or_else (get (name_of p) d) (some_if (is_copy p later earlier) earlier.hotkey)
  unfolding matched_parts
  get-zero_parts p later earlier d =
      get-parts_if p (same_model f fsum sqrt later earlier) (same_router f fsum sqrt later earlier)
        earlier.hotkey d
      ∙ ap (λ b. or_else (get (name_of p) d) (some_if b earlier.hotkey))
          (is_copy-judged p later earlier)

  earliest-cons :
      (p : Pool) (later earlier : Entry F) (more : List (Entry F))
      → or_else (some_if (is_copy p later earlier) earlier.hotkey) (earliest p later more)
        ≡ earliest p later (earlier ∷ more)
  earliest-cons p later earlier more = elim (Bool-cases (is_copy p later earlier)) [
    | inl e ↦ rw (e, if◌then◌else◌) refl
    | inr e ↦ rw (e, if◌then◌else◌) refl
  ]

  get-zeroed_by :
      (p : Pool) (later : Entry F) (before : List (Entry F)) (d : Dict String)
      → get (name_of p) (zeroed_by f fsum sqrt later before d)
        ≡ or_else (get (name_of p) d) (earliest p later before)
  unfolding zeroed_by
  get-zeroed_by p later [] d = sym (or_else-none _)
  get-zeroed_by p later (earlier ∷ more) d =
      get-zeroed_by p later more
        (zero_parts (matched_parts f fsum sqrt later earlier) earlier.hotkey d)
      ∙ ap (λ a. or_else a (earliest p later more)) (get-zero_parts p later earlier d)
      ∙ or_else_assoc (get (name_of p) d) (some_if (is_copy p later earlier) earlier.hotkey)
          (earliest p later more)
      ∙ ap (or_else (get (name_of p) d)) (earliest-cons p later earlier more)

  -- Other entries do not change what an entry is blamed for.
  get-with_zeroed :
      (hotkey other : String) (zeroed : Dict String) (found : Dict (Dict String))
      → (other == hotkey) ≡ false
      → get hotkey (with_zeroed other zeroed found) ≡ get hotkey found
  get-with_zeroed hotkey other [] found ne = refl
  get-with_zeroed hotkey other (e ∷ zeroed) found ne =
      rw (get-put other hotkey (e ∷ zeroed) found, ne, if◌then◌else◌) refl

  get-compare_from :
      (hotkey : String) (before entries : List (Entry F)) (found : Dict (Dict String))
      → All (λ e. (e.hotkey == hotkey) ≡ false) entries
      → get hotkey (compare_from f fsum sqrt before entries found) ≡ get hotkey found
  unfolding compare_from
  get-compare_from hotkey before [] found hs = refl
  get-compare_from hotkey before (e ∷ entries) found (h, hs) =
      get-compare_from hotkey (before ++ e ∷ []) entries _ hs
      ∙ get-with_zeroed hotkey e.hotkey (zeroed_by f fsum sqrt e before []) found h

  blamed-with_zeroed :
      (p : Pool) (hotkey : String) (zeroed : Dict String) (found : Dict (Dict String))
      → get hotkey found ≡ none
      → blamed p (get hotkey (with_zeroed hotkey zeroed found)) ≡ get (name_of p) zeroed
  unfolding get
  blamed-with_zeroed p hotkey [] found h = rw h refl
  blamed-with_zeroed p hotkey (e ∷ zeroed) found h =
      rw (get-put hotkey hotkey (e ∷ zeroed) found, same_text hotkey, if◌then◌else◌) refl

  compare_from-blamed :
      (p : Pool) (passed before : List (Entry F)) (later : Entry F) (after : List (Entry F))
      (found : Dict (Dict String))
      → get later.hotkey found ≡ none
      → All (λ e. (e.hotkey == later.hotkey) ≡ false) before
      → All (λ e. (e.hotkey == later.hotkey) ≡ false) after
      → blamed p
          (get later.hotkey (compare_from f fsum sqrt passed (before ++ later ∷ after) found))
        ≡ earliest p later (passed ++ before)
  unfolding compare_from get
  compare_from-blamed p passed [] later after found h hb ha =
      ap (blamed p) (get-compare_from later.hotkey (passed ++ later ∷ []) after _ ha)
      ∙ blamed-with_zeroed p later.hotkey (zeroed_by f fsum sqrt later passed []) found h
      ∙ get-zeroed_by p later passed []
      ∙ ap (earliest p later) (sym (append_nil passed))
  compare_from-blamed p passed (e ∷ before) later after found h (hb, hbs) ha =
      compare_from-blamed p (passed ++ e ∷ []) before later after
        (with_zeroed e.hotkey (zeroed_by f fsum sqrt e passed []) found)
        (get-with_zeroed later.hotkey e.hotkey (zeroed_by f fsum sqrt e passed []) found hb ∙ h) hbs
        ha
      ∙ ap (earliest p later) (append_assoc passed (e ∷ []) before)

  -- In each of the pools, a later entry is blamed for a copy of the earliest of the entries before it that it
  -- copies in that pool, by its model, by its router, or for the system by either; and it is not blamed if
  -- it copies none of them, whatever comes after it; if no other entry has its hotkey.
  pub compare-earliest :
      (p : Pool) (before : List (Entry F)) (later : Entry F) (after : List (Entry F))
      → All (λ e. (e.hotkey == later.hotkey) ≡ false) before
      → All (λ e. (e.hotkey == later.hotkey) ≡ false) after
      → blamed p (get later.hotkey (compare f fsum sqrt (before ++ later ∷ after)))
        ≡ earliest p later before
  unfolding compare get
  compare-earliest p before later after hb ha =
      compare_from-blamed p [] before later after [] refl hb ha
