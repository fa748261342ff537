-- ===== src/Serving/Wire/Offered/Declared.antt =====
-- The places of a gpu are those that the model on it declares.
use microtensor_subnet.Base.{
  ℕ, ◌+◌, ◌≤◌, ◌<◌, ◌≡◌, refl, String, true, List, [], ◌∷◌, ◌++◌, none, some, ok, eqb, eq_iff, not,
  ◌&&◌, ◌==◌, map, length, contains, add_to_set, if◌then◌else◌, arith, >>=-eq-ok, raise_if, inl,
  inr, Bool-cases, Option-cases, ◌∙◌,
}
use microtensor_subnet.Base.Dict.{Dict, get, put, get-put}
use microtensor_subnet.Serving.Pools.Dials.{is_empty}
use microtensor_subnet.Serving.Wire.Offered.{
  Served, Settings, distinct_of, checked_settings, of_gpu, no_gateway, no_hotkey, nothing_announced,
  gpu_twice,
}
use microtensor_subnet.Serving.Wire.Capacity.{Inflight, new_slot, limits_of, capacity_of}
use microtensor_subnet.Serving.Wire.Capacity.Slots.{limit_of}

-- Each gpu is named once.
abbrev pub Once : List Served → Type 0
Once [] = Unit
Once (s ∷ rest) = (of_gpu s.gpu rest ≡ none) × Once rest

length-map : (f : Served → String) (xs : List Served) → length (map f xs) ≡ length xs
length-map f [] = refl
length-map f (x ∷ xs) = omega (arith, length-map f xs)

length-snoc : (x : String) (xs : List String) → length (xs ++ x ∷ []) ≡ length xs + 1
length-snoc x [] = refl
length-snoc x (y ∷ ys) = omega (arith, length-snoc x ys)

length-add_to_set :
    (x : String) (xs : List String)
    → length (add_to_set x xs) ≡ length xs + (if contains x xs then 0 else 1)
unfolding add_to_set
length-add_to_set x xs = ground (arith, length-snoc x xs)

length-distinct_of-le :
    (seen xs : List String) → length (distinct_of seen xs) ≤ length seen + length xs
unfolding distinct_of
length-distinct_of-le seen [] = omega arith
length-distinct_of-le seen (x ∷ xs) =
    ground (arith, length-distinct_of-le (add_to_set x seen) xs, length-add_to_set x seen)

contains-snoc :
    (g x : String) (xs : List String) → contains g xs ≡ true → contains g (xs ++ x ∷ []) ≡ true
contains-snoc g x [] h = absurd (cc)
contains-snoc g x (y ∷ ys) h = ground (arith, contains-snoc g x ys)

contains-add_to_set :
    (g x : String) (xs : List String) → contains g xs ≡ true → contains g (add_to_set x xs) ≡ true
unfolding add_to_set
contains-add_to_set g x xs h = ground (arith, contains-snoc g x xs h)

contains-snoc_self : (x : String) (xs : List String) → contains x (xs ++ x ∷ []) ≡ true
contains-snoc_self x [] = ground (arith, eq_iff x x)
contains-snoc_self x (y ∷ ys) = ground (arith, contains-snoc_self x ys)

contains-add_to_set_self : (x : String) (xs : List String) → contains x (add_to_set x xs) ≡ true
unfolding add_to_set
contains-add_to_set_self x xs = ground (arith, contains-snoc_self x xs)

-- A name that was seen already makes the set smaller than the list.
seen-distinct_of-lt :
    (g : String) (seen : List String) (serves : List Served) (s : Served)
    → contains g seen ≡ true
    → of_gpu g serves ≡ some s
    → length (distinct_of seen (map (λ x. x.gpu) serves)) < length seen + length serves
unfolding distinct_of of_gpu
seen-distinct_of-lt g seen [] s h e = absurd (cc)
seen-distinct_of-lt g seen (t ∷ rest) s h e = elim (Bool-cases (t.gpu == g)) [
  | inl same ↦ ground (
    arith,
    eq_iff t.gpu g,
    length-distinct_of-le (add_to_set t.gpu seen) (map (λ x. x.gpu) rest),
    length-add_to_set t.gpu seen,
    length-map (λ x. x.gpu) rest,
  )
  | inr other ↦ ground (
    arith,
    seen-distinct_of-lt g (add_to_set t.gpu seen) rest s (contains-add_to_set g t.gpu seen h)
        (ground arith),
    length-add_to_set t.gpu seen,
  )
]

distinct_of-Once :
    (seen : List String) (serves : List Served)
    → length seen + length serves ≤ length (distinct_of seen (map (λ x. x.gpu) serves))
    → Once serves
unfolding distinct_of
distinct_of-Once seen [] h = tt
distinct_of-Once seen (s ∷ rest) h = elim (Option-cases (of_gpu s.gpu rest)) [
  | inl e ↦ (
    e,
    distinct_of-Once (add_to_set s.gpu seen) rest (ground (arith, length-add_to_set s.gpu seen)),
  )
  | inr (u, e) ↦ absurd (
      ground (
        arith,
        length-add_to_set s.gpu seen,
        seen-distinct_of-lt s.gpu (add_to_set s.gpu seen) rest u
            (contains-add_to_set_self s.gpu seen) e,
      ))
]

limits_of-others :
    (now : ℕ) (g : String) (serves : List Served) (found : Dict Inflight)
    → of_gpu g serves ≡ none
    → get g (limits_of now serves found) ≡ get g found
unfolding limits_of of_gpu
limits_of-others now g [] found h = refl
limits_of-others now g (s ∷ rest) found h =
    limits_of-others now g rest (put s.gpu (new_slot now s.concurrency) found) (ground arith)
    ∙ ground (arith, get-put s.gpu g (new_slot now s.concurrency) found, eq_iff s.gpu g)

limits_of-Once :
    (now : ℕ) (g : String) (serves : List Served) (found : Dict Inflight) (s : Served)
    → Once serves
    → of_gpu g serves ≡ some s
    → get g (limits_of now serves found) ≡ some (new_slot now s.concurrency)
unfolding limits_of of_gpu
limits_of-Once now g [] found s h e = absurd (cc)
limits_of-Once now g (t ∷ rest) found s (once, h) e = elim (Bool-cases (t.gpu == g)) [
  | inl same ↦
      let it : t ≡ s = ground arith in
      limits_of-others now g rest (put t.gpu (new_slot now t.concurrency) found)
        (ground (arith, eq_iff t.gpu g))
      ∙ ground (arith, get-put t.gpu g (new_slot now t.concurrency) found, eq_iff t.gpu g, it)
  | inr other ↦
      limits_of-Once now g rest (put t.gpu (new_slot now t.concurrency) found) s h (ground arith)
]

checked_settings-Once :
    (settings : Settings) → checked_settings settings ≡ ok settings → Once settings.serves
unfolding checked_settings
checked_settings-Once settings h =
    let held = map (λ x. x.gpu) settings.serves in
    let (_, _, h1) = >>=-eq-ok (raise_if (settings.gateway == "") no_gateway) _ h in
    let (_, _, h2) = >>=-eq-ok (raise_if (settings.hotkey == "") no_hotkey) _ h1 in
    let (_, _, h3) =
      >>=-eq-ok (raise_if (is_empty settings.serves && is_empty settings.gpus) nothing_announced) _
        h2 in
    let (_, same, _) =
      >>=-eq-ok (raise_if (not (eqb (length (distinct_of [] held)) (length held))) gpu_twice) _
        h3 in
    distinct_of-Once [] settings.serves
      (ground (arith, same, length-map (λ x. x.gpu) settings.serves))

-- With accepted settings, a session opens with as many places on a gpu as the model on it declares.
pub limit_of-opening :
    (settings : Settings) (now : ℕ) (g : String) (s : Served)
    → checked_settings settings ≡ ok settings
    → of_gpu g settings.serves ≡ some s
    → limit_of g (capacity_of now settings.serves) ≡ s.concurrency
unfolding limit_of capacity_of
limit_of-opening settings now g s h e =
    ground (arith, limits_of-Once now g settings.serves [] s (checked_settings-Once settings h) e)
