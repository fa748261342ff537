-- ===== src/Serving/Host/Views.antt =====
-- serving/host/__init__.py, `holding`: what a host holds on each gpu, and how releasing and taking up
-- change it.
use microtensor_subnet.Base.{
  ◌≡◌, refl, ap, ◌∙◌, inl, inr, String, Bool, true, false, not, [], ◌∷◌, Option, none, some, ◌&&◌,
  ◌==◌, if◌then◌else◌, arith, eq_iff, Bool-cases, subst,
}
use microtensor_subnet.Base.Dict.{Dict, get, get-put, get-pop, put, pop, has, Lacks}
use microtensor_subnet.Base.SortedDict.{Distinct}
use microtensor_subnet.Serving.Plan.Assign.{Held}
use microtensor_subnet.Serving.Host.{
  Host, update, holding, release, Taken, in_image, in_plain, in_sandbox, rejected, failed, settled,
}

abbrev pub is_some : {A : Type 0} → Option A → Bool
is_some none = false
is_some (some a) = true

-- the first of two
abbrev pub or_else : {A : Type 0} → Option A → Option A → Option A
or_else none b = b
or_else (some a) b = some a

pub has-get : {V : Type 0} (k : String) (d : Dict V) → has k d ≡ is_some (get k d)
unfolding has get
has-get k [] = refl
has-get k ((j, v) ∷ d) = ground (arith, has-get k d)

Lacks-put :
    {V : Type 0} (j k : String) (v : V) (d : Dict V)
    → (k == j) ≡ false
    → Lacks j d
    → Lacks j (put k v d)
unfolding put
Lacks-put j k v [] ne h = (ne, tt)
Lacks-put j k v ((i, w) ∷ d) ne (this, h) = elim (Bool-cases (i == k)) [
  | inl e ↦ rw (e, if◌then◌else◌) (this, h)
  | inr e ↦ rw (e, if◌then◌else◌) (this, Lacks-put j k v d ne h)
]

pub Distinct-put :
    {V : Type 0} (k : String) (v : V) (d : Dict V) → Distinct d → Distinct (put k v d)
unfolding put
Distinct-put k v [] h = (tt, tt)
Distinct-put k v ((i, w) ∷ d) (this, h) = elim (Bool-cases (i == k)) [
  | inl e ↦ rw (e, if◌then◌else◌) (this, h)
  | inr e ↦
      rw (e, if◌then◌else◌)
        (Lacks-put i k v d (ground (arith, eq_iff i k, eq_iff k i)) this, Distinct-put k v d h)
]

Lacks-pop : {V : Type 0} (j k : String) (d : Dict V) → Lacks j d → Lacks j (pop k d)
unfolding pop
Lacks-pop j k [] h = tt
Lacks-pop j k ((i, w) ∷ d) (this, h) = elim (Bool-cases (i == k)) [
  | inl e ↦ rw (e, if◌then◌else◌) (Lacks-pop j k d h)
  | inr e ↦ rw (e, if◌then◌else◌) (this, Lacks-pop j k d h)
]

pub Distinct-pop : {V : Type 0} (k : String) (d : Dict V) → Distinct d → Distinct (pop k d)
unfolding pop
Distinct-pop k [] h = tt
Distinct-pop k ((i, w) ∷ d) (this, h) = elim (Bool-cases (i == k)) [
  | inl e ↦ rw (e, if◌then◌else◌) (Distinct-pop k d h)
  | inr e ↦ rw (e, if◌then◌else◌) (Lacks-pop i k d this, Distinct-pop k d h)
]

pub get-none_of_Lacks : {V : Type 0} (k : String) (d : Dict V) → Lacks k d → get k d ≡ none
unfolding get
get-none_of_Lacks k [] h = refl
get-none_of_Lacks k ((j, v) ∷ d) (ne, h) = rw (ne, if◌then◌else◌) (get-none_of_Lacks k d h)

-- In an updated dict the entries of the second stand for those of the first.
get-update :
    (k : String) (d more : Held)
    → Distinct more
    → get k (update d more) ≡ or_else (get k more) (get k d)
unfolding get
get-update k d [] h = refl
get-update k d ((g, pair) ∷ more) (this, h) = elim (Bool-cases (g == k)) [
  | inl e ↦
      get-update k (put g pair d) more h
      ∙ rw (get-put g k pair d, e, if◌then◌else◌)
          (ap (λ o. or_else o (some pair)) (get-none_of_Lacks k more (at_key e)))
  | inr e ↦ get-update k (put g pair d) more h ∙ rw (get-put g k pair d, e, if◌then◌else◌) refl
]
  where
    at_key : (g == k) ≡ true → Lacks k more
    at_key e = subst (λ j. Lacks j more) ((eq_iff g k).0 e) this

-- At most one of the three has a value.
abbrev pub lone : {A : Type 0} → Option A → Option A → Option A → Bool
lone a b c =
    not (is_some a && is_some b) && not (is_some a && is_some c) && not (is_some b && is_some c)

-- The dicts of a host have each gpu once, and no gpu is in two of them.
pub record IsApart (s : Host) : Type 0 where
  pub once_held : Distinct s.held
  pub once_plain : Distinct s.plain
  pub once_images : Distinct s.images_held
  pub apart :
      (gpu : String) → lone (get gpu s.images_held) (get gpu s.plain) (get gpu s.held) ≡ true

-- what a host holds on a gpu
abbrev pub on : Host → String → Option (String × String)
on s gpu = or_else (get gpu s.images_held) (or_else (get gpu s.plain) (get gpu s.held))

or_else-none : {A : Type 0} (o : Option A) → or_else o none ≡ o
or_else-none none = refl
or_else-none (some a) = refl

pub get-holding : (s : Host) (gpu : String) → IsApart s → get gpu (holding s) ≡ on s gpu
unfolding holding
get-holding s gpu v =
    get-update gpu (update (update [] s.held) s.plain) s.images_held v.once_images
    ∙ ap (or_else (get gpu s.images_held)) (
        get-update gpu (update [] s.held) s.plain v.once_plain
        ∙ ap (or_else (get gpu s.plain))
            (get-update gpu [] s.held v.once_held ∙ unfold get in or_else-none (get gpu s.held)))

-- `on` after the first entry of a gpu is popped
pub release-on :
    (s : Host) (g gpu : String)
    → IsApart s
    → on (release g s) gpu ≡ (if g == gpu then none else on s gpu)
unfolding release
release-on s g gpu v = elim (Bool-cases (g == gpu)) [
  | inl e ↦ ground (
    arith,
    eq_iff g gpu,
    v.apart gpu,
    has-get g s.images_held,
    has-get g s.plain,
    get-pop g gpu s.images_held,
    get-pop g gpu s.plain,
    get-pop g gpu s.held,
  )
  | inr e ↦ ground (arith, get-pop g gpu s.images_held, get-pop g gpu s.plain, get-pop g gpu s.held)
]

pub release-IsApart : (s : Host) (g : String) → IsApart s → IsApart (release g s)
unfolding release
release-IsApart s g v = elim (Bool-cases (has g s.images_held)) [
  | inl e ↦
      rw (e, if◌then◌else◌)
        (record {
          once_held = v.once_held;
          once_plain = v.once_plain;
          once_images = Distinct-pop g s.images_held v.once_images;
          apart = λ gpu. ground (arith, v.apart gpu, get-pop g gpu s.images_held);
        })
  | inr e ↦ elim (Bool-cases (has g s.plain)) [
    | inl k ↦
        rw (e, k, if◌then◌else◌)
          (record {
            once_held = v.once_held;
            once_plain = Distinct-pop g s.plain v.once_plain;
            once_images = v.once_images;
            apart = λ gpu. ground (arith, v.apart gpu, get-pop g gpu s.plain);
          })
    | inr k ↦
        rw (e, k, if◌then◌else◌)
          (record {
            once_held = Distinct-pop g s.held v.once_held;
            once_plain = v.once_plain;
            once_images = v.once_images;
            apart = λ gpu. ground (arith, v.apart gpu, get-pop g gpu s.held);
          })
  ]
]

-- what a host holds that was taken up
abbrev pub pair_taken : Taken → Option (String × String)
pair_taken (in_image pair) = some pair
pair_taken (in_plain pair) = some pair
pair_taken (in_sandbox pair) = some pair
pair_taken rejected = none
pair_taken failed = none

pub settled-on :
    (s : Host) (g gpu : String) (t : Taken)
    → on s g ≡ none
    → on (settled g t s) gpu ≡ (if g == gpu then pair_taken t else on s gpu)
unfolding settled
settled-on s g gpu (in_image pair) h =
    ground (arith, eq_iff g gpu, get-put g gpu pair s.images_held)
settled-on s g gpu (in_plain pair) h = ground (arith, eq_iff g gpu, get-put g gpu pair s.plain)
settled-on s g gpu (in_sandbox pair) h = ground (arith, eq_iff g gpu, get-put g gpu pair s.held)
settled-on s g gpu rejected h = ground (arith, eq_iff g gpu)
settled-on s g gpu failed h = ground (arith, eq_iff g gpu)

pub settled-IsApart :
    (s : Host) (g : String) (t : Taken) → on s g ≡ none → IsApart s → IsApart (settled g t s)
unfolding settled
settled-IsApart s g (in_image pair) h v = record {
  once_held = v.once_held;
  once_plain = v.once_plain;
  once_images = Distinct-put g pair s.images_held v.once_images;
  apart = λ gpu. ground (arith, v.apart gpu, eq_iff g gpu, get-put g gpu pair s.images_held);
}
settled-IsApart s g (in_plain pair) h v = record {
  once_held = v.once_held;
  once_plain = Distinct-put g pair s.plain v.once_plain;
  once_images = v.once_images;
  apart = λ gpu. ground (arith, v.apart gpu, eq_iff g gpu, get-put g gpu pair s.plain);
}
settled-IsApart s g (in_sandbox pair) h v = record {
  once_held = Distinct-put g pair s.held v.once_held;
  once_plain = v.once_plain;
  once_images = v.once_images;
  apart = λ gpu. ground (arith, v.apart gpu, eq_iff g gpu, get-put g gpu pair s.held);
}
settled-IsApart s g rejected h v = v
settled-IsApart s g failed h v = record {
  once_held = v.once_held;
  once_plain = v.once_plain;
  once_images = v.once_images;
  apart = v.apart;
}
