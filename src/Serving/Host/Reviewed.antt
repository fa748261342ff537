-- ===== src/Serving/Host/Reviewed.antt =====
-- serving/host/__init__.py, `plan_now` and `apply`: a review plans for what a host holds, and carries the
-- plan out.
use microtensor_subnet.Base.{
  ◌≡◌, refl, sym, ap, ◌∙◌, ◌≢◌, inl, inr, String, Bool, true, false, not, List, [], ◌∷◌, Option,
  none, some, ◌||◌, ◌==◌, contains, keep, if◌then◌else◌, arith, eq_iff, All, Bool-cases, map, subst,
  text_le,
}
use microtensor_subnet.Base.Dict.{Dict, get, put, keys, Lacks, get-keep-none}
use microtensor_subnet.Base.SortedDict.{Distinct}
use microtensor_subnet.Base.Sorting.{sort, insert}
use microtensor_subnet.Base.Floats.{Floats}
use microtensor_subnet.Serving.Plan.{Offer, Capacity, Policy}
use microtensor_subnet.Serving.Plan.Assign.{Held, assign}
use microtensor_subnet.Serving.Plan.Build.{
  same_pair, is_pair, pair_of, stale, holding_of, plan_of, build, usable_of, verdict_of,
}
use microtensor_subnet.Serving.Plan.Placed.{IsNodup, keys-assign, gpus_for, gpus-holding}
use microtensor_subnet.Serving.Host.{Host, Workshop, done, update, holding, plan_now, apply}
use microtensor_subnet.Serving.Host.Views.{is_some, IsApart, Distinct-put, get-none_of_Lacks}
use microtensor_subnet.Serving.Host.Steps.{reached, gpus_of, CanDeclare}
use microtensor_subnet.Serving.Host.Applied.{contains-keys, IsSparing, apply-reached}

contains-insert :
    (le : String → String → Bool) (k x : String) (xs : List String)
    → contains k (insert le x xs) ≡ (x == k || contains k xs)
unfolding insert
contains-insert le k x [] = refl
contains-insert le k x (y ∷ ys) = ground (arith, contains-insert le k x ys)

contains-sort :
    (le : String → String → Bool) (k : String) (xs : List String)
    → contains k (sort le xs) ≡ contains k xs
unfolding sort
contains-sort le k [] = refl
contains-sort le k (x ∷ xs) =
    contains-insert le k x (sort le xs) ∙ ap (λ (b : Bool). x == k || b) (contains-sort le k xs)

Distinct-update : (d more : Held) → Distinct d → Distinct (update d more)
Distinct-update d [] h = h
Distinct-update d ((g, pair) ∷ more) h =
    Distinct-update (put g pair d) more (Distinct-put g pair d h)

pub Distinct-holding : (s : Host) → Distinct (holding s)
unfolding holding
Distinct-holding s =
    Distinct-update (update (update [] s.held) s.plain) s.images_held
      (Distinct-update (update [] s.held) s.plain (Distinct-update [] s.held tt))

same_value : {a b : String × String} → some a ≡ some b → a ≡ b
same_value h = cc

get-keep-other :
    (p : String × (String × String) → Bool) (k g : String) (held : String × String) (d : Held)
    → (g == k) ≡ false
    → get k (keep p ((g, held) ∷ d)) ≡ get k (keep p d)
unfolding get
get-keep-other p k g held d e = ground arith

-- An entry that is kept out by the test is not found.
get-keep_out :
    (p : String × (String × String) → Bool) (k : String) (pair : String × String) (d : Held)
    → Distinct d
    → get k d ≡ some pair
    → p (k, pair) ≡ false
    → get k (keep p d) ≡ none
unfolding get
get-keep_out p k pair [] h found out = absurd (cc)
get-keep_out p k pair ((g, held) ∷ d) (this, h) found out = elim (Bool-cases (g == k)) [
  | inl e ↦
      let same : held ≡ pair = same_value (rw (e, if◌then◌else◌) at found) in
      rw (same, (eq_iff g k).0 e, out, if◌then◌else◌)
        (get-keep-none p k d
          (get-none_of_Lacks k d (subst (λ j. Lacks j d) ((eq_iff g k).0 e) this)))
  | inr e ↦
      get-keep-other p k g held d e ∙ get-keep_out p k pair d h (rw (e, if◌then◌else◌) at found) out
]

same_pair-eq : (a b : String × String) → same_pair a b ≡ true → a ≡ b
same_pair-eq (a, b) (c, d) h = ground (arith, eq_iff a c, eq_iff b d)

pub same_pair_refl : (a : String × String) → same_pair a a ≡ true
same_pair_refl (a, b) = ground (arith, eq_iff a a, eq_iff b b)

pub is_pair-eq :
    (o : Option (String × String)) (pair : String × String) → is_pair o pair ≡ true → o ≡ some pair
is_pair-eq none pair h = absurd (cc)
is_pair-eq (some held) pair h = ap some (same_pair-eq held pair h)

module _ {A : Type 0} where
  -- Each entry of a dict is found under its key.
  pub All-get : (d : Dict A) → Distinct d → All (λ e. get e.0 d ≡ some e.1) d
  unfolding get
  All-get [] h = tt
  All-get ((k, v) ∷ d) (this, h) =
      (rw ((eq_iff k k).1 refl, if◌then◌else◌) refl, further d this (All-get d h))
    where
      further :
          (rest : Dict A)
          → Lacks k rest
          → All (λ e. get e.0 d ≡ some e.1) rest
          → All (λ e. get e.0 ((k, v) ∷ d) ≡ some e.1) rest
      further [] l q = tt
      further ((j, w) ∷ rest) (ne, l) (found, q) =
          (ground (arith, eq_iff k j, eq_iff j k), further rest l q)

  Lacks-keys : (k : String) (d : Dict A) → All (λ y. (k == y) ≡ false) (keys d) → Lacks k d
  Lacks-keys k [] h = tt
  Lacks-keys k ((j, w) ∷ d) (this, h) = (ground (arith, eq_iff k j, eq_iff j k), Lacks-keys k d h)

  pub Distinct-keys : (d : Dict A) → IsNodup (keys d) → Distinct d
  Distinct-keys [] h = tt
  Distinct-keys ((k, v) ∷ d) (fresh, h) = (Lacks-keys k d fresh, Distinct-keys d h)

-- A plan drops no gpu that has what is wanted on it.
stale-kept :
    {F : Type 0} (assigned : Dict (Offer F)) (d : Held) (gpu : String) (o : Offer F)
    → Distinct d
    → get gpu assigned ≡ some o
    → contains gpu (sort text_le (keys (stale assigned d))) ≡ true
    → is_pair (get gpu d) (o.model, o.artifact_digest) ≡ false
stale-kept assigned d gpu o once placed dropped =
    elim (Bool-cases (is_pair (get gpu d) (o.model, o.artifact_digest))) [
      | inl wanted ↦
          let gone : get gpu (stale assigned d) ≡ none =
            get-keep_out (λ e. not (is_pair (pair_of (get e.0 assigned)) e.1)) gpu
              (o.model, o.artifact_digest) d once
              (is_pair-eq (get gpu d) (o.model, o.artifact_digest) wanted)
              (rw placed (ap not (same_pair_refl (o.model, o.artifact_digest)))) in
          absurd (
            apart (
              sym dropped
              ∙ contains-sort text_le gpu (keys (stale assigned d))
              ∙ contains-keys gpu (stale assigned d)
              ∙ ap is_some gone))
      | inr unwanted ↦ unwanted
    ]
  where
    apart : true ≢ false
    apart e = cc

pub stale-IsSparing :
    {F : Type 0} (assigned : Dict (Offer F)) (s : Host)
    → Distinct assigned
    → IsSparing s
        (sort text_le (keys (stale assigned (holding s))))
        (map (λ e. holding_of e.0 e.1) assigned)
stale-IsSparing {F} assigned s once = each assigned (All-get assigned once)
  where
    each :
        (rest : Dict (Offer F))
        → All (λ e. get e.0 assigned ≡ some e.1) rest
        → IsSparing s
            (sort text_le (keys (stale assigned (holding s))))
            (map (λ e. holding_of e.0 e.1) rest)
    each [] h = tt
    each ((gpu, o) ∷ rest) (found, h) =
        (stale-kept assigned (holding s) gpu o (Distinct-holding s) found, each rest h)

pub IsNodup-gpus_for :
    {A : Type 0} (xs : List A) (gpus : List String) → IsNodup gpus → IsNodup (gpus_for xs gpus)
IsNodup-gpus_for [] gpus h = tt
IsNodup-gpus_for (x ∷ xs) gpus h = h

-- What a review plans has each gpu once, and drops none that has what is wanted.
pub plan_now-fits :
    {F : Type 0} (f : Floats F) (w : Workshop) (rows : List (Offer F)) (c : Capacity F) (p : Policy)
    (pinned : Option (Dict String)) (preferred : Dict String) (s : Host)
    → IsNodup s.devices
    → IsNodup (gpus_of (plan_now f w rows c p pinned preferred s).hold)
      × IsSparing s
          (plan_now f w rows c p pinned preferred s).drop
          (plan_now f w rows c p pinned preferred s).hold
unfolding plan_now build plan_of
plan_now-fits {F} f w rows c p pinned preferred s once = (
  subst IsNodup (sym (gpus-holding assigned)) nodup,
  stale-IsSparing assigned s (Distinct-keys assigned nodup),
)
  where
    offers : List (Offer F)
    offers =
        usable_of
          (verdict_of f w.lower (record c { gpus = s.devices })
            (record p { accept_licences = s.accept_licences }) pinned)
          rows

    assigned : Dict (Offer F)
    assigned = assign f offers s.devices (holding s) preferred

    nodup : IsNodup (keys assigned)
    nodup =
        subst IsNodup (sym (keys-assign f offers (holding s) preferred s.devices once))
          (IsNodup-gpus_for offers s.devices once)

-- A review that plans for what the host holds and carries the plan out leaves on each gpu what the plan
-- has for it: what was held there, untouched, if that is what is wanted, and otherwise what could be
-- taken up; and nothing on the other gpus, if no gpu of the host is listed twice, and the gateway takes
-- the declarations of what is planned. And still no gpu is held twice.
pub apply-plan_now :
    {F : Type 0} (f : Floats F) (w : Workshop) (rows : List (Offer F)) (c : Capacity F) (p : Policy)
    (pinned : Option (Dict String)) (preferred : Dict String) (s : Host)
    → IsApart s
    → IsNodup s.devices
    → CanDeclare w (plan_now f w rows c p pinned preferred s).hold
    → (after : Host) × (apply w
          (plan_now f w rows c p pinned preferred s).drop
          (plan_now f w rows c p pinned preferred s).hold
          s
        ≡ done after)
      × IsApart after
      × ((gpu : String)
          → get gpu (holding after)
            ≡ reached w s
                (get gpu (holding s))
                (plan_now f w rows c p pinned preferred s).hold
                gpu
                none)
apply-plan_now f w rows c p pinned preferred s v once declared =
    let (nodup, sparing) = plan_now-fits f w rows c p pinned preferred s once in
    apply-reached w _ _ s v nodup sparing declared
