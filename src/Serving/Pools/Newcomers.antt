-- ===== src/Serving/Pools/Newcomers.antt =====
-- serving/pools.py, `floors_for`: the operators that have a floor. Instants are in ticks of a clock, so
-- is the length of an epoch; what `datetime.fromisoformat` makes of a text is an argument.
pub mod Tests
use microtensor_subnet.Base.{
  ℕ, ◌*◌, ◌<◌, ◌≡◌, refl, String, Bool, true, false, List, [], ◌∷◌, Option, none, some, Result, ok,
  raised, ◌>>=◌, ◌>>◌, raise_if, eqb, not, ◌&&◌, ◌||◌, ◌==◌, any, Any, contains, eq_iff,
  if◌then◌else◌, arith, >>=-eq-ok, ok-injective, inl, inr, Bool-cases, subst, ◌⊎◌, ap, ◌∙◌, sym,
}
use microtensor_subnet.Base.Int.{ℤ, pos, negsuc, ◌-ℤ◌, ltb_ℤ, leb_ℤ}
use microtensor_subnet.Base.Fractions.{Fraction, lt_fraction}
use microtensor_subnet.Base.Dict.{Dict, put, get, get-put}
use microtensor_subnet.Serving.Pools.Dials.{
  PoolError, bad_floor_share, RawNumber, fraction_of, max_floor_share,
}

-- an entry of the registry; a missing field is the empty text
pub record Operator : Type 0 where
  pub hotkey : String
  pub admitted_at : String
  pub models : List String

module _ (instant_of : String → Option ℤ) where
  abbrev pub is_listed : Option (List String) → Operator → Bool
  is_listed none o = true
  is_listed (some models) o = any (λ m. contains m models) o.models

  -- 0 <= now - moment < window
  abbrev pub is_recent : ℤ → ℕ → Option ℤ → Bool
  is_recent now window none = false
  is_recent now window (some moment) =
      leb_ℤ (pos 0) (now -ℤ moment) && ltb_ℤ (now -ℤ moment) (pos window)

  -- whether the operator gets the floor
  unfoldable pub is_newcomer : ℤ → ℕ → Option (List String) → Operator → Bool
  is_newcomer now window models o =
      not (o.hotkey == "" || o.admitted_at == "")
      && (is_listed models o && is_recent now window (instant_of o.admitted_at))

  unfoldable pub add_floors :
      ℤ → ℕ → Option (List String) → Fraction → List Operator → Dict Fraction → Dict Fraction
  unfolding is_newcomer
  add_floors now window models share [] found = found
  add_floors now window models share (o ∷ rest) found =
      add_floors now window models share rest
        (if is_newcomer now window models o then put o.hotkey share found else found)

  unfoldable pub floors_for :
      (epochs : ℕ) (floor_share : RawNumber)
      → List Operator
      → ℤ
      → ℕ
      → Option (List String)
      → Result PoolError (Dict Fraction)
  unfolding add_floors
  floors_for epochs floor_share operators now epoch_seconds models = do
    share ← fraction_of floor_share
    elim (eqb epochs 0 || eqb share.num 0) [
      | true ↦ ok []
      | false ↦ do
        raise_if (lt_fraction max_floor_share share) bad_floor_share
        ok (add_floors now (epochs * epoch_seconds) models share operators [])
    ]

  get-add_floors :
      (now : ℤ) (window : ℕ) (models : Option (List String)) (share : Fraction)
      (operators : List Operator) (found : Dict Fraction) (k : String) (f : Fraction)
      → get k (add_floors now window models share operators found) ≡ some f
      → (get k found ≡ some f)
        ⊎ ((f ≡ share)
            × (any (λ o. o.hotkey == k && is_newcomer now window models o) operators ≡ true))
  unfolding add_floors
  get-add_floors now window models share [] found k f h = inl h
  get-add_floors now window models share (o ∷ rest) found k f h =
      elim (Bool-cases (is_newcomer now window models o)) [
        | inr e ↦
            ground
              (arith, e, get-add_floors now window models share rest found k f (ground (arith, e)))
        | inl e ↦ ground (
          arith,
          e,
          get-put o.hotkey k share found,
          get-add_floors now window models share rest (put o.hotkey share found) k f
              (ground (arith, e)),
        )
      ]

  get_nil : (k : String) (f : Fraction) → ◌≡◌ {A = Option Fraction} (get k []) (some f) → ⊥
  unfolding get
  get_nil k f h = cc

  -- An operator with a hotkey that was admitted at an instant of which less than a window has passed, and
  -- that serves one of the models, if these are given.
  pub record IsNewcomer (now : ℤ) (window : ℕ) (models : Option (List String)) (o : Operator)
      : Type 0 where
    pub named : (o.hotkey == "") ≡ false
    pub dated : (o.admitted_at == "") ≡ false
    pub moment : ℤ
    pub admitted : instant_of o.admitted_at ≡ some moment
    pub age : ℕ
    pub passed : now -ℤ moment ≡ pos age
    pub young : age < window
    pub serves :
        (given : List String) → models ≡ some given → any (λ m. contains m given) o.models ≡ true

  age_of :
      (x : ℤ) (window : ℕ)
      → (leb_ℤ (pos 0) x && ltb_ℤ x (pos window)) ≡ true
      → (age : ℕ) × (x ≡ pos age) × (age < window)
  age_of (pos n) window h = (n, refl, ground arith)
  age_of (negsuc n) window h = absurd (ground arith)

  listed_in :
      (models : Option (List String)) (o : Operator) (given : List String)
      → is_listed models o ≡ true
      → models ≡ some given
      → any (λ m. contains m given) o.models ≡ true
  listed_in models o given h e = rw e at h

  recent_moment :
      (now : ℤ) (window : ℕ) (read : Option ℤ)
      → is_recent now window read ≡ true
      → (moment : ℤ) × (read ≡ some moment)
        × ((leb_ℤ (pos 0) (now -ℤ moment) && ltb_ℤ (now -ℤ moment) (pos window)) ≡ true)
  recent_moment now window none h = absurd (cc)
  recent_moment now window (some moment) h = (moment, refl, h)

  is_newcomer-IsNewcomer :
      (now : ℤ) (window : ℕ) (models : Option (List String)) (o : Operator)
      → is_newcomer now window models o ≡ true
      → IsNewcomer now window models o
  unfolding is_newcomer
  is_newcomer-IsNewcomer now window models o h =
      let (a, b, c, d) = parts (o.hotkey == "") (o.admitted_at == "") (is_listed models o) _ h in
      let (moment, admitted, e) = recent_moment now window (instant_of o.admitted_at) d in
      let (age, passed, young) = age_of (now -ℤ moment) window e in
      record {
        named = a;
        dated = b;
        moment = moment;
        admitted = admitted;
        age = age;
        passed = passed;
        young = young;
        serves = λ given g. listed_in models o given c g;
      }
    where
      parts :
          (a b c d : Bool)
          → (not (a || b) && (c && d)) ≡ true
          → (a ≡ false) × (b ≡ false) × (c ≡ true) × (d ≡ true)
      parts a b c d h = (ground arith, ground arith, ground arith, ground arith)

  any-IsNewcomer :
      (now : ℤ) (window : ℕ) (models : Option (List String)) (k : String)
      (operators : List Operator)
      → any (λ o. o.hotkey == k && is_newcomer now window models o) operators ≡ true
      → Any (λ o. (o.hotkey ≡ k) × IsNewcomer now window models o) operators
  any-IsNewcomer now window models k [] h = absurd (cc)
  any-IsNewcomer now window models k (o ∷ rest) h =
      elim (Bool-cases (o.hotkey == k && is_newcomer now window models o)) [
        | inl e ↦
            let (same, new) = both (o.hotkey == k) (is_newcomer now window models o) e in
            inl ((eq_iff o.hotkey k).0 same, is_newcomer-IsNewcomer now window models o new)
        | inr e ↦ inr (any-IsNewcomer now window models k rest (rw e at h))
      ]
    where
      both : (a b : Bool) → (a && b) ≡ true → (a ≡ true) × (b ≡ true)
      both a b h = (ground arith, ground arith)

  floors_for-listed :
      (epochs : ℕ) (floor_share : RawNumber) (operators : List Operator) (now : ℤ)
      (epoch_seconds : ℕ) (models : Option (List String)) (k : String) (f : Fraction)
      {found : Dict Fraction}
      → floors_for epochs floor_share operators now epoch_seconds models ≡ ok found
      → get k found ≡ some f
      → (fraction_of floor_share ≡ ok f)
        × (lt_fraction max_floor_share f ≡ false)
        × (any (λ o. o.hotkey == k && is_newcomer now (epochs * epoch_seconds) models o) operators
            ≡ true)
  unfolding floors_for
  floors_for-listed epochs floor_share operators now epoch_seconds models k f h held =
      let (share, known, h1) = >>=-eq-ok (fraction_of floor_share) _ h in
      elim (Bool-cases (eqb epochs 0 || eqb share.num 0)) [
        | inl e ↦ absurd (nothing_held k f (ok-injective {E = PoolError} (ground (arith, e))) held)
        | inr e ↦
            let (_, small, h2) =
              >>=-eq-ok (raise_if (lt_fraction max_floor_share share) bad_floor_share)
                (λ _. ok (add_floors now (epochs * epoch_seconds) models share operators []))
                (ground (arith, e)) in
            entry_of share known (raise_if-ok _ _ small) (
              get-add_floors now (epochs * epoch_seconds) models share operators [] k f
                (ap (get k) (ok-injective h2) ∙ held))
      ]
    where
      nothing_held :
          (k : String) (f : Fraction) {found : Dict Fraction}
          → ◌≡◌ {A = Dict Fraction} [] found
          → get k found ≡ some f
          → ⊥
      nothing_held k f e held = get_nil k f (ap (get k) e ∙ held)

      raise_if-ok : (b : Bool) (x : PoolError) {u : Unit {0}} → raise_if b x ≡ ok u → b ≡ false
      raise_if-ok true x h = absurd (cc)
      raise_if-ok false x h = refl

      entry_of :
          (share : Fraction)
          → fraction_of floor_share ≡ ok share
          → lt_fraction max_floor_share share ≡ false
          → (get k [] ≡ some f)
            ⊎ ((f ≡ share)
                × (any
                      (λ o. o.hotkey == k && is_newcomer now (epochs * epoch_seconds) models o)
                      operators
                    ≡ true))
          → (fraction_of floor_share ≡ ok f)
            × (lt_fraction max_floor_share f ≡ false)
            × (any
                  (λ o. o.hotkey == k && is_newcomer now (epochs * epoch_seconds) models o)
                  operators
                ≡ true)
      entry_of share known small (inl e) = absurd (get_nil k f e)
      entry_of share known small (inr (e, listed)) = (
        known ∙ ap ok (sym e),
        subst (λ x. lt_fraction max_floor_share x ≡ false) (sym e) small,
        listed,
      )

  -- A floor is at most half of the pool, the same for all, and only for an operator of the registry
  -- that was admitted less than the given number of epochs ago and serves one of the models, if models are
  -- given.
  pub floors_for-newcomers :
      (epochs : ℕ) (floor_share : RawNumber) (operators : List Operator) (now : ℤ)
      (epoch_seconds : ℕ) (models : Option (List String)) (k : String) (f : Fraction)
      {found : Dict Fraction}
      → floors_for epochs floor_share operators now epoch_seconds models ≡ ok found
      → get k found ≡ some f
      → (fraction_of floor_share ≡ ok f)
        × (lt_fraction max_floor_share f ≡ false)
        × Any (λ o. (o.hotkey ≡ k) × IsNewcomer now (epochs * epoch_seconds) models o) operators
  floors_for-newcomers epochs floor_share operators now epoch_seconds models k f h held =
      let (known, small, listed) =
        floors_for-listed epochs floor_share operators now epoch_seconds models k f h held in
      (known, small, any-IsNewcomer now (epochs * epoch_seconds) models k operators listed)
