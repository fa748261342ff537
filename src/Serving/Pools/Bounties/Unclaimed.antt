-- ===== src/Serving/Pools/Bounties/Unclaimed.antt =====
-- No bounty goes to an excluded operator.
use microtensor_subnet.Base.{
  ℕ, ◌/◌, String, Bool, true, false, List, [], ◌∷◌, none, ◌≡◌, refl, arith, ◌==◌, if◌then◌else◌,
  eq_iff, ◌||◌, length, ltb, eqb, Absent, Absent-add_to_set, text_le, ◌∙◌, Bool-cases, inl, inr,
}
use microtensor_subnet.Base.Sorting.{sort, sort-All}
use microtensor_subnet.Base.Dict.{
  Dict, get, get_or, put, has, keys, get-add_at_ne, get-keep-none, get_or-put,
}
use microtensor_subnet.Serving.Settle.{Settled}
use microtensor_subnet.Serving.Pools.Exclusion.{Reason}
use microtensor_subnet.Serving.Pools.Bounties.{
  Claims, claim, claims_of, pay_each, pay_digests, bounties_of,
}

-- The operator has no claim.
abbrev Unclaimed : String → Claims → Type 0
Unclaimed operator claims = (digest : String) → Absent operator (get_or digest [] claims)

Unclaimed-put :
    (operator digest : String) (xs : List String) (claims : Claims)
    → Absent operator xs
    → Unclaimed operator claims
    → Unclaimed operator (put digest xs claims)
Unclaimed-put operator digest xs claims a u other =
    rw (get_or-put digest other xs claims []) (elim (Bool-cases (digest == other)) [
      | inl e ↦ rw (e, if◌then◌else◌) a
      | inr e ↦ rw (e, if◌then◌else◌) (u other)
    ])

Unclaimed-claim :
    (operator other : String) (digests : List String) (claims : Claims)
    → (other == operator) ≡ false
    → Unclaimed operator claims
    → Unclaimed operator (claim other digests claims)
unfolding claim
Unclaimed-claim operator other [] claims ne u = u
Unclaimed-claim operator other (d ∷ ds) claims ne u = Unclaimed-claim operator other ds _ ne (
    Unclaimed-put operator d _ claims
      (Absent-add_to_set operator other (get_or d [] claims) ne (u d)) u)

has-other :
    (a b : String) (excluded : Dict Reason)
    → has a excluded ≡ true
    → has b excluded ≡ false
    → (b == a) ≡ false
has-other a b excluded h k = ground (arith, eq_iff b a)

Unclaimed-claims_of :
    (operator : String) (excluded : Dict Reason) (rows : List Settled) (claims : Claims)
    → has operator excluded ≡ true
    → Unclaimed operator claims
    → Unclaimed operator (claims_of excluded rows claims)
unfolding claims_of
Unclaimed-claims_of operator excluded [] claims h u = u
Unclaimed-claims_of operator excluded (row ∷ rows) claims h u =
    Unclaimed-claims_of operator excluded rows _ h (elim (Bool-cases (has row.operator excluded)) [
      | inl e ↦ rw (e, if◌then◌else◌) u
      | inr e ↦
          rw (e, if◌then◌else◌)
            (Unclaimed-claim operator row.operator row.first_live claims
              (has-other operator row.operator excluded h e) u)
    ])

get-pay_each :
    (operator : String) (each : ℕ) (winners : List String) (found : Dict ℕ)
    → Absent operator winners
    → get operator found ≡ none
    → get operator (pay_each each winners found) ≡ none
unfolding pay_each
get-pay_each operator each [] found a h = h
get-pay_each operator each (w ∷ ws) found (ne, a) h =
    get-pay_each operator each ws _ a (get-add_at_ne w operator each found ne ∙ h)

get-pay_digests :
    (operator : String) (per_digest : ℕ) (claims : Claims) (digests : List String) (found : Dict ℕ)
    → Unclaimed operator claims
    → get operator found ≡ none
    → get operator (pay_digests per_digest claims digests found) ≡ none
unfolding pay_digests
get-pay_digests operator per_digest claims [] found u h = h
get-pay_digests operator per_digest claims (d ∷ ds) found u h =
    get-pay_digests operator per_digest claims ds _ u
      (get-pay_each operator _ _ found (sort-All text_le _ (get_or d [] claims) (u d)) h)

pub get-bounties_of :
    (operator : String) (reserve : ℕ) (settled : List Settled) (excluded : Dict Reason)
    → has operator excluded ≡ true
    → get operator (bounties_of reserve settled excluded) ≡ none
unfolding bounties_of get get_or
get-bounties_of operator reserve settled excluded h = elim (Bool-cases stop) [
  | inl e ↦ rw (e, if◌then◌else◌) refl
  | inr e ↦
      rw (e, if◌then◌else◌)
        (get-keep-none (λ e. ltb 0 e.1) operator
          (pay_digests (reserve / length claims) claims (sort text_le (keys claims)) [])
          (get-pay_digests operator (reserve / length claims) claims (sort text_le (keys claims)) []
            (Unclaimed-claims_of operator excluded settled [] h (λ d. tt)) refl))
]
  where
    claims : Claims
    claims = claims_of excluded settled []

    stop : Bool
    stop = eqb reserve 0 || eqb (length claims) 0
