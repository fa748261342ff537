-- ===== src/Rigs/Weights/Uids.antt =====
-- A dict whose keys are uids, as the program has it, by the order of insertion.
use microtensor_subnet.Base.{
  ℕ, ◌+◌, ◌≡◌, refl, Bool, false, List, [], ◌∷◌, eqb, ◌||◌, sum_of, if◌then◌else◌, arith,
}

-- uid in d
unfoldable pub has : {V : Type 0} → ℕ → List (ℕ × V) → Bool
has uid [] = false
has uid (e ∷ d) = eqb e.0 uid || has uid d

-- d[uid] = v
unfoldable pub put : {V : Type 0} → ℕ → V → List (ℕ × V) → List (ℕ × V)
put uid v [] = (uid, v) ∷ []
put uid v (e ∷ d) = let rest = put uid v d in if eqb e.0 uid then (uid, v) ∷ d else e ∷ rest

-- d[uid], and zero without one
unfoldable pub at : ℕ → List (ℕ × ℕ) → ℕ
at uid [] = 0
at uid (e ∷ d) = if eqb e.0 uid then e.1 else at uid d

abbrev pub total : List (ℕ × ℕ) → ℕ
total d = sum_of (λ e. e.1) d

pub at-put :
    (uid other v : ℕ) (d : List (ℕ × ℕ))
    → at other (put uid v d) ≡ (if eqb uid other then v else at other d)
unfolding at put
at-put uid other v [] = refl
at-put uid other v (e ∷ d) = ground (arith, at-put uid other v d)

pub has-put :
    (uid other v : ℕ) (d : List (ℕ × ℕ)) → has other (put uid v d) ≡ (eqb uid other || has other d)
unfolding has put
has-put uid other v [] = refl
has-put uid other v (e ∷ d) = ground (arith, has-put uid other v d)

pub total-put : (uid v : ℕ) (d : List (ℕ × ℕ)) → total (put uid v d) + at uid d ≡ total d + v
unfolding at put
total-put uid v [] = omega arith
total-put uid v (e ∷ d) = ground (arith, total-put uid v d)

pub at-absent : (uid : ℕ) (d : List (ℕ × ℕ)) → has uid d ≡ false → at uid d ≡ 0
unfolding at has
at-absent uid [] h = refl
at-absent uid (e ∷ d) h = ground (arith, at-absent uid d)
