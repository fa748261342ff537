-- ===== src/Serving/Settle/Rows.antt =====
-- Settlement of the rows of an epoch.
use mathlib.Core.List.{Perm}
use microtensor_subnet.Base.{
  ℕ, ◌+◌, ◌*◌, ◌/◌, ◌≤◌, ◌<◌, ◌≡◌, ◌⊎◌, refl, String, true, false, ◌||◌, ◌&&◌, ◌==◌, text_lt,
  eq_iff, Bool-cases, ok, arith, List, [], ◌∷◌, All₂, some, Option-cases, inl, inr, >>=-eq-ok,
  ok-injective, traverse, traverse-All₂, subst, sym, ◌∙◌, if◌then◌else◌,
}
use microtensor_subnet.Base.Int.{ℤ, pos, negsuc}
use microtensor_subnet.Base.Sorting.{sort, insert, sort-perm}
use microtensor_subnet.Base.Dict.{Dict, get}
use microtensor_subnet.Serving.Settle.{
  Row, Settled, count, score_of, billing_of, settle_row, settled_le, settle_at, settle_epoch,
}
use microtensor_subnet.Serving.Settle.Score.{score_of-value}

-- The score in full: without probes each request counts in full, and with probes by the pass rate.
abbrev pub IsScored : ℕ → ℕ → ℕ → ℕ → ℕ → Type 0
IsScored inside outside probes passes score =
    (probes ≡ 0) × (score ≡ 1000 * inside + 500 * outside)
    ⊎ (0 < probes) × (score ≡ (2 * inside + outside) * passes * 1000 / (2 * probes))

-- The settlement of one row: identity, coldkey, team and first digests carried over, counts read, billed
-- at the published rate of its model, passes within the probes, and the score of what was served.
pub record Settles (rates : Dict ℤ) (row : Row) (s : Settled) : Type 0 where
  pub rate : ℕ
  pub published : get row.model rates ≡ some (pos rate)
  pub operator : s.operator ≡ row.operator
  pub model : s.model ≡ row.model
  pub gpu : s.gpu ≡ row.gpu
  pub coldkey : s.coldkey ≡ row.coldkey
  pub team : s.team ≡ row.team
  pub first_live : s.first_live ≡ row.first_live
  pub inside : count row.inside ≡ ok s.inside
  pub outside : count row.outside ≡ ok s.outside
  pub probes : count row.probes ≡ ok s.probes
  pub passes : count row.passes ≡ ok s.passes
  pub tokens : count row.tokens ≡ ok s.tokens
  pub billed : s.billing ≡ s.tokens * rate / 1000
  pub fits : s.passes ≤ s.probes
  pub scored : IsScored s.inside s.outside s.probes s.passes s.score

settle_row-Settles :
    (rates : Dict ℤ) (row : Row) (rate : ℤ) (s : Settled)
    → get row.model rates ≡ some rate
    → settle_row row rate ≡ ok s
    → Settles rates row s
unfolding settle_row billing_of
settle_row-Settles rates row (negsuc n) s published h = ground arith
settle_row-Settles rates row (pos n) s published h =
    let (inside, e1, h1) = >>=-eq-ok (count row.inside) _ h in
    let (outside, e2, h2) = >>=-eq-ok (count row.outside) _ h1 in
    let (probes, e3, h3) = >>=-eq-ok (count row.probes) _ h2 in
    let (passes, e4, h4) = >>=-eq-ok (count row.passes) _ h3 in
    let (tokens, e5, h5) = >>=-eq-ok (count row.tokens) _ h4 in
    let (score, e6, h6) = >>=-eq-ok (score_of inside outside probes passes) _ h5 in
    let (fits, scored) = score_of-value inside outside probes passes e6 in
    subst (Settles rates row) (ok-injective h6) (record {
      rate = n;
      published = published;
      operator = refl;
      model = refl;
      gpu = refl;
      coldkey = refl;
      team = refl;
      first_live = refl;
      inside = e1;
      outside = e2;
      probes = e3;
      passes = e4;
      tokens = e5;
      billed = refl;
      fits = fits;
      scored = scored;
    })

settle_at-Settles :
    (rates : Dict ℤ) (row : Row) (s : Settled) → settle_at rates row ≡ ok s → Settles rates row s
unfolding settle_at
settle_at-Settles rates row s h = elim (Option-cases (get row.model rates)) [
  | inl e ↦ absurd (cc (rw (e, settle_at) at h))
  | inr (rate, e) ↦ settle_row-Settles rates row rate s e (rw (e, settle_at) at h)
]

all_settled :
    (rates : Dict ℤ) (rows : List Row) (ys : List Settled)
    → All₂ (λ row s. settle_at rates row ≡ ok s) rows ys
    → All₂ (Settles rates) rows ys
all_settled rates [] [] h = tt
all_settled rates [] (y ∷ ys) h = elim h [ ]
all_settled rates (x ∷ xs) [] h = elim h [ ]
all_settled rates (x ∷ xs) (y ∷ ys) (h, hs) =
    (settle_at-Settles rates x y h, all_settled rates xs ys hs)

-- One settlement stands before another, or has the same keys: by operator, then by model, then by gpu.
abbrev pub InOrder : Settled → Settled → Type 0
InOrder a b =
    (text_lt a.operator b.operator ≡ true)
    ⊎ ((a.operator ≡ b.operator)
        × ((text_lt a.model b.model ≡ true)
            ⊎ ((a.model ≡ b.model) × ((text_lt a.gpu b.gpu ≡ true) ⊎ (a.gpu ≡ b.gpu)))))

-- Of two settlements that follow each other, the first stands before the second, or the second not
-- before the first.
abbrev pub Follows : Settled → Settled → Type 0
Follows a b = InOrder a b ⊎ ¬ InOrder b a

key_le-InOrder :
    (x y z : String) {u v w : String}
    → (text_lt x u || x == u && (text_lt y v || y == v && (text_lt z w || z == w))) ≡ true
    → (text_lt x u ≡ true)
      ⊎ ((x ≡ u) × ((text_lt y v ≡ true) ⊎ ((y ≡ v) × ((text_lt z w ≡ true) ⊎ (z ≡ w)))))
key_le-InOrder x y z {u} {v} {w} h = ground (arith, eq_iff x u, eq_iff y v, eq_iff z w)

InOrder-key_le :
    (x y z u v w : String)
    → (text_lt x u ≡ true)
      ⊎ ((x ≡ u) × ((text_lt y v ≡ true) ⊎ ((y ≡ v) × ((text_lt z w ≡ true) ⊎ (z ≡ w)))))
    → (text_lt x u || x == u && (text_lt y v || y == v && (text_lt z w || z == w))) ≡ true
InOrder-key_le x y z u v w h = ground (arith, eq_iff x u, eq_iff y v, eq_iff z w)

settled_le-Follows :
    (a b : Settled) → (settled_le a b ≡ true → Follows a b) × (settled_le b a ≡ false → Follows a b)
unfolding settled_le
settled_le-Follows a b = (
  λ h. inl (key_le-InOrder a.operator a.model a.gpu h),
  λ h. inr (λ k.
      true_false (sym (InOrder-key_le b.operator b.model b.gpu a.operator a.model a.gpu k) ∙ h)),
)
  where
    true_false : true ≡ false → ⊥
    true_false e = cc

-- The last one, seen from the front: what an element is followed by.
abbrev pub Leads : Settled → List Settled → Type 0
Leads a [] = Unit
Leads a (b ∷ rest) = Follows a b

abbrev pub IsOrdered : List Settled → Type 0
IsOrdered [] = Unit
IsOrdered (a ∷ rest) = Leads a rest × IsOrdered rest

Leads-insert :
    (y x : Settled) (ys : List Settled)
    → Follows y x
    → Leads y ys
    → Leads y (insert settled_le x ys)
unfolding insert
Leads-insert y x [] h k = h
Leads-insert y x (z ∷ ys) h k = elim (Bool-cases (settled_le x z)) [
  | inl e ↦ rw (e, if◌then◌else◌) h
  | inr e ↦ rw (e, if◌then◌else◌) k
]

insert-IsOrdered :
    (x : Settled) (ys : List Settled) → IsOrdered ys → IsOrdered (insert settled_le x ys)
unfolding insert
insert-IsOrdered x [] h = (tt, tt)
insert-IsOrdered x (y ∷ ys) (leads, h) = elim (Bool-cases (settled_le x y)) [
  | inl e ↦ rw (e, if◌then◌else◌) ((settled_le-Follows x y).0 e, (leads, h))
  | inr e ↦
      rw (e, if◌then◌else◌)
        (Leads-insert y x ys ((settled_le-Follows y x).1 e) leads, insert-IsOrdered x ys h)
]

sort-IsOrdered : (xs : List Settled) → IsOrdered (sort settled_le xs)
unfolding sort
sort-IsOrdered [] = tt
sort-IsOrdered (x ∷ xs) = insert-IsOrdered x (sort settled_le xs) (sort-IsOrdered xs)

-- A settled epoch is a rearrangement of the settlements of its rows, one for each row, and in it each
-- settlement follows the one before it in the order of operators, models and gpus.
pub settle_epoch-perm :
    (rows : List Row) (rates : Dict ℤ) (out : List Settled)
    → settle_epoch rows rates ≡ ok out
    → (ys : List Settled) × All₂ (Settles rates) rows ys × Perm out ys × IsOrdered out
unfolding settle_epoch
settle_epoch-perm rows rates out h =
    let (ys, e, h1) = >>=-eq-ok (traverse (settle_at rates) rows) _ h in
    (
      ys,
      all_settled rates rows ys (traverse-All₂ (settle_at rates) rows e),
      subst (λ l. Perm l ys) (ok-injective h1) (sort-perm settled_le ys),
      subst IsOrdered (ok-injective h1) (sort-IsOrdered ys),
    )
