-- ===== src/Serving/Pools/Exclusion/Lone.antt =====
-- Of the operators behind one coldkey at most one is paid, and none of the team.
use microtensor_subnet.Base.{
  String, true, false, List, [], ◌∷◌, Option, none, some, ◌≡◌, refl, arith, if◌then◌else◌, ◌&&◌,
  not, ◌==◌, eq_iff, All, ◌∙◌, ap, subst, ◌||◌, Bool-cases, inl, inr,
}
use microtensor_subnet.Base.Dict.{Dict, get, put, has, has-put, get-put}
use microtensor_subnet.Serving.Settle.{Settled}
use microtensor_subnet.Serving.Pools.Exclusion.{
  Reason, team, coldkey, Seen, nothing_seen, see, see_all, mark, is_leader, leaders, excluded_of,
}

mark_keeps :
    (best : Dict String) (operator : String) (entries : List (String × String))
    (found : Dict Reason)
    → has operator found ≡ true
    → has operator (mark best entries found) ≡ true
unfolding mark
mark_keeps best operator [] found h = h
mark_keeps best operator ((other, key) ∷ rest) found h =
    mark_keeps best operator rest _ (ground (arith, has-put other operator coldkey found))

is_leader-eq :
    (operator : String) (o : Option String) → is_leader operator o ≡ true → o ≡ some operator
is_leader-eq operator none h = absurd (cc)
is_leader-eq operator (some leader) h = ap some ((eq_iff leader operator).0 h)

-- The step of the third loop at the operator's own entry.
mark_own :
    (best : Dict String) (operator key : String) (rest : List (String × String))
    (found : Dict Reason)
    → has operator (mark best ((operator, key) ∷ rest) found) ≡ false
    → get key best ≡ some operator
unfolding mark
mark_own best operator key rest found unmarked = elim (Bool-cases (has operator found)) [
  | inl marked ↦ absurd (cc (mark_keeps best operator ((operator, key) ∷ rest) found marked))
  | inr fresh ↦ elim (Bool-cases (is_leader operator (get key best))) [
    | inl leads ↦ is_leader-eq operator (get key best) leads
    | inr other ↦
        let marked =
          mark_keeps best operator rest (put operator coldkey found)
            (ground (arith, has-put operator operator coldkey found, eq_iff operator operator)) in
        ground arith
  ]
]

-- Who is not marked leads its coldkey.
mark_leader :
    (best : Dict String) (operator key : String) (entries : Dict String) (found : Dict Reason)
    → get operator entries ≡ some key
    → has operator (mark best entries found) ≡ false
    → get key best ≡ some operator
unfolding mark get
mark_leader best operator key [] found listed unmarked = absurd (cc)
mark_leader best operator key ((other, c) ∷ rest) found listed unmarked =
    elim (Bool-cases (other == operator)) [
      | inl e ↦
          let same : other ≡ operator = (eq_iff other operator).0 e in
          let held : c ≡ key = ground arith in
          mark_own best operator key rest found (
            subst (λ x. has operator (mark best ((x, key) ∷ rest) found) ≡ false) same
              (subst (λ k. has operator (mark best ((other, k) ∷ rest) found) ≡ false) held
                unmarked))
      | inr e ↦
          mark_leader best operator key rest
            (if has other found || is_leader other (get c best)
              then found
              else put other coldkey found)
            (ground arith) unmarked
    ]

-- The last coldkey that the rows give for an operator.
abbrev pub coldkey_of : String → List Settled → Option String → Option String
coldkey_of operator [] last = last
coldkey_of operator (row ∷ rows) last =
    coldkey_of operator rows
      (if row.operator == operator && not (row.coldkey == "") then some row.coldkey else last)

coldkeys-see_all :
    (operator : String) (rows : List Settled) (seen : Seen)
    → get operator (see_all seen rows).coldkeys
      ≡ coldkey_of operator rows (get operator seen.coldkeys)
unfolding see_all
coldkeys-see_all operator [] seen = refl
coldkeys-see_all operator (row ∷ rows) seen =
    coldkeys-see_all operator rows (see seen row)
    ∙ ap (coldkey_of operator rows)
        (ground (arith, get-put row.operator operator row.coldkey seen.coldkeys))

get-nil {ℓ} : {V : Type ℓ} (k : String) → get {V = V} k [] ≡ none
unfolding get
get-nil k = refl

-- Two operators with one coldkey that are both left in are the same operator.
pub excluded_of-lone :
    (settled : List Settled) (a b key : String)
    → coldkey_of a settled none ≡ some key
    → coldkey_of b settled none ≡ some key
    → has a (excluded_of settled) ≡ false
    → has b (excluded_of settled) ≡ false
    → a ≡ b
unfolding excluded_of
excluded_of-lone settled a b key of_a of_b paid_a paid_b =
    let seen = see_all nothing_seen settled in
    let best = leaders seen in
    let held_a : get a seen.coldkeys ≡ some key =
      coldkeys-see_all a settled nothing_seen ∙ cc (get-nil {V = String} a) in
    let held_b : get b seen.coldkeys ≡ some key =
      coldkeys-see_all b settled nothing_seen ∙ cc (get-nil {V = String} b) in
    cc (
      mark_leader best a key seen.coldkeys seen.found held_a paid_a,
      mark_leader best b key seen.coldkeys seen.found held_b paid_b,
    )

team_found :
    (operator : String) (rows : List Settled) (seen : Seen)
    → has operator seen.found ≡ true
    → has operator (see_all seen rows).found ≡ true
unfolding see_all
team_found operator [] seen h = h
team_found operator (row ∷ rows) seen h =
    team_found operator rows (see seen row)
      (ground (arith, has-put row.operator operator team seen.found))

abbrev pub IsLeftOut : Dict Reason → Settled → Type 0
IsLeftOut excluded row = row.team ≡ true → has row.operator excluded ≡ true

team_seen : (rows : List Settled) (seen : Seen) → All (IsLeftOut (see_all seen rows).found) rows
unfolding see_all
team_seen [] seen = tt
team_seen (row ∷ rows) seen = (
  λ (h : row.team ≡ true). team_found row.operator rows (see seen row) (
      ground (
        arith,
        has-put row.operator row.operator team seen.found,
        eq_iff row.operator row.operator,
      )),
  team_seen rows (see seen row),
)

All-mark :
    (best : Dict String) (entries : List (String × String)) (found : Dict Reason)
    (rows : List Settled)
    → All (IsLeftOut found) rows
    → All (IsLeftOut (mark best entries found)) rows
All-mark best entries found [] h = tt
All-mark best entries found (row ∷ rows) (h, hs) = (
  λ (t : row.team ≡ true). mark_keeps best row.operator entries found (h t),
  All-mark best entries found rows hs,
)

-- Every operator with a row of the team is left out.
pub excluded_of-team : (settled : List Settled) → All (IsLeftOut (excluded_of settled)) settled
unfolding excluded_of
excluded_of-team settled =
    let seen = see_all nothing_seen settled in
    All-mark (leaders seen) seen.coldkeys seen.found settled (team_seen settled nothing_seen)
