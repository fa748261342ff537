-- ===== src/Base/Text/Split.antt =====
-- `sep.join(parts)` and `text.split(sep)` for a separator of one character.
use Prim.Native.Nat.{ℕ}
use Prim.Native.Char.{Char, code}
use Prim.Native.String.{String, ◌++◌}
use text.Mathlib.TextLemmas.{nil-append, cons-append}
use mathlib.Core.Path.{◌≡◌, refl, ap, ◌∙◌}
use mathlib.Core.Bool.{Bool, true, false, not}
use mathlib.Core.List.{List, [], ◌∷◌}
use native.Mathlib.Omega.{arith}
use microtensor_subnet.Base.Tests.{eqb, if◌then◌else◌}
use microtensor_subnet.Base.Lists.{All}
use microtensor_subnet.Base.Text.{every, is_blank, is_space, rstrip, lstrip, strip}

module _ (sep : Char) where
  abbrev pub to_head : Char → List String → List String
  to_head c [] = String.◌∷◌ c String.[] ∷ []
  to_head c (p ∷ ps) = String.◌∷◌ c p ∷ ps

  unfoldable pub split : String → List String
  split String.[] = String.[] ∷ []
  split (String.◌∷◌ c s) =
      let rest = split s in if eqb (code c) (code sep) then String.[] ∷ rest else to_head c rest

  unfoldable pub join : List String → String
  join [] = String.[]
  join (p ∷ []) = p
  join (p ∷ q ∷ rest) = p ++ String.◌∷◌ sep (join (q ∷ rest))

  -- The separator is not in the text.
  abbrev pub Lacks : String → Type 0
  Lacks s = every (λ n. not (eqb n (code sep))) s ≡ true

  split-lacking : (p : String) → Lacks p → split p ≡ p ∷ []
  unfolding split
  split-lacking String.[] h = refl
  split-lacking (String.◌∷◌ c p) h = ground (arith, split-lacking p)

  split-append : (p s : String) → Lacks p → split (p ++ String.◌∷◌ sep s) ≡ p ∷ split s
  unfolding split
  split-append String.[] s h = rw nil-append (ground arith)
  split-append (String.◌∷◌ c p) s h = rw cons-append (ground (arith, split-append p s))

  -- Splitting a join gives the parts back, if there is a part and none holds the separator.
  pub split-join :
      (p : String) (ps : List String) → All Lacks (p ∷ ps) → split (join (p ∷ ps)) ≡ p ∷ ps
  unfolding join
  split-join p [] (h, _) = split-lacking p h
  split-join p (q ∷ ps) (h, hs) =
      split-append p (join (q ∷ ps)) h ∙ ap (λ x. p ∷ x) (split-join q ps hs)

-- A text that is not blank and has no space at its end.
abbrev pub IsTrimmed : String → Type 0
IsTrimmed s = (rstrip s ≡ s) × (is_blank s ≡ false)

cons-IsTrimmed : (c : Char) (s : String) → IsTrimmed s → IsTrimmed (String.◌∷◌ c s)
unfolding rstrip
cons-IsTrimmed c s h = ground arith

append-IsTrimmed : (s t : String) → IsTrimmed t → IsTrimmed (s ++ t)
append-IsTrimmed String.[] t h = rw nil-append h
append-IsTrimmed (String.◌∷◌ c s) t h =
    rw cons-append (cons-IsTrimmed c (s ++ t) (append-IsTrimmed s t h))

abbrev pub last_part : String → List String → String
last_part p [] = p
last_part p (q ∷ ps) = last_part q ps

-- The last part decides how a join ends.
join-IsTrimmed :
    (sep : Char) (p : String) (ps : List String)
    → IsTrimmed (last_part p ps)
    → IsTrimmed (join sep (p ∷ ps))
unfolding join
join-IsTrimmed sep p [] h = h
join-IsTrimmed sep p (q ∷ ps) h =
    append-IsTrimmed p (String.◌∷◌ sep (join sep (q ∷ ps)))
      (cons-IsTrimmed sep (join sep (q ∷ ps)) (join-IsTrimmed sep q ps h))

-- The text begins with a character that is no space.
abbrev pub begins_solid : String → Bool
begins_solid String.[] = false
begins_solid (String.◌∷◌ c s) = not (is_space (code c))

lstrip-append : (p s : String) → begins_solid p ≡ true → lstrip (p ++ s) ≡ p ++ s
unfolding lstrip
lstrip-append String.[] s h = absurd (cc)
lstrip-append (String.◌∷◌ c p) s h = rw cons-append (ground arith)

-- Nothing is stripped from a join that begins and ends solid.
pub strip-join :
    (sep : Char) (p q : String) (ps : List String)
    → begins_solid p ≡ true
    → IsTrimmed (last_part q ps)
    → strip (join sep (p ∷ q ∷ ps)) ≡ join sep (p ∷ q ∷ ps)
unfolding strip
strip-join sep p q ps h trimmed =
    ap rstrip (lstrip-join sep p q ps h) ∙ (join-IsTrimmed sep p (q ∷ ps) trimmed).0
  where
    lstrip-join :
        (sep : Char) (p q : String) (ps : List String)
        → begins_solid p ≡ true
        → lstrip (join sep (p ∷ q ∷ ps)) ≡ join sep (p ∷ q ∷ ps)
    lstrip-join sep p q ps h = unfold join in lstrip-append p (String.◌∷◌ sep (join sep (q ∷ ps))) h

-- A text of characters that are no spaces is trimmed.
pub every-IsTrimmed :
    (p : ℕ → Bool) (s : String)
    → ((n : ℕ) → p n ≡ true → is_space n ≡ false)
    → every p s ≡ true
    → is_blank s ≡ false
    → IsTrimmed s
unfolding rstrip
every-IsTrimmed p String.[] solid h filled = absurd (cc)
every-IsTrimmed p (String.◌∷◌ c String.[]) solid h filled = ground (arith, solid (code c))
every-IsTrimmed p (String.◌∷◌ c (String.◌∷◌ d s)) solid h filled =
    cons-IsTrimmed c (String.◌∷◌ d s) (every-IsTrimmed p (String.◌∷◌ d s) solid (ground arith) refl)

pub every_mono :
    (p q : ℕ → Bool) (s : String)
    → ((n : ℕ) → p n ≡ true → q n ≡ true)
    → every p s ≡ true
    → every q s ≡ true
every_mono p q String.[] within h = refl
every_mono p q (String.◌∷◌ c s) within h = ground (arith, within (code c), every_mono p q s within)

-- The fields of a line are read back from it: it is not blank, nothing is stripped, and the split
-- gives the parts.
pub split-strip-join :
    (sep : Char) (p q : String) (ps : List String)
    → begins_solid p ≡ true
    → IsTrimmed (last_part q ps)
    → All (Lacks sep) (p ∷ q ∷ ps)
    → (is_blank (join sep (p ∷ q ∷ ps)) ≡ false)
      × (split sep (strip (join sep (p ∷ q ∷ ps))) ≡ p ∷ q ∷ ps)
unfolding join
split-strip-join sep p q ps solid trimmed lacking = (
  filled p (String.◌∷◌ sep (join sep (q ∷ ps))) solid,
  ap (split sep) (strip-join sep p q ps solid trimmed) ∙ split-join sep p (q ∷ ps) lacking,
)
  where
    filled : (s t : String) → begins_solid s ≡ true → is_blank (s ++ t) ≡ false
    filled String.[] t h = absurd (cc)
    filled (String.◌∷◌ c s) t h = rw cons-append refl
