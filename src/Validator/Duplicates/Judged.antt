-- ===== src/Validator/Duplicates/Judged.antt =====
-- validator/duplicates.py: what the matched parts zero, pool by pool.
use text.Mathlib.TextEquality.{eq_iff}
use microtensor_subnet.Base.{
  ◌≡◌, refl, sym, ◌∙◌, String, Bool, true, false, List, [], ◌∷◌, ◌++◌, Option, none, some, ◌||◌,
  ◌==◌, if◌then◌else◌, arith, Bool-cases, inl, inr,
}
use microtensor_subnet.Base.Dict.{Dict, get, has, get-put}
use microtensor_subnet.Validator.Duplicates.{
  Part, model, router_part, pools_of, setdefault, zero_pools, zero_parts,
}

-- The pools that an entry is judged in.
pub data Pool : Type 0 where
  slm router system : Pool

abbrev pub name_of : Pool → String
name_of slm = "slm"
name_of router = "router"
name_of system = "system"

abbrev pub or_else : Option String → Option String → Option String
or_else none b = b
or_else (some a) b = some a

pub or_else-none : (a : Option String) → or_else a none ≡ a
or_else-none none = refl
or_else-none (some a) = refl

pub or_else_assoc : (a b c : Option String) → or_else (or_else a b) c ≡ or_else a (or_else b c)
or_else_assoc none b c = refl
or_else_assoc (some a) b c = refl

or_else-has :
    (j k : String) (b : Option String) (d : Dict String)
    → has k d ≡ true
    → (if k == j then or_else (get j d) b else get j d) ≡ get j d
unfolding has get
or_else-has j k b [] h = absurd (ground arith)
or_else-has j k b ((i, v) ∷ d) h =
    ground (arith, eq_iff k j, eq_iff i k, eq_iff i j, or_else-has j k b d)

or_else-absent :
    (j k : String) (b : Option String) (d : Dict String)
    → has k d ≡ false
    → (if k == j then or_else (get j d) b else get j d) ≡ (if k == j then b else get j d)
unfolding has get
or_else-absent j k b [] h = refl
or_else-absent j k b ((i, v) ∷ d) h =
    ground (arith, eq_iff k j, eq_iff i k, eq_iff i j, or_else-absent j k b d)

get-setdefault :
    (j k v : String) (d : Dict String)
    → get j (setdefault k v d) ≡ (if k == j then or_else (get j d) (some v) else get j d)
unfolding setdefault
get-setdefault j k v d = elim (Bool-cases (has k d)) [
  | inl e ↦ rw (e, if◌then◌else◌) (sym (or_else-has j k (some v) d e))
  | inr e ↦ rw (e, if◌then◌else◌) (get-put k j v d ∙ sym (or_else-absent j k (some v) d e))
]

-- Whether a part is judged in a pool.
abbrev counts_in : Pool → Part → Bool
counts_in slm model = true
counts_in slm router_part = false
counts_in router model = false
counts_in router router_part = true
counts_in system part = true

get-zero_pools :
    (p : Pool) (part : Part) (hotkey : String) (d : Dict String)
    → get (name_of p) (zero_pools (pools_of part) hotkey d)
      ≡ (if counts_in p part then or_else (get (name_of p) d) (some hotkey) else get (name_of p) d)
unfolding zero_pools
get-zero_pools slm model hotkey d =
    get-setdefault "slm" "system" hotkey (setdefault "slm" hotkey d)
    ∙ get-setdefault "slm" "slm" hotkey d
get-zero_pools slm router_part hotkey d =
    get-setdefault "slm" "system" hotkey (setdefault "router" hotkey d)
    ∙ get-setdefault "slm" "router" hotkey d
get-zero_pools router model hotkey d =
    get-setdefault "router" "system" hotkey (setdefault "slm" hotkey d)
    ∙ get-setdefault "router" "slm" hotkey d
get-zero_pools router router_part hotkey d =
    get-setdefault "router" "system" hotkey (setdefault "router" hotkey d)
    ∙ get-setdefault "router" "router" hotkey d
get-zero_pools system model hotkey d =
    rw
      (
        get-setdefault "system" "system" hotkey (setdefault "slm" hotkey d),
        get-setdefault "system" "slm" hotkey d,
      )
      refl
get-zero_pools system router_part hotkey d =
    rw
      (
        get-setdefault "system" "system" hotkey (setdefault "router" hotkey d),
        get-setdefault "system" "router" hotkey d,
      )
      refl

abbrev pub some_if : Bool → String → Option String
some_if b hotkey = if b then some hotkey else none

some_once :
    (a : Option String) (hotkey : String)
    → or_else (or_else a (some hotkey)) (some hotkey) ≡ or_else a (some hotkey)
some_once none hotkey = refl
some_once (some a) hotkey = refl

-- What is judged in a pool, by the model and by the router.
abbrev pub judged : Pool → Bool → Bool → Bool
judged slm m r = m
judged router m r = r
judged system m r = m || r

abbrev parts_if : Bool → Bool → List Part
parts_if m r = (if m then model ∷ [] else []) ++ (if r then router_part ∷ [] else [])

pub get-parts_if :
    (p : Pool) (m r : Bool) (hotkey : String) (d : Dict String)
    → get (name_of p) (zero_parts (parts_if m r) hotkey d)
      ≡ or_else (get (name_of p) d) (some_if (judged p m r) hotkey)
unfolding zero_parts
get-parts_if slm false false hotkey d = sym (or_else-none _)
get-parts_if router false false hotkey d = sym (or_else-none _)
get-parts_if system false false hotkey d = sym (or_else-none _)
get-parts_if slm true false hotkey d = get-zero_pools slm model hotkey d
get-parts_if router true false hotkey d =
    get-zero_pools router model hotkey d ∙ sym (or_else-none _)
get-parts_if system true false hotkey d = get-zero_pools system model hotkey d
get-parts_if slm false true hotkey d =
    get-zero_pools slm router_part hotkey d ∙ sym (or_else-none _)
get-parts_if router false true hotkey d = get-zero_pools router router_part hotkey d
get-parts_if system false true hotkey d = get-zero_pools system router_part hotkey d
get-parts_if slm true true hotkey d =
    get-zero_pools slm router_part hotkey (zero_pools (pools_of model) hotkey d)
    ∙ get-zero_pools slm model hotkey d
get-parts_if router true true hotkey d =
    rw
      (
        get-zero_pools router router_part hotkey (zero_pools (pools_of model) hotkey d),
        get-zero_pools router model hotkey d,
      )
      refl
get-parts_if system true true hotkey d =
    rw
      (
        get-zero_pools system router_part hotkey (zero_pools (pools_of model) hotkey d),
        get-zero_pools system model hotkey d,
      )
      (some_once (get "system" d) hotkey)

-- Who is blamed in a pool.
abbrev pub blamed : Pool → Option (Dict String) → Option String
blamed p none = none
blamed p (some zeroed) = get (name_of p) zeroed
