-- ===== src/Base/Text/Patterns.antt =====
-- The regular expressions of the program, `^[..]+$` and the like, under `re.match`: a `$` also stands
-- before a newline that ends the text.
use Prim.Native.Nat.{ℕ, zero, suc}
use Prim.Native.Char.{code}
use Prim.Native.String.{String}
use mathlib.Core.Path.{◌≡◌, refl}
use mathlib.Core.Bool.{Bool, true, false, ◌&&◌, ◌||◌}
use native.Mathlib.Omega.{arith}
use microtensor_subnet.Base.Tests.{eqb, if◌then◌else◌}
use microtensor_subnet.Base.Text.{is_blank, between, every}

-- [0-9a-f]
abbrev pub is_hex : ℕ → Bool
is_hex n = between 48 57 n || between 97 102 n

-- [a-z0-9]
abbrev pub is_lower_alnum : ℕ → Bool
is_lower_alnum n = between 48 57 n || between 97 122 n

-- [A-Za-z0-9]
abbrev pub is_alnum : ℕ → Bool
is_alnum n = is_lower_alnum n || between 65 90 n

abbrev pub name_char : ℕ → Bool
name_char n = is_lower_alnum n || eqb n 45

abbrev pub arena_char : ℕ → Bool
arena_char n = is_lower_alnum n || eqb n 95

abbrev pub user_char : ℕ → Bool
user_char n = is_alnum n || (eqb n 95 || (eqb n 46 || eqb n 45))

-- `$`
abbrev pub at_end : String → Bool
at_end String.[] = true
at_end (String.◌∷◌ c s) = eqb (code c) 10 && is_blank s

-- [..]*$
unfoldable pub any_number : (ℕ → Bool) → String → Bool
any_number p String.[] = true
any_number p (String.◌∷◌ c s) =
    let rest = any_number p s in if p (code c) then rest else at_end (String.◌∷◌ c s)

-- [..]{0,n}$
unfoldable pub at_most : (ℕ → Bool) → ℕ → String → Bool
at_most p n String.[] = true
at_most p zero (String.◌∷◌ c s) = at_end (String.◌∷◌ c s)
at_most p (suc n) (String.◌∷◌ c s) =
    let rest = at_most p n s in if p (code c) then rest else at_end (String.◌∷◌ c s)

-- [..]{n} and then the rest of the pattern
unfoldable pub repeated : (ℕ → Bool) → ℕ → (String → Bool) → String → Bool
repeated p zero rest s = rest s
repeated p (suc n) rest String.[] = false
repeated p (suc n) rest (String.◌∷◌ c s) = p (code c) && repeated p n rest s

-- _HEX, [0-9a-f]+
unfoldable pub hex_text : String → Bool
unfolding any_number repeated
hex_text s = repeated is_hex 1 (any_number is_hex) s

-- _NAME, [a-z0-9][a-z0-9-]{0,31}
unfoldable pub name_text : String → Bool
unfolding at_most repeated
name_text s = repeated is_lower_alnum 1 (at_most name_char 31) s

-- _ARENA, [a-z0-9][a-z0-9_]{0,15}
unfoldable pub arena_text : String → Bool
unfolding at_most repeated
arena_text s = repeated is_lower_alnum 1 (at_most arena_char 15) s

-- _HF_USER, [A-Za-z0-9][A-Za-z0-9_.-]{0,39}
unfoldable pub hf_user_text : String → Bool
unfolding at_most repeated
hf_user_text s = repeated is_alnum 1 (at_most user_char 39) s

-- _GIT_SHA, [0-9a-f]{40}
unfoldable pub git_sha_text : String → Bool
unfolding repeated
git_sha_text s = repeated is_hex 40 at_end s

-- _DIGEST, [0-9a-f]{64}
unfoldable pub digest_text : String → Bool
unfolding repeated
digest_text s = repeated is_hex 64 at_end s

-- _SALT, [0-9a-f]{16,64}
unfoldable pub salt_text : String → Bool
unfolding repeated at_most
salt_text s = repeated is_hex 16 (at_most is_hex 48) s

-- A class p within a class q, both for the characters of a pattern and for a newline at its end.
module _ (p q : ℕ → Bool) (within : (n : ℕ) → p n ≡ true → q n ≡ true) (newline : q 10 ≡ true) where
  pub at_end-every : (s : String) → at_end s ≡ true → every q s ≡ true
  at_end-every String.[] h = refl
  at_end-every (String.◌∷◌ c String.[]) h = ground (arith, newline)
  at_end-every (String.◌∷◌ c (String.◌∷◌ d s)) h = ground arith

  pub any_number-every : (s : String) → any_number p s ≡ true → every q s ≡ true
  unfolding any_number
  any_number-every String.[] h = refl
  any_number-every (String.◌∷◌ c s) h =
      ground (arith, any_number-every s, at_end-every (String.◌∷◌ c s), within (code c))

  pub at_most-every : (n : ℕ) (s : String) → at_most p n s ≡ true → every q s ≡ true
  unfolding at_most
  at_most-every n String.[] h = refl
  at_most-every zero (String.◌∷◌ c s) h = at_end-every (String.◌∷◌ c s) h
  at_most-every (suc n) (String.◌∷◌ c s) h =
      ground (arith, at_most-every n s, at_end-every (String.◌∷◌ c s), within (code c))

  pub repeated-every :
      (n : ℕ) (rest : String → Bool) (s : String)
      → ((t : String) → rest t ≡ true → every q t ≡ true)
      → repeated p n rest s ≡ true
      → every q s ≡ true
  unfolding repeated
  repeated-every zero rest s then_all h = then_all s h
  repeated-every (suc n) rest String.[] then_all h = refl
  repeated-every (suc n) rest (String.◌∷◌ c s) then_all h =
      ground (arith, repeated-every n rest s then_all, within (code c))

-- What a text that matches is made of, where q holds of the characters of the pattern and of newlines.
module _ (q : ℕ → Bool) (newline : q 10 ≡ true) where
  pub hex_text-every :
      ((n : ℕ) → is_hex n ≡ true → q n ≡ true) → (s : String) → hex_text s ≡ true → every q s ≡ true
  unfolding hex_text
  hex_text-every within s h =
      repeated-every is_hex q within newline 1 (any_number is_hex) s
        (any_number-every is_hex q within newline) h

  pub name_text-every :
      ((n : ℕ) → name_char n ≡ true → q n ≡ true)
      → (s : String) → name_text s ≡ true
      → every q s ≡ true
  unfolding name_text
  name_text-every within s h =
      repeated-every is_lower_alnum q (λ n k. within n (ground arith)) newline 1
        (at_most name_char 31) s (at_most-every name_char q within newline 31) h

  pub arena_text-every :
      ((n : ℕ) → arena_char n ≡ true → q n ≡ true)
      → (s : String) → arena_text s ≡ true
      → every q s ≡ true
  unfolding arena_text
  arena_text-every within s h =
      repeated-every is_lower_alnum q (λ n k. within n (ground arith)) newline 1
        (at_most arena_char 15) s (at_most-every arena_char q within newline 15) h

  pub hf_user_text-every :
      ((n : ℕ) → user_char n ≡ true → q n ≡ true)
      → (s : String) → hf_user_text s ≡ true
      → every q s ≡ true
  unfolding hf_user_text
  hf_user_text-every within s h =
      repeated-every is_alnum q (λ n k. within n (ground arith)) newline 1 (at_most user_char 39) s
        (at_most-every user_char q within newline 39) h

  pub git_sha_text-every :
      ((n : ℕ) → is_hex n ≡ true → q n ≡ true)
      → (s : String) → git_sha_text s ≡ true
      → every q s ≡ true
  unfolding git_sha_text
  git_sha_text-every within s h =
      repeated-every is_hex q within newline 40 at_end s (at_end-every is_hex q within newline) h

  pub digest_text-every :
      ((n : ℕ) → is_hex n ≡ true → q n ≡ true)
      → (s : String) → digest_text s ≡ true
      → every q s ≡ true
  unfolding digest_text
  digest_text-every within s h =
      repeated-every is_hex q within newline 64 at_end s (at_end-every is_hex q within newline) h
