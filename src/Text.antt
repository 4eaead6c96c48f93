-- ===== src/Text.antt =====
-- The functions of Go's `strings` package that the
-- daemon calls, over texts of code points.
use Prim.Native.Char.{Char, code}
use Prim.Native.String
use pufferd.Common.{
  ℕ, String, Bool, List, [], ◌∷◌, true, false, if◌then◌else◌, nat_beq, ◌==◌, ◌&&◌, leb, ◌+◌,
}

infixr 65 ◌<>◌
-- Concatenation of texts.
abbrev pub ◌<>◌ : String → String → String
s <> t = String.◌++◌ s t

-- A character in front of the first part.
abbrev push_head : Char → List String → List String
push_head c [] = (String.◌∷◌ c String.[]) ∷ []
push_head c (part ∷ parts) = String.◌∷◌ c part ∷ parts

-- `strings.Split(s, sep)` at a separator of one character, by its code.
unfoldable pub split : String → ℕ → List String
split String.[] sep = "" ∷ []
split (String.◌∷◌ c s) sep =
    let rest = split s sep in if nat_beq (code c) sep then "" ∷ rest else push_head c rest

-- `strings.Join`.
unfoldable pub join_with : String → List String → String
join_with sep [] = ""
join_with sep (p ∷ []) = p
join_with sep (p ∷ q ∷ ps) = p <> sep <> join_with sep (q ∷ ps)

-- `strings.HasPrefix`.
unfoldable pub has_prefix : String → String → Bool
has_prefix s String.[] = true
has_prefix String.[] (String.◌∷◌ d t) = false
has_prefix (String.◌∷◌ c s) (String.◌∷◌ d t) = nat_beq (code c) (code d) && has_prefix s t

-- `strings.HasSuffix`.
unfoldable pub has_suffix : String → String → Bool
has_suffix String.[] t = t == ""
has_suffix (String.◌∷◌ c s) t =
    let rest = has_suffix s t in if String.◌∷◌ c s == t then true else rest

-- The text behind as many characters as the second argument has.
abbrev drop_like : String → String → String
drop_like s String.[] = s
drop_like String.[] (String.◌∷◌ d t) = ""
drop_like (String.◌∷◌ c s) (String.◌∷◌ d t) = drop_like s t

-- `strings.TrimPrefix`.
unfoldable pub trim_prefix : String → String → String
unfolding has_prefix
trim_prefix s p = if has_prefix s p then drop_like s p else s

-- `strings.Replace(s, old, new, -1)` for an `old` that is not empty: `skip` counts the characters of
-- a match that are still to be passed over.
replace_from : ℕ → String → String → String → String
unfolding has_prefix
replace_from skip String.[] old new = ""
replace_from ℕ.zero (String.◌∷◌ c s) old new =
    let hit = new <> replace_from (Prim.Native.String.count (drop_like old "x")) s old new in
    let miss = String.◌∷◌ c (replace_from 0 s old new) in
    if has_prefix (String.◌∷◌ c s) old then hit else miss
replace_from (ℕ.suc skip) (String.◌∷◌ c s) old new = replace_from skip s old new

unfoldable pub replace_all : String → String → String → String
unfolding replace_from
replace_all s old new = replace_from 0 s old new

-- The lower case of a letter, as far as it is an ASCII letter: besides the capitals of ASCII it is that of the
-- Kelvin sign and of the capital i with a dot.
abbrev lower_code : ℕ → ℕ
lower_code n =
    if leb b'A' n && leb n b'Z'
    then n + 32
    else if nat_beq n 8490
    then 107
    else if nat_beq n 304
    then 105
    else n

abbrev lower_codes : String → List ℕ
lower_codes String.[] = []
lower_codes (String.◌∷◌ c s) = lower_code (code c) ∷ lower_codes s

abbrev same_codes : List ℕ → List ℕ → Bool
same_codes [] [] = true
same_codes (a ∷ as') (b ∷ bs) = nat_beq a b && same_codes as' bs
same_codes _ _ = false

-- `strings.ToLower(s) == t` for a `t` of small ASCII letters.
unfoldable pub lower_is : String → String → Bool
lower_is s t = same_codes (lower_codes s) (lower_codes t)
