-- ===== src/Base/Text.antt =====
-- The functions of Go's package `strings` that the program calls.
use Prim.Native.Char.{code}
use Prim.Native.String.{String, ◌++◌ as ◌<>◌}
use neural_autoscaler.Base.{
  ℕ, ◌≡◌, refl, List, [], ◌∷◌, Bool, ◌&&◌, ◌||◌, ◌==◌, leb, eqb, if◌then◌else◌,
}

-- `unicode.IsSpace`
unfoldable pub is_space : ℕ → Bool
is_space c =
    leb 0x09 c && leb c 0x0d
    || eqb c 0x20
    || eqb c 0x85
    || eqb c 0xa0
    || eqb c 0x1680
    || leb 0x2000 c && leb c 0x200a
    || eqb c 0x2028
    || eqb c 0x2029
    || eqb c 0x202f
    || eqb c 0x205f
    || eqb c 0x3000

unfoldable pub trim_left : String → String
unfolding is_space
trim_left String.[] = String.[]
trim_left (String.◌∷◌ c s) = if is_space (code c) then trim_left s else String.◌∷◌ c s

unfoldable pub trim_right : String → String
unfolding is_space
trim_right String.[] = String.[]
trim_right (String.◌∷◌ c s) =
    let rest = trim_right s in
    if is_space (code c) && rest == "" then String.[] else String.◌∷◌ c rest

unfoldable pub trim_space : String → String
unfolding trim_left trim_right
trim_space s = trim_right (trim_left s)

-- `strings.TrimRight` of one character.
abbrev pub trim_right_of : ℕ → String → String
trim_right_of c String.[] = String.[]
trim_right_of c (String.◌∷◌ d s) =
    let rest = trim_right_of c s in
    if eqb (code d) c && rest == "" then String.[] else String.◌∷◌ d rest

-- `strings.Join`
abbrev pub join : String → List String → String
join gap [] = ""
join gap (s ∷ []) = s
join gap (s ∷ t ∷ rest) = s <> (gap <> join gap (t ∷ rest))

trim_space_test : trim_space " a b  " ≡ "a b"
unfolding trim_space
trim_space_test = refl
