-- ===== src/Base/Texts.antt =====
-- Python's methods of `str` that the text library has under no name.
use Prim.Native.Nat.{ℕ, zero, suc, ◌+◌, ◌-◌}
use Prim.Native.Char.{code}
use native.Mathlib.Omega.{arith}
use text.Mathlib.TextLemmas.{nil-append, cons-append}
use mathlib.Core.Path.{◌≡◌, refl, ap}
use Prim.Native.String.{String, len, slice, ◌++◌ as join}
use mathlib.Core.Bool.{Bool, ◌&&◌, ◌||◌}
use mathlib.Core.List.{List, [], ◌∷◌}
use mathlib.Core.Option.{Option, none, some}
use text.Mathlib.Text.{◌==◌ as str_eq}
use engram_mem.Base.Tests.{leb, ◌==◌, if◌then◌else◌}

-- `s.endswith(t)`
unfoldable pub ends_with : String → String → Bool
ends_with s t = str_eq (slice s (len s - len t) (len s)) t

-- `list(s)`: the characters, one text each.
unfoldable pub characters : String → List String
characters String.[] = []
characters (String.◌∷◌ c s) = String.◌∷◌ c String.[] ∷ characters s

-- `len(s)`: Python counts code points, `len` here counts bytes.
unfoldable pub size : String → ℕ
size String.[] = 0
size (String.◌∷◌ c s) = suc (size s)

-- `s[:n]`
unfoldable pub prefix : ℕ → String → String
prefix zero s = ""
prefix (suc n) String.[] = ""
prefix (suc n) (String.◌∷◌ c s) = String.◌∷◌ c (prefix n s)

-- `c.isspace()` of a code point.
unfoldable pub is_space : ℕ → Bool
is_space c =
    leb 9 c && leb c 13
    || leb 28 c && leb c 32
    || c == 133
    || c == 160
    || c == 5760
    || leb 8192 c && leb c 8202
    || c == 8232
    || c == 8233
    || c == 8239
    || c == 8287
    || c == 12288

unfoldable pub strip_start : String → String
strip_start String.[] = ""
strip_start (String.◌∷◌ c s) =
    let rest = strip_start s in if is_space (code c) then rest else String.◌∷◌ c s

unfoldable pub strip_end : String → String
strip_end String.[] = ""
strip_end (String.◌∷◌ c s) =
    let rest = strip_end s in if is_space (code c) && str_eq rest "" then "" else String.◌∷◌ c rest

-- `s.strip()`
unfoldable pub strip : String → String
unfolding strip_start strip_end is_space
strip s = strip_end (strip_start s)

-- `s.split(":", 1)`: the parts before and after the first colon, if there is one.
unfoldable pub split_colon : String → Option (String × String)
split_colon String.[] = none
split_colon (String.◌∷◌ c s) =
    let rest = split_colon s in
    if code c == 58
    then some ("", s)
    else elim rest [ none ↦ none | some (left, right) ↦ some (String.◌∷◌ c left, right) ]

strip_sides : strip " a b\n" ≡ "a b"
unfolding strip
strip_sides = refl

split_first : split_colon "a:b:c" ≡ some ("a", "b:c")
unfolding split_colon
split_first = refl

-- The size of a text that is joined of two.
pub size-append : (s t : String) → size (join s t) ≡ size s + size t
unfolding size
size-append String.[] t = omega (arith, ap size (nil-append t))
size-append (String.◌∷◌ c s) t = omega (arith, ap size (cons-append c s t), size-append s t)
