-- ===== src/Base/Dict.antt =====
-- Python's `dict` in its order of insertion, as an association list: a write to a key that is
-- present keeps its place, a new key goes to the end.
use mathlib.Core.Path.{◌≡◌, refl}
use mathlib.Core.List.{List, [], ◌∷◌}
use mathlib.Core.Option.{Option, none, some}
use Prim.Native.String.{String}
use native.Mathlib.Omega.{arith}
use text.Mathlib.Text.{◌==◌ as str_eq}
use text.Mathlib.TextEquality.{eq_iff as text_eq_iff}
use engram_mem.Base.Tests.{if◌then◌else◌}

module _ {ℓ} {V : Type ℓ} where
  -- `d.get(key)`
  unfoldable pub get : List (String × V) → String → Option V
  get [] key = none
  get ((here, value) ∷ rest) key = if str_eq here key then some value else get rest key

  -- `d[key] = value`
  unfoldable pub put : List (String × V) → String → V → List (String × V)
  put [] key value = (key, value) ∷ []
  put ((here, old) ∷ rest) key value =
      let later = put rest key value in
      if str_eq here key then (here, value) ∷ rest else (here, old) ∷ later

  -- `d.pop(key, None)`
  unfoldable pub pop : List (String × V) → String → List (String × V)
  pop [] key = []
  pop ((here, value) ∷ rest) key =
      let later = pop rest key in if str_eq here key then later else (here, value) ∷ later

  pub get-put :
      (d : List (String × V)) (key : String) (value : V) (asked : String)
      → get (put d key value) asked ≡ (if str_eq key asked then some value else get d asked)
  unfolding get put
  get-put [] key value asked = refl
  get-put ((here, old) ∷ rest) key value asked = ground (
    arith,
    get-put rest key value asked,
    text_eq_iff here key,
    text_eq_iff here asked,
    text_eq_iff key asked,
  )

  pub get-pop :
      (d : List (String × V)) (key asked : String)
      → get (pop d key) asked ≡ (if str_eq key asked then none else get d asked)
  unfolding get pop
  get-pop [] key asked = ground arith
  get-pop ((here, value) ∷ rest) key asked = ground (
    arith,
    get-pop rest key asked,
    text_eq_iff here key,
    text_eq_iff here asked,
    text_eq_iff key asked,
  )
