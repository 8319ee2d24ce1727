-- ===== src/Witnesses/Plugins.antt =====
-- Two plugins that count their calls, of which the second refuses, and a third that is not asked.
use gott.Common.{ℕ, ◌+◌, true, false, [], ◌∷◌, Option, none, some, Bytes}
use gott.Plugins.{Decides, ask}
use gott.Plugins.Order.{Asked, ask-Asked}

-- A plugin is its hook here.
abbrev hook : Option (Decides Bytes ℕ) → Option (Decides Bytes ℕ)
hook p = p

abbrev agreeing : Option (Decides Bytes ℕ)
agreeing = some λ a n. (true, n + 1)

abbrev refusing : Option (Decides Bytes ℕ)
refusing = some λ a n. (false, n + 1)

ask-Asked_example :
    Asked hook []
      (agreeing ∷ none ∷ refusing ∷ agreeing ∷ [])
      0
      (ask hook (agreeing ∷ none ∷ refusing ∷ agreeing ∷ []) [] 0)
ask-Asked_example = ask-Asked hook [] (agreeing ∷ none ∷ refusing ∷ agreeing ∷ []) 0
