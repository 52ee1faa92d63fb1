-- ===== src/Text/Tests.antt =====
-- libc/string.c at concrete inputs.
use sbunix.Base.{[], ◌∷◌}
use sbunix.Text.{Text, memmove, strstr}
use sbunix.Text.Move.{Moved, memmove-Moved}
use sbunix.Text.Search.{IsFirst, strstr-IsFirst}

memmove-Moved_example : Moved (λ a. a) (memmove (λ a. a) 12 10 5) 12 10 0 5
memmove-Moved_example = memmove-Moved (λ a. a) 12 10 5

abbrev hay : Text
hay = 97 ∷ 97 ∷ 98 ∷ []

abbrev needle : Text
needle = 97 ∷ 98 ∷ []

strstr-IsFirst_example : IsFirst hay needle (strstr hay needle)
strstr-IsFirst_example = strstr-IsFirst hay needle
