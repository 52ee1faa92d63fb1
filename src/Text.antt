-- ===== src/Text.antt =====
-- libc/string.c, libc/string_ext.c, libc/strings.c and libc/ctype.c. A string is the list of its
-- bytes before the terminator, and a pointer into it the number of bytes before it; `none` is the
-- null pointer. The routines on raw memory work on the bytes by address.
pub mod Move
pub mod Search
mod Tests
use sbunix.Base.{
  ℕ, zero, suc, ◌+◌, ◌-◌, ◌%◌, ◌&&◌, ◌||◌, Bool, true, false, not, Option, none, some, List, [],
  ◌∷◌, ◌++◌, ◌==◌, ltb, leb, if◌then◌else◌, update,
}
use sbunix.Base.Int.{ℤ, pos, negsuc, sub_ℕ}

-- The bytes of a string and of its terminator.
abbrev pub Text : Type 0
Text = List ℕ

abbrev pub Bytes : Type 0
Bytes = ℕ → ℕ

pub strlen : Text → ℕ
strlen [] = 0
strlen (c ∷ s) = strlen s + 1

pub strnlen : Text → ℕ → ℕ
strnlen s zero = 0
strnlen [] (suc n) = 0
strnlen (c ∷ s) (suc n) = strnlen s n + 1

-- `*s` and `s + 1`
abbrev pub head : Text → ℕ
head [] = 0
head (c ∷ s) = c

pub strcmp : Text → Text → ℤ
strcmp [] b = sub_ℕ 0 (head b)
strcmp (x ∷ a) [] = sub_ℕ x 0
strcmp (x ∷ a) (y ∷ b) = let rest = strcmp a b in if x == y then rest else sub_ℕ x y

pub strncmp : Text → Text → ℕ → ℤ
strncmp a b zero = pos 0
strncmp [] b (suc n) = sub_ℕ 0 (head b)
strncmp (x ∷ a) [] (suc n) = sub_ℕ x 0
strncmp (x ∷ a) (y ∷ b) (suc n) = let rest = strncmp a b n in if x == y then rest else sub_ℕ x y

-- One more byte before the pointer.
abbrev pub after : Option ℕ → Option ℕ
after none = none
after (some n) = some (n + 1)

-- The loop of `strchr`; the test of the terminator is its last.
pub strchr : Text → ℕ → Option ℕ
strchr [] c = if c == 0 then some 0 else none
strchr (x ∷ s) c = let rest = strchr s c in if x == c % 256 then some 0 else after rest

-- The loop of `strrchr` from the byte `i` on, with the last place found.
pub strrchr_from : Text → ℕ → ℕ → Option ℕ → Option ℕ
strrchr_from [] i c last = if c == 0 then some i else last
strrchr_from (x ∷ s) i c last = strrchr_from s (i + 1) c (if x == c % 256 then some i else last)

pub strrchr : Text → ℕ → Option ℕ
unfolding strrchr_from
strrchr s c = strrchr_from s 0 c none

-- The loops of `memset` and `memcpy`, `n` rounds from the byte `i` on.
pub memset_from : ℕ → ℕ → Bytes → ℕ → ℕ → Bytes
memset_from zero i m dst c = m
memset_from (suc n) i m dst c = memset_from n (i + 1) (update m (dst + i) (c % 256)) dst c

pub memset : Bytes → ℕ → ℕ → ℕ → Bytes
unfolding memset_from
memset m dst c n = memset_from n 0 m dst c

pub memcpy_from : ℕ → ℕ → Bytes → ℕ → ℕ → Bytes
memcpy_from zero i m dst src = m
memcpy_from (suc n) i m dst src = memcpy_from n (i + 1) (update m (dst + i) (m (src + i))) dst src

pub memcpy : Bytes → ℕ → ℕ → ℕ → Bytes
unfolding memcpy_from
memcpy m dst src n = memcpy_from n 0 m dst src

-- The loop of `memmove` from the last byte down to the first.
pub copy_down : ℕ → Bytes → ℕ → ℕ → Bytes
copy_down zero m dst src = m
copy_down (suc i) m dst src = copy_down i (update m (dst + i) (m (src + i))) dst src

pub memmove : Bytes → ℕ → ℕ → ℕ → Bytes
unfolding memcpy_from copy_down
memmove m dst src n = if ltb dst src then memcpy_from n 0 m dst src else copy_down n m dst src

pub memcmp_from : ℕ → ℕ → Bytes → ℕ → ℕ → ℤ
memcmp_from zero i m a b = pos 0
memcmp_from (suc n) i m a b =
    let rest = memcmp_from n (i + 1) m a b in
    if m (a + i) == m (b + i) then rest else sub_ℕ (m (a + i)) (m (b + i))

pub memcmp : Bytes → ℕ → ℕ → ℕ → ℤ
unfolding memcmp_from
memcmp m a b n = memcmp_from n 0 m a b

pub memchr_from : ℕ → ℕ → Bytes → ℕ → ℕ → Option ℕ
memchr_from zero i m s c = none
memchr_from (suc n) i m s c =
    let rest = memchr_from n (i + 1) m s c in if m (s + i) == c % 256 then some (s + i) else rest

pub memchr : Bytes → ℕ → ℕ → ℕ → Option ℕ
unfolding memchr_from
memchr m s c n = memchr_from n 0 m s c

-- The inner loop of `strstr`: does the rest of the text begin with the needle?
pub begins : Text → Text → Bool
begins h [] = true
begins [] (y ∷ n) = false
begins (x ∷ h) (y ∷ n) = (x == y) && begins h n

pub strstr : Text → Text → Option ℕ
unfolding begins
strstr [] [] = some 0
strstr [] (y ∷ n) = none
strstr (x ∷ h) n = let rest = strstr h n in if begins (x ∷ h) n then some 0 else after rest

-- The walk over `accept` or `reject`.
abbrev pub among : ℕ → Text → Bool
among c [] = false
among c (a ∷ r) = (c == a) || among c r

pub strpbrk : Text → Text → Option ℕ
strpbrk [] accept = none
strpbrk (c ∷ s) accept =
    let rest = strpbrk s accept in if among c accept then some 0 else after rest

pub strspn : Text → Text → ℕ
strspn [] accept = 0
strspn (c ∷ s) accept = let rest = strspn s accept in if among c accept then rest + 1 else 0

pub strcspn : Text → Text → ℕ
strcspn [] reject = 0
strcspn (c ∷ s) reject = let rest = strcspn s reject in if among c reject then 0 else rest + 1

-- `s + n`
abbrev pub skip : ℕ → Text → Text
skip zero s = s
skip (suc n) [] = []
skip (suc n) (c ∷ s) = skip n s

abbrev pub prefix : ℕ → Text → Text
prefix zero s = []
prefix (suc n) [] = []
prefix (suc n) (c ∷ s) = c ∷ prefix n s

-- The token and `*saveptr`, both as the strings that they point to. `s` is the argument, or
-- `*saveptr` when that is null; the byte after the token becomes its terminator.
pub strtok_r : Option Text → Text → Option Text × Option Text
unfolding strspn strcspn
strtok_r none delim = (none, none)
strtok_r (some s) delim = elim (skip (strspn s delim) s) [
  | [] ↦ (none, none)
  | (c ∷ r) ↦
      let tok = prefix (strcspn (c ∷ r) delim) (c ∷ r) in
      elim (skip (strcspn (c ∷ r) delim) (c ∷ r)) [
        | [] ↦ (some tok, none)
        | (_ ∷ more) ↦ (some tok, some more)
      ]
]

-- libc/ctype.c, on the values from 0 on.
abbrev pub isdigit : ℕ → Bool
isdigit c = leb 48 c && leb c 57

abbrev pub isupper : ℕ → Bool
isupper c = leb 65 c && leb c 90

abbrev pub islower : ℕ → Bool
islower c = leb 97 c && leb c 122

abbrev pub isalpha : ℕ → Bool
isalpha c = isupper c || islower c

abbrev pub isalnum : ℕ → Bool
isalnum c = isalpha c || isdigit c

abbrev pub isxdigit : ℕ → Bool
isxdigit c = isdigit c || (leb 97 c && leb c 102) || (leb 65 c && leb c 70)

abbrev pub isspace : ℕ → Bool
isspace c = (c == 32) || (c == 9) || (c == 10) || (c == 11) || (c == 12) || (c == 13)

abbrev pub iscntrl : ℕ → Bool
iscntrl c = ltb c 32 || (c == 127)

abbrev pub isprint : ℕ → Bool
isprint c = leb 32 c && ltb c 127

abbrev pub isgraph : ℕ → Bool
isgraph c = ltb 32 c && ltb c 127

abbrev pub ispunct : ℕ → Bool
ispunct c = isprint c && not (isalnum c) && not (c == 32)

abbrev pub tolower : ℕ → ℕ
tolower c = if isupper c then c + 32 else c

abbrev pub toupper : ℕ → ℕ
toupper c = if islower c then c - 32 else c

pub strcasecmp : Text → Text → ℤ
strcasecmp [] b = sub_ℕ 0 (tolower (head b))
strcasecmp (x ∷ a) [] = sub_ℕ (tolower x) 0
strcasecmp (x ∷ a) (y ∷ b) =
    let rest = strcasecmp a b in
    if tolower x == tolower y then rest else sub_ℕ (tolower x) (tolower y)

-- The string that `dst` points to afterwards, for the routines that build one.
pub strcpy : Text → Text
strcpy [] = []
strcpy (c ∷ s) = c ∷ strcpy s

-- The `n` bytes from `dst` on; the rest is zeroed.
pub strncpy : Text → ℕ → List ℕ
strncpy s zero = []
strncpy [] (suc n) = 0 ∷ strncpy [] n
strncpy (c ∷ s) (suc n) = c ∷ strncpy s n

pub strcat : Text → Text → Text
unfolding strcpy
strcat [] s = strcpy s
strcat (d ∷ t) s = d ∷ strcat t s

pub strncat : Text → Text → ℕ → Text
strncat [] s n = prefix n s
strncat (d ∷ t) s n = d ∷ strncat t s n

-- libc/string_ext.c. The field, and the string that `*stringp` points to afterwards.
pub strsep : Option Text → Text → Option Text × Option Text
unfolding strcspn
strsep none delim = (none, none)
strsep (some s) delim = elim (skip (strcspn s delim) s) [
  | [] ↦ (some s, none)
  | (_ ∷ more) ↦ (some (prefix (strcspn s delim) s), some more)
]

pub strchrnul : Text → ℕ → ℕ
unfolding strlen
strchrnul [] c = 0
strchrnul (x ∷ s) c =
    let rest = strchrnul s c in
    if c % 256 == 0 then strlen (x ∷ s) else (if x == c % 256 then 0 else rest + 1)

-- The loop of `memrchr`, from the last byte down.
pub memrchr : Bytes → ℕ → ℕ → ℕ → Option ℕ
memrchr m s c zero = none
memrchr m s c (suc n) =
    let rest = memrchr m s c n in if m (s + n) == c % 256 then some (s + n) else rest

-- The number of bytes before the pointer that `stpncpy` returns.
pub stpncpy : Text → ℕ → ℕ
stpncpy s zero = 0
stpncpy [] (suc n) = 0
stpncpy (c ∷ s) (suc n) = stpncpy s n + 1

pub strncasecmp : Text → Text → ℕ → ℤ
strncasecmp a b zero = pos 0
strncasecmp [] b (suc n) = sub_ℕ 0 (tolower (head b))
strncasecmp (x ∷ a) [] (suc n) = sub_ℕ (tolower x) 0
strncasecmp (x ∷ a) (y ∷ b) (suc n) =
    let rest = strncasecmp a b n in
    if tolower x == tolower y then rest else sub_ℕ (tolower x) (tolower y)

abbrev pub is_zero : ℤ → Bool
is_zero (pos zero) = true
is_zero (pos (suc n)) = false
is_zero (negsuc n) = false

pub strcasestr : Text → Text → Option ℕ
unfolding strncasecmp strlen
strcasestr s [] = some 0
strcasestr [] (y ∷ n) = none
strcasestr (x ∷ s) (y ∷ n) =
    let rest = strcasestr s (y ∷ n) in
    if is_zero (strncasecmp (x ∷ s) (y ∷ n) (strlen (y ∷ n))) then some 0 else after rest
