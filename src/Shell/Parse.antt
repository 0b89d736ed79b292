-- ===== src/Shell/Parse.antt =====
-- `parseline` of shlab-handout/tsh.c. A C string is the list of its bytes, without the final 0.
pub mod Words
use splab.Prelude.{
  ℕ, zero, suc, ◌+◌, Bool, true, false, leb, ◌==◌, if◌then◌else◌, List, [], ◌∷◌, Option, none, some,
  length,
}
use splab.Prelude.Fault.{◌>>=◌}

abbrev pub space : ℕ
space = b' '

abbrev pub quote : ℕ
quote = 0x27

abbrev pub ampersand : ℕ
ampersand = b'&'

abbrev pub maxargs : ℕ
maxargs = 128

-- `buf[strlen(buf)-1] = ' '`, a fault on the empty string
abbrev pub replace_last : List ℕ → Option (List ℕ)
replace_last [] = none
replace_last (c ∷ []) = some (space ∷ [])
replace_last (c ∷ d ∷ s) = do s' ← replace_last (d ∷ s); some (c ∷ s')

-- `while (*buf && (*buf == ' ')) buf++`
abbrev pub skip_spaces : List ℕ → List ℕ
skip_spaces [] = []
skip_spaces (c ∷ s) = if c == space then skip_spaces s else c ∷ s

-- `strchr(buf, c)`: what stands before the byte, and what stands behind it.
abbrev pub strchr : ℕ → List ℕ → Option (List ℕ × List ℕ)
strchr c [] = none
strchr c (d ∷ s) =
    let later : Option (List ℕ × List ℕ) = elim (strchr c s) [
      | none ↦ none
      | some (a, b) ↦ some (d ∷ a, b)
    ] in
    if d == c then some ([], s) else later

-- An argument up to its delimiter, which is the closing quote behind an opening one.
abbrev pub next_arg : List ℕ → Option (List ℕ × List ℕ)
next_arg [] = strchr space []
next_arg (c ∷ s) = if c == quote then strchr quote s else strchr space (c ∷ s)

-- The loop over the arguments, from `buf` on; the length of the text is enough fuel.
unfoldable pub args_from : ℕ → List ℕ → List (List ℕ)
args_from zero buf = []
args_from (suc fuel) buf = elim (next_arg (skip_spaces buf)) [
  | none ↦ []
  | some (arg, rest) ↦ arg ∷ args_from fuel rest
]

abbrev pub starts_ampersand : List ℕ → Bool
starts_ampersand [] = false
starts_ampersand (c ∷ s) = c == ampersand

-- The test of the last argument: whether the job runs in the background, and the arguments without
-- the `&`. A line with no argument gives 1.
unfoldable pub split_background : List (List ℕ) → List (List ℕ) × Bool
split_background [] = ([], true)
split_background (arg ∷ []) = if starts_ampersand arg then ([], true) else (arg ∷ [], false)
split_background (arg ∷ next ∷ args) =
    let (args', bg) = split_background (next ∷ args) in (arg ∷ args', bg)

-- `parseline`: `argv` up to its null pointer, and the value that it returns. The array has room for
-- `maxargs` pointers, the null pointer included.
unfoldable pub parseline : List ℕ → Option (List (List ℕ) × Bool)
parseline cmdline = do
  buf ← replace_last cmdline
  let argv = args_from (length buf + 1) buf
  if leb maxargs (length argv) then none else some (split_background argv)
