-- ===== src/Shell/Parse/Words.antt =====
-- `parseline` gives back the words that a command line was put together from.
use splab.Prelude.{
  ℕ, zero, suc, ◌+◌, ◌<◌, ◌≤◌, ◌≡◌, ◌≢◌, true, false, leb, if◌then◌else◌, List, [], ◌∷◌, ◌++◌, some,
  arith, refl, ap, ◌∙◌, All, length, length-append, append_assoc,
}
use splab.Shell.Parse.{
  space, quote, maxargs, replace_last, skip_spaces, strchr, next_arg, args_from, starts_ampersand,
  split_background, parseline,
}

-- A word: not empty, without spaces, and not opened by a quote.
abbrev pub IsWord : List ℕ → Type 0
IsWord [] = ⊥
IsWord (c ∷ w) = (c ≢ quote) × (c ≢ space) × All (λ d. d ≢ space) w

-- Each word with a space behind it.
abbrev spaced : List (List ℕ) → List ℕ
spaced [] = []
spaced (w ∷ ws) = w ++ (space ∷ spaced ws)

-- The words with a space between any two.
abbrev pub unwords : List (List ℕ) → List ℕ
unwords [] = []
unwords (w ∷ []) = w
unwords (w ∷ v ∷ ws) = w ++ (space ∷ unwords (v ∷ ws))

strchr-word :
    (w rest : List ℕ) → All (λ d. d ≢ space) w → strchr space (w ++ (space ∷ rest)) ≡ some (w, rest)
strchr-word [] rest h = refl
strchr-word (c ∷ w) rest h = ground (arith, strchr-word w rest h.1)

next_arg-word :
    (w rest : List ℕ) → IsWord w → next_arg (skip_spaces (w ++ (space ∷ rest))) ≡ some (w, rest)
next_arg-word [] rest h = absurd h
next_arg-word (c ∷ w) rest h = ground (arith, strchr-word w rest h.2)

args_from-spaced :
    (fuel : ℕ) (ws : List (List ℕ))
    → All IsWord ws
    → length ws ≤ fuel
    → args_from fuel (spaced ws) ≡ ws
unfolding args_from
args_from-spaced zero [] h l = refl
args_from-spaced zero (w ∷ ws) h l = absurd (omega arith)
args_from-spaced (suc fuel) [] h l = refl
args_from-spaced (suc fuel) (w ∷ ws) h l =
    rw (next_arg-word w (spaced ws) h.0, args_from)
      (rw (args_from-spaced fuel ws h.1 (omega arith)))

length-le-spaced : (ws : List (List ℕ)) → length ws ≤ length (spaced ws)
length-le-spaced [] = omega arith
length-le-spaced (w ∷ ws) = omega (arith, length-le-spaced ws, length-append w (space ∷ spaced ws))

pub replace_last-append :
    (s : List ℕ) (c : ℕ) → replace_last (s ++ (c ∷ [])) ≡ some (s ++ (space ∷ []))
replace_last-append [] c = refl
replace_last-append (a ∷ []) c = refl
replace_last-append (a ∷ b ∷ s) c = rw (replace_last-append (b ∷ s) c)

unwords-spaced :
    (w : List ℕ) (ws : List (List ℕ)) → unwords (w ∷ ws) ++ (space ∷ []) ≡ spaced (w ∷ ws)
unwords-spaced w [] = refl
unwords-spaced w (v ∷ ws) =
    append_assoc w (space ∷ unwords (v ∷ ws)) (space ∷ [])
    ∙ ap (λ s. w ++ (space ∷ s)) (unwords-spaced v ws)

split_background-last :
    (ws : List (List ℕ)) (w : List ℕ)
    → split_background (ws ++ (w ∷ []))
      ≡ (if starts_ampersand w then (ws, true) else (ws ++ (w ∷ []), false))
unfolding split_background
split_background-last [] w = refl
split_background-last (v ∷ []) w = ground arith
split_background-last (v ∷ u ∷ ws) w = ground (arith, split_background-last (u ∷ ws) w)

parseline-unwords :
    (ws : List (List ℕ)) (newline : ℕ)
    → All IsWord ws
    → ws ≢ []
    → length ws < maxargs
    → parseline (unwords ws ++ (newline ∷ [])) ≡ some (split_background ws)
unfolding parseline
parseline-unwords [] newline h n l = absurd (n refl)
parseline-unwords (w ∷ ws) newline h n l =
    let all = w ∷ ws in
    let args =
      args_from-spaced (length (spaced all) + 1) all h (omega (arith, length-le-spaced all)) in
    let room : leb maxargs (length all) ≡ false = ground arith in
    rw (replace_last-append (unwords all) newline) (rw (unwords-spaced w ws) (rw args (rw room)))

append-ne-nil : (ws : List (List ℕ)) (w : List ℕ) → ws ++ (w ∷ []) ≢ []
append-ne-nil [] w e = cc
append-ne-nil (v ∷ ws) w e = cc

-- A line of fewer than 128 words is parsed into its words, for a foreground job; but if the last
-- word begins with `&` it is taken away, and the job is a background job.
pub parseline_words :
    (ws : List (List ℕ)) (w : List ℕ) (newline : ℕ)
    → All IsWord (ws ++ (w ∷ []))
    → length (ws ++ (w ∷ [])) < maxargs
    → parseline (unwords (ws ++ (w ∷ [])) ++ (newline ∷ []))
      ≡ some (if starts_ampersand w then (ws, true) else (ws ++ (w ∷ []), false))
parseline_words ws w newline h l =
    parseline-unwords (ws ++ (w ∷ [])) newline h (append-ne-nil ws w) l
    ∙ ap some (split_background-last ws w)
