-- ===== src/Proxy/Relay/Fields.antt =====
-- The lines that proxylab-handout/proxy.c takes a declared length from.
use splab.Prelude.{
  ℕ, ◌+◌, ◌-◌, ◌*◌, ◌^◌, ◌<◌, ◌≡◌, refl, true, false, ◌==◌, List, [], ◌∷◌, ◌++◌, some, Bool-cases,
  inl, inr, All, arith,
}
use splab.Prelude.Int.{ℤ, pos}
use splab.Proxy.Stream.{newline}
use splab.Proxy.Text.{
  starts_with_nocase, lower, find_char, digits_from, atoi, is_digit, is_space, to_int_fits,
}
use splab.Proxy.Relay.{declared, is_content_length, content_length}

-- The number that a list of digits stands for
abbrev pub value_from : ℕ → List ℕ → ℕ
value_from n [] = n
value_from n (c ∷ s) = value_from (n * 10 + (c - b'0')) s

abbrev pub AreDigits : List ℕ → Type 0
AreDigits = All (λ c. is_digit c ≡ true)

digits_from_value :
    (n : ℕ) (digits : List ℕ) (c : ℕ) (stale : List ℕ)
    → AreDigits digits
    → is_digit c ≡ false
    → value_from n digits < 2 ^ 31
    → digits_from n (digits ++ c ∷ stale) ≡ some (value_from n digits)
unfolding digits_from
digits_from_value n [] c stale h e l = rw e (to_int_fits n l)
digits_from_value n (d ∷ digits) c stale h e l =
    rw h.0 (digits_from_value (n * 10 + (d - b'0')) digits c stale h.1 e l)

pub atoi_value :
    (d : ℕ) (digits : List ℕ) (c : ℕ) (stale : List ℕ)
    → AreDigits (d ∷ digits)
    → is_digit c ≡ false
    → value_from 0 (d ∷ digits) < 2 ^ 31
    → atoi (d ∷ digits ++ c ∷ stale) ≡ some (pos (value_from 0 (d ∷ digits)))
unfolding atoi
atoi_value d digits c stale h e l =
    let digit = h.0 in
    let no_space : is_space d ≡ false = ground arith in
    let no_minus : (d == b'-') ≡ false = ground arith in
    let no_plus : (d == b'+') ≡ false = ground arith in
    rw (no_space, no_minus, no_plus, digits_from_value 0 (d ∷ digits) c stale h e l) refl

-- The first of the bytes `c`, before the end of the string
pub find_char_first :
    (c : ℕ) (before behind : List ℕ)
    → All (λ d. ((d == c) ≡ false) × ((d == 0) ≡ false)) before
    → find_char c (before ++ c ∷ behind) ≡ some (before, behind)
unfolding find_char
find_char_first c [] behind h = let found : (c == c) ≡ true = ground arith in rw found refl
find_char_first c (d ∷ before) behind h =
    rw (h.0.0, h.0.1, find_char_first c before behind h.1) refl

starts_with_nocase_more :
    (p s more : List ℕ) → starts_with_nocase p s ≡ true → starts_with_nocase p (s ++ more) ≡ true
starts_with_nocase_more [] s more e = refl
starts_with_nocase_more (c ∷ p) [] more e = cc
starts_with_nocase_more (c ∷ p) (d ∷ s) more e = elim (Bool-cases (lower d == c)) [
  | inl f ↦ rw f (starts_with_nocase_more p s more (rw f at e))
  | inr f ↦ let never = rw f at e in cc
]

starts_with_nocase_line :
    (p text stale : List ℕ)
    → All (λ c. (newline == c) ≡ false) p
    → starts_with_nocase p (text ++ newline ∷ stale) ≡ starts_with_nocase p (text ++ newline ∷ [])
starts_with_nocase_line [] text stale h = refl
starts_with_nocase_line (c ∷ p) [] stale h = rw h.0 refl
starts_with_nocase_line (c ∷ p) (d ∷ text) stale h =
    rw (starts_with_nocase_line p text stale h.1) refl

is_content_length-line :
    (text stale : List ℕ)
    → is_content_length (text ++ newline ∷ stale) ≡ is_content_length (text ++ newline ∷ [])
unfolding is_content_length
is_content_length-line text stale = starts_with_nocase_line content_length text stale (ground arith)

is_content_length-more :
    (name more : List ℕ) → is_content_length name ≡ true → is_content_length (name ++ more) ≡ true
unfolding is_content_length
is_content_length-more = starts_with_nocase_more content_length

-- A line that does not start with Content-Length, in any case of its letters, keeps the length.
pub declared_other :
    (content : ℤ) (text stale : List ℕ)
    → is_content_length (text ++ newline ∷ []) ≡ false
    → declared content (text ++ newline ∷ stale) ≡ some content
unfolding declared
declared_other content text stale e = rw (is_content_length-line text stale, e) refl

-- A name with Content-Length at its start, in any case of its letters, then one space and decimal
-- digits give the number of the digits, which an `int` must hold, whatever the buffer has behind the
-- line.
pub declared_number :
    (content : ℤ) (name : List ℕ) (d : ℕ) (digits stale : List ℕ)
    → is_content_length name ≡ true
    → All (λ c. ((c == b' ') ≡ false) × ((c == 0) ≡ false)) name
    → AreDigits (d ∷ digits)
    → value_from 0 (d ∷ digits) < 2 ^ 31
    → declared content (name ++ (b' ' ∷ (d ∷ (digits ++ (b'\r' ∷ stale)))))
      ≡ some (pos (value_from 0 (d ∷ digits)))
unfolding declared
declared_number content name d digits stale e h k l =
    let value = d ∷ (digits ++ (b'\r' ∷ stale)) in
    rw (is_content_length-more name (b' ' ∷ value) e, find_char_first b' ' name value h)
      (atoi_value d digits b'\r' stale k refl l)
