-- ===== src/Python/Text.antt =====
-- Python's slices, repetition and stripping of strings, by characters.
use Prim.Native.Char.{Char, code}
use Prim.Native.String.{String, [], ◌∷◌, ◌++◌, count}
use text.Mathlib.TextLemmas.{nil-append, cons-append, length-nil, length-cons}
use sapl_python.Prelude.{ℕ, zero, suc, ◌≡◌, ap, ◌∙◌, Bool, leb, ◌==◌, ◌&&◌, ◌||◌, if◌then◌else◌}

-- `s[:n]`
abbrev pub take : ℕ → String → String
take zero s = []
take (suc n) [] = []
take (suc n) (c ∷ s) = c ∷ take n s

-- `s[n:]`
abbrev pub skip : ℕ → String → String
skip zero s = s
skip (suc n) [] = []
skip (suc n) (c ∷ s) = skip n s

-- `s * n`
abbrev pub repeat : ℕ → String → String
repeat zero s = []
repeat (suc n) s = s ++ repeat n s

-- `c.isspace()`
abbrev pub is_space : Char → Bool
is_space c =
    let n = code c in
    (leb 9 n && leb n 13)
    || (leb 28 n && leb n 32)
    || n == 133
    || n == 160
    || n == 5760
    || (leb 8192 n && leb n 8202)
    || n == 8232
    || n == 8233
    || n == 8239
    || n == 8287
    || n == 12288

abbrev strip_start : String → String
strip_start [] = []
strip_start (c ∷ s) = let rest = strip_start s in if is_space c then rest else c ∷ s

abbrev in_front : Char → String → String
in_front c [] = if is_space c then [] else c ∷ []
in_front c (d ∷ s) = c ∷ (d ∷ s)

abbrev strip_end : String → String
strip_end [] = []
strip_end (c ∷ s) = in_front c (strip_end s)

-- `s.strip()`
abbrev pub strip : String → String
strip s = strip_end (strip_start s)

pub take-append : (s t : String) → take (count s) (s ++ t) ≡ s
take-append [] t = ap (λ n. take n ([] ++ t)) length-nil
take-append (c ∷ s) t =
    ap (λ n. take n ((c ∷ s) ++ t)) (length-cons c s)
    ∙ ap (λ u. take (suc (count s)) u) (cons-append c s t)
    ∙ ap (c ∷◌) (take-append s t)

pub skip-append : (s t : String) → skip (count s) (s ++ t) ≡ t
skip-append [] t = ap (λ n. skip n ([] ++ t)) length-nil ∙ nil-append t
skip-append (c ∷ s) t =
    ap (λ n. skip n ((c ∷ s) ++ t)) (length-cons c s)
    ∙ ap (λ u. skip (suc (count s)) u) (cons-append c s t)
    ∙ skip-append s t
