-- ===== src/HttpPdp/Sse/Lines.antt =====
-- http_pdp_client.py, `_sse_lines`: chunks against the whole text of a response.
use Prim.Native.Char.{Char}
use Prim.Native.String.{String, [], ◌∷◌, ◌++◌, count}
use text.Mathlib.TextLemmas.{nil-append, cons-append, append-nil, append_assoc, length-cons}
use sapl_python.Prelude.{
  ℕ, zero, suc, ◌≡◌, refl, sym, ap, ◌∙◌, ◌≤◌, ◌<◌, Option, none, some, if◌then◌else◌, arith,
  Option-cases, inl, inr,
}
use mathlib.Core.List.{List, [] as []ᴸ, ◌∷◌ as ◌∷ᴸ◌, ◌++◌ as ◌++ᴸ◌}
use sapl_python.HttpPdp.Sse.{is_newline, partition, cut, drain, read_chunks, frames_of, sse_frames}
use sapl_python.Python.Value.{Value}

abbrev pub extend : Char → List String × String → List String × String
extend c ([]ᴸ, left) = ([]ᴸ, c ∷ left)
extend c (line ∷ᴸ lines, left) = ((c ∷ line) ∷ᴸ lines, left)

-- The complete lines of a text, and what stands behind its last line break.
abbrev pub split : String → List String × String
split [] = ([]ᴸ, "")
split (c ∷ s) =
    let (lines, left) = split s in
    if is_newline c then ("" ∷ᴸ lines, left) else extend c (lines, left)

split-cut : (s : String) → split s ≡ cut (partition s) s split
unfolding partition
split-cut [] = refl
split-cut (c ∷ s) = ground (arith, split-cut s)

-- What stands behind the first line is shorter.
partition-shorter : (s line rest : String) → partition s ≡ some (line, rest) → count rest < count s
unfolding partition
partition-shorter [] line rest h = ground arith
partition-shorter (c ∷ s) line rest h = elim (Option-cases (partition s)) [
  | inl n ↦ ground (arith, length-cons c s)
  | inr ((l, r), is) ↦ let shorter = partition-shorter s l r is in ground (arith, length-cons c s)
]

drain-split : (n : ℕ) (s : String) → count s ≤ n → drain n s ≡ split s
unfolding drain
drain-split zero [] h = refl
drain-split zero (c ∷ s) h = ground (arith, length-cons c s)
drain-split (suc n) s h = elim (Option-cases (partition s)) [
  | inl n ↦ ground (arith, split-cut s)
  | inr ((l, r), is) ↦
      let shorter = partition-shorter s l r is in ground (arith, split-cut s, drain-split n r)
]

split-append :
    (s t : String)
    → split (s ++ t) ≡ (
        let (lines, left) = split s in
        let (later, left') = split (left ++ t) in (lines ++ᴸ later, left'))
split-append [] t = refl
split-append (c ∷ s) t =
    ap split (cons-append c s t) ∙ ground (arith, split-append s t, cons-append c (split s).1 t)

-- What is left has no line break.
split-left : (s : String) → (split (split s).1).0 ≡ []ᴸ
split-left [] = refl
split-left (c ∷ s) = ground (arith, split-left s)

abbrev pub joined : List String → String
joined []ᴸ = ""
joined (chunk ∷ᴸ chunks) = chunk ++ joined chunks

read_chunks_from :
    (buffer : String) (chunks : List String)
    → (split buffer).0 ≡ []ᴸ
    → (read_chunks buffer chunks).1 ≡ none
    → (read_chunks buffer chunks).0 ≡ (split (buffer ++ joined chunks)).0
unfolding read_chunks
read_chunks_from buffer []ᴸ whole h = sym whole ∙ ap (λ s. (split s).0) (sym (append-nil buffer))
read_chunks_from buffer (chunk ∷ᴸ chunks) whole h =
    let longer = buffer ++ chunk in
    let left = (split longer).1 in
    let drained = drain-split (count longer) longer (omega arith) in
    let later = read_chunks_from left chunks (split-left longer) in
    ground
      (arith, later, split-append longer (joined chunks), append_assoc buffer chunk (joined chunks))

read_chunks-split :
    (chunks : List String)
    → (read_chunks "" chunks).1 ≡ none
    → (read_chunks "" chunks).0 ≡ (split (joined chunks)).0
read_chunks-split chunks h =
    read_chunks_from "" chunks refl h ∙ ap (λ s. (split s).0) (nil-append (joined chunks))

-- However the text of a response comes in chunks, the frames read of it are those of the complete
-- lines of the text, unless the buffer overflows.
pub sse_frames-split :
    (json_loads : String → Option Value) (chunks : List String)
    → (sse_frames json_loads chunks).1 ≡ none
    → (sse_frames json_loads chunks).0 ≡ frames_of json_loads (split (joined chunks)).0
unfolding sse_frames
sse_frames-split json_loads chunks h = ap (frames_of json_loads) (read_chunks-split chunks h)
