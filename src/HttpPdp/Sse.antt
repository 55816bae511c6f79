-- ===== src/HttpPdp/Sse.antt =====
-- http_pdp_client.py, `_sse_lines`: from the chunks of a response's text to the JSON of its frames.
pub mod Lines
use Prim.Native.Char.{Char, code}
use Prim.Native.String.{String, [], ◌∷◌, ◌++◌, count}
use sapl_python.Prelude.{
  ℕ, zero, suc, Bool, true, false, Option, none, some, ltb, leb, ◌==◌, ◌||◌, ◌&&◌, str_eq,
  if◌then◌else◌,
}
use mathlib.Core.List.{List, [] as []ᴸ, ◌∷◌ as ◌∷ᴸ◌, ◌++◌ as ◌++ᴸ◌}
use sapl_python.Python.Text.{take, skip, strip}
use sapl_python.Python.Value.{Value}
use sapl_python.Python.Exception.{Exc, other}

abbrev pub max_sse_buffer : ℕ
max_sse_buffer = 65536

abbrev pub is_newline : Char → Bool
is_newline c = code c == 10

abbrev pub before : Char → Option (String × String) → Option (String × String)
before c none = none
before c (some (line, rest)) = some (c ∷ line, rest)

-- `buffer.partition("\n")`, with `none` where there is no line break.
unfoldable pub partition : String → Option (String × String)
partition [] = none
partition (c ∷ s) =
    let later = before c (partition s) in if is_newline c then some ("", s) else later

abbrev pub cut :
    Option (String × String) → String → (String → List String × String) → List String × String
cut none buffer again = ([]ᴸ, buffer)
cut (some (line, rest)) buffer again = let (ls, b) = again rest in (line ∷ᴸ ls, b)

-- The loop over the lines of the buffer, on fuel: the lines and what is left.
unfoldable pub drain : ℕ → String → List String × String
unfolding partition
drain zero buffer = ([]ᴸ, buffer)
drain (suc n) buffer = cut (partition buffer) buffer (λ rest. drain n rest)

-- The loop over the chunks: the lines, and the exception that ends it. A line takes at least one
-- character, so the length of the buffer is fuel enough.
unfoldable pub read_chunks : String → List String → List String × Option Exc
unfolding drain
read_chunks buffer []ᴸ = ([]ᴸ, none)
read_chunks buffer (chunk ∷ᴸ chunks) =
    let longer = buffer ++ chunk in
    let (lines, left) = drain (count longer) longer in
    let (later, e) = read_chunks left chunks in
    if ltb max_sse_buffer (count longer)
    then ([]ᴸ, some (other "_SseBufferOverflowError"))
    else (lines ++ᴸ later, e)

-- What a line carries: nothing, if it is blank or a comment.
unfoldable pub payload : String → Option String
payload line =
    let trimmed = strip line in
    let content = if str_eq (take 5 trimmed) "data:" then strip (skip 5 trimmed) else trimmed in
    if str_eq trimmed "" || str_eq (take 1 trimmed) ":"
    then none
    else if str_eq content ""
    then none
    else some content

-- `json_loads` is json.loads, with `none` for JSONDecodeError: the frame is left out.
module _ (json_loads : String → Option Value) where
  abbrev loaded : Option String → Option Value
  loaded none = none
  loaded (some content) = json_loads content

  abbrev and_then : Option Value → List Value → List Value
  and_then none frames = frames
  and_then (some frame) frames = frame ∷ᴸ frames

  unfoldable pub frames_of : List String → List Value
  unfolding payload
  frames_of []ᴸ = []ᴸ
  frames_of (line ∷ᴸ lines) = and_then (loaded (payload line)) (frames_of lines)

  -- The body of `_sse_lines` behind the status.
  unfoldable pub sse_frames : List String → List Value × Option Exc
  unfolding frames_of read_chunks
  sse_frames chunks = let (lines, e) = read_chunks "" chunks in (frames_of lines, e)
