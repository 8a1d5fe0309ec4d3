-- ===== src/Outbound/Split.antt =====
-- internal/outbound/splitter.go. A chunk is kept as its lines, which are joined at the end; so the
-- closing fence, which the code appends as text, is one line more. The two regular expressions are
-- written as functions. `limit` is 0 for any limit that is not positive.
pub mod Runs
pub mod Balance
pub mod Fences
pub mod Content
use dingtalk_channel_sdk_go.Prelude.{
  ltb, leb, eqb, if◌then◌else◌, length, Text, ℕ, zero, suc, ◌+◌, ◌*◌, Bool, true, false, not, ◌&&◌,
  ◌||◌, Option, none, some, List, [], ◌∷◌, ◌++◌, map, arith,
}

-- the lines of `strings.Split(text, "\n")`
unfoldable pub split_lines : Text → List Text
split_lines [] = [] ∷ []
split_lines (c ∷ s) =
    let rest = split_lines s in
    if eqb c 10 then [] ∷ rest else elim rest [ [] ↦ (c ∷ []) ∷ [] | l ∷ ls ↦ (c ∷ l) ∷ ls ]

-- `strings.Join(lines, "\n")`
unfoldable pub join_lines : List Text → Text
join_lines [] = []
join_lines (l ∷ ls) = elim ls [ [] ↦ l | _ ∷ _ ↦ l ++ (10 ∷ join_lines ls) ]

-- `\w`
unfoldable pub is_word : ℕ → Bool
is_word c =
    ((leb 48 c && leb c 57) || (leb 65 c && leb c 90)) || (eqb c 95 || (leb 97 c && leb c 122))

unfoldable pub all_words : Text → Bool
unfolding is_word
all_words [] = true
all_words (c ∷ s) = is_word c && all_words s

-- three backticks and the rest of the line
abbrev pub backtick : ℕ
backtick = 96

unfoldable pub fence : Text → Text
fence lang = backtick ∷ backtick ∷ backtick ∷ lang

unfoldable pub strip_tick : Text → Option Text
strip_tick [] = none
strip_tick (c ∷ s) = if eqb c backtick then some s else none

unfoldable pub strip_next : Option Text → Option Text
strip_next none = none
strip_next (some s) = strip_tick s

unfoldable pub word_only : Option Text → Option Text
word_only none = none
word_only (some lang) = if all_words lang then some lang else none

-- `fenceRegex`: the language of a fence line
unfoldable pub fence_match : Text → Option Text
fence_match line = word_only (strip_next (strip_next (strip_tick line)))

-- `\s`
unfoldable pub is_space : ℕ → Bool
is_space c = (leb 9 c && leb c 10) || (leb 12 c && leb c 13) || eqb c 32

-- after at least one `#`: at most `more` others, and a space
unfoldable pub heading_rest : ℕ → Text → Bool
unfolding is_space
heading_rest more [] = false
heading_rest zero (c ∷ s) = is_space c
heading_rest (suc more) (c ∷ s) =
    let next = heading_rest more s in if eqb c b'#' then next else is_space c

-- `headingRegex`
unfoldable pub is_heading : Text → Bool
unfolding heading_rest
is_heading [] = false
is_heading (c ∷ s) = eqb c b'#' && heading_rest 5 s

-- the variables of the loop
pub record Splitter : Type 0 where
  pub out : List (List Text)
  pub buf : List Text
  pub buf_len : ℕ
  pub fence_lang : Option Text

unfoldable pub start : Splitter
start = record { out = []; buf = []; buf_len = 0; fence_lang = none }

abbrev pub is_nil : List Text → Bool
is_nil [] = true
is_nil (_ ∷ _) = false

-- the lines that a flush adds to the chunk, and those with which the next one starts
unfoldable pub closing : Option Text → List Text
closing none = []
closing (some lang) = fence [] ∷ []

unfoldable pub reopening : Option Text → List Text
reopening none = []
reopening (some lang) = fence lang ∷ []

unfoldable pub reopening_len : Option Text → ℕ
reopening_len none = 0
reopening_len (some lang) = length (fence lang)

unfoldable pub flush : Splitter → Splitter
unfolding closing reopening reopening_len
flush st = if is_nil st.buf then st else record st {
  out = st.out ++ ((st.buf ++ closing st.fence_lang) ∷ []);
  buf = reopening st.fence_lang;
  buf_len = reopening_len st.fence_lang;
}

unfoldable pub toggle_by : Option Text → Option Text → Option Text
toggle_by none state = state
toggle_by (some lang) none = some lang
toggle_by (some lang) (some _) = none

-- the fence after a line
unfoldable pub toggle : Option Text → Text → Option Text
toggle state line = toggle_by (fence_match line) state

-- The length of the line is taken before the flush, and the near-full test is `4 buf_len > 3 limit`.
unfoldable pub must_flush : ℕ → Splitter → Text → Bool
must_flush limit st line =
    let line_len = (if is_nil st.buf then length line else suc (length line)) in
    ltb limit (st.buf_len + line_len)
    || ((is_heading line && ltb (limit * 3) (st.buf_len * 4)) && not (is_nil st.buf))

unfoldable pub add_line : Splitter → ℕ → Text → Splitter
unfolding toggle
add_line st line_len line = record st {
  buf = st.buf ++ (line ∷ []);
  buf_len = st.buf_len + line_len;
  fence_lang = toggle st.fence_lang line;
}

unfoldable pub step : ℕ → Splitter → Text → Splitter
step limit st line =
    let line_len = (if is_nil st.buf then length line else suc (length line)) in
    add_line (if must_flush limit st line then flush st else st) line_len line

unfoldable pub run : ℕ → Splitter → List Text → Splitter
run limit st [] = st
run limit st (l ∷ ls) = run limit (step limit st l) ls

-- the chunks, as lines, of a text that is over the limit
unfoldable pub chunks_of : ℕ → List Text → List (List Text)
unfolding start
chunks_of limit lines = (flush (run limit start lines)).out

unfoldable pub split_with_code_fences : Text → ℕ → List Text
unfolding chunks_of split_lines join_lines
split_with_code_fences text limit =
    if eqb limit 0 || leb (length text) limit
    then text ∷ []
    else map join_lines (chunks_of limit (split_lines text))
